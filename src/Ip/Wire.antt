-- ===== src/Ip/Wire.antt =====
-- `(IpHdr*)skbuf->network_hdr` in src/veloxd/ip/Ip.cpp, over the kernel's `struct iphdr`: the header
-- as it is read from the bytes of a packet, and that this undoes `ip_bytes`.
use velox_project.Prelude.{
  ℕ, ◌+◌, ◌/◌, ◌%◌, ◌^◌, ◌<◌, ◌≡◌, refl, List, ◌++◌, length, drop, arith, byte_at, word_at, long_at,
}
use velox_project.Ip.{IpHdr, ip_front, ip_back, ip_bytes}

unfoldable pub read_ip_hdr : List ℕ → IpHdr
read_ip_hdr bytes = record {
  version = byte_at bytes 0 / 16;
  ihl = byte_at bytes 0 % 16;
  tos = byte_at bytes 1;
  tot_len = word_at bytes 2;
  id = word_at bytes 4;
  frag_off = word_at bytes 6;
  ttl = byte_at bytes 8;
  protocol = byte_at bytes 9;
  check = word_at bytes 10;
  saddr = long_at bytes 12;
  daddr = long_at bytes 16;
}

-- Every field fits its width.
pub record Fits (h : IpHdr) : Type 0 where
  pub version_fits : h.version < 16
  pub ihl_fits : h.ihl < 16
  pub tos_fits : h.tos < 256
  pub tot_len_fits : h.tot_len < 2 ^ 16
  pub id_fits : h.id < 2 ^ 16
  pub frag_off_fits : h.frag_off < 2 ^ 16
  pub ttl_fits : h.ttl < 256
  pub protocol_fits : h.protocol < 256
  pub check_fits : h.check < 2 ^ 16
  pub saddr_fits : h.saddr < 2 ^ 32
  pub daddr_fits : h.daddr < 2 ^ 32

-- A header that is written into a packet is read back from it, whatever follows.
pub read_ip_hdr-ip_bytes :
    (h : IpHdr) (rest : List ℕ) → Fits h → read_ip_hdr (ip_bytes h ++ rest) ≡ h
unfolding read_ip_hdr ip_front ip_back
read_ip_hdr-ip_bytes h rest v = ground arith

pub drop-ip_bytes : (h : IpHdr) (rest : List ℕ) → drop 20 (ip_bytes h ++ rest) ≡ rest
unfolding ip_front ip_back
drop-ip_bytes h rest = refl

pub length-ip_bytes : (h : IpHdr) (rest : List ℕ) → length (ip_bytes h ++ rest) ≡ 20 + length rest
unfolding ip_front ip_back
length-ip_bytes h rest = omega arith
