-- ===== src/Udp/Wire.antt =====
-- `(UdpHdr*)skbuf->transport_hdr` in src/veloxd/udp/Udp.cpp: the header as it is read from the bytes
-- of a packet, and that this undoes `udp_bytes`.
use velox_project.Prelude.{ℕ, ◌+◌, ◌^◌, ◌<◌, ◌≡◌, refl, List, ◌++◌, length, drop, arith, word_at}
use velox_project.Udp.{UdpHdr, udp_bytes}

unfoldable pub read_udp_hdr : List ℕ → UdpHdr
read_udp_hdr bytes = record {
  source = word_at bytes 0;
  dest = word_at bytes 2;
  len = word_at bytes 4;
  check = word_at bytes 6;
}

pub record Fits (h : UdpHdr) : Type 0 where
  pub source_fits : h.source < 2 ^ 16
  pub dest_fits : h.dest < 2 ^ 16
  pub len_fits : h.len < 2 ^ 16
  pub check_fits : h.check < 2 ^ 16

pub read_udp_hdr-udp_bytes :
    (h : UdpHdr) (rest : List ℕ) → Fits h → read_udp_hdr (udp_bytes h ++ rest) ≡ h
unfolding read_udp_hdr udp_bytes
read_udp_hdr-udp_bytes h rest v = ground arith

pub drop-udp_bytes : (h : UdpHdr) (rest : List ℕ) → drop 8 (udp_bytes h ++ rest) ≡ rest
unfolding udp_bytes
drop-udp_bytes h rest = refl

pub length-udp_bytes : (h : UdpHdr) (rest : List ℕ) → length (udp_bytes h ++ rest) ≡ 8 + length rest
unfolding udp_bytes
length-udp_bytes h rest = omega arith
