-- ===== src/Tcp/Wire.antt =====
-- `(TcpHdr*)skbuf->transport_hdr` in src/veloxd/tcp/TcpSession.cpp: the header as it is read from
-- the bytes of a packet, and that this undoes `tcp_bytes`.
use velox_project.Prelude.{
  ℕ, ◌+◌, ◌/◌, ◌%◌, ◌^◌, ◌<◌, ◌≡◌, refl, List, ◌++◌, length, drop, arith, ◌==◌, byte_at, word_at,
  long_at, swap32,
}
use velox_project.Tcp.{TcpHdr, Segment, tcp_front, tcp_bytes}

unfoldable pub read_tcp_hdr : List ℕ → TcpHdr
read_tcp_hdr bytes = record {
  source = word_at bytes 0;
  dest = word_at bytes 2;
  seq = long_at bytes 4;
  ack_seq = long_at bytes 8;
  doff = byte_at bytes 12 / 16;
  syn = byte_at bytes 13 / 2 % 2 == 1;
  ack = byte_at bytes 13 / 16 % 2 == 1;
  window = word_at bytes 14;
  check = word_at bytes 16;
}

-- The segment of a packet as `recv` finds it.
abbrev pub segment_of : List ℕ → Segment
segment_of bytes = record { hdr = read_tcp_hdr bytes; bytes = bytes }

pub record IsTcpHdr (h : TcpHdr) : Type 0 where
  pub source_fits : h.source < 2 ^ 16
  pub dest_fits : h.dest < 2 ^ 16
  pub seq_fits : h.seq < 2 ^ 32
  pub ack_seq_fits : h.ack_seq < 2 ^ 32
  pub doff_fits : h.doff < 16
  pub window_fits : h.window < 2 ^ 16
  pub check_fits : h.check < 2 ^ 16

-- A header that is written into a packet is read back from it, whatever follows.
pub read_tcp_hdr-tcp_bytes :
    (h : TcpHdr) (payload : List ℕ) → IsTcpHdr h → read_tcp_hdr (tcp_bytes h ++ payload) ≡ h
unfolding read_tcp_hdr tcp_front
read_tcp_hdr-tcp_bytes h payload v = ground arith

pub drop-tcp_bytes : (h : TcpHdr) (payload : List ℕ) → drop 20 (tcp_bytes h ++ payload) ≡ payload
unfolding tcp_front
drop-tcp_bytes h payload = refl

pub length-tcp_bytes :
    (h : TcpHdr) (payload : List ℕ) → length (tcp_bytes h ++ payload) ≡ 20 + length payload
unfolding tcp_front
length-tcp_bytes h payload = omega arith

pub swap32-swap32 : (n : ℕ) → n < 2 ^ 32 → swap32 (swap32 n) ≡ n
swap32-swap32 n h = omega arith

pub swap32-lt : (n : ℕ) → swap32 n < 2 ^ 32
swap32-lt n = omega arith

-- What `recv` reads of a header of five words.
pub read_fields :
    (h : TcpHdr) (payload : List ℕ)
    → h.seq < 2 ^ 32
    → h.doff < 16
    → ((read_tcp_hdr (tcp_bytes h ++ payload)).seq ≡ h.seq)
      × ((read_tcp_hdr (tcp_bytes h ++ payload)).doff ≡ h.doff)
unfolding read_tcp_hdr tcp_front
read_fields h payload s d = (omega arith, ground arith)
