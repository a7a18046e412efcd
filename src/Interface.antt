-- ===== src/Interface.antt =====
-- src/veloxd/interface/TunIface.cpp, interface/Interface.cpp and FrameBuf.h: packets out of and into the
-- TUN device. The device's descriptor is the sequence of packets that are written to it and read from it.
use velox_project.Prelude.{
  ℕ, ◌-◌, Option, none, some, List, [], ◌∷◌, ◌++◌, length, take, replicate, true,
}
use velox_project.Ip.{Packet, ip_bytes}
use velox_project.Ip.Wire.{read_ip_hdr}
use velox_project.Ip.Reassembler.{FrameBuf}
use velox_project.Ip.Receiving.{en_rx_que}

-- `TunIface::tx`: of each frame of the chain the headers and the payload, gathered into one write. Its
-- result is only logged.
unfoldable pub tx : List Packet → List ℕ
tx [] = []
tx (curr_skbuf ∷ next) =
    ((ip_bytes curr_skbuf.network ++ curr_skbuf.transport) ++ curr_skbuf.user_payload) ++ tx next

abbrev pub max_raw_bytes_size : ℕ
max_raw_bytes_size = 1518

-- `rawBytes` of a fresh FrameBuf, which is zeros, behind a read of at most its size.
abbrev pub raw_bytes_of : List ℕ → List ℕ
raw_bytes_of packet =
    take max_raw_bytes_size packet ++ replicate (max_raw_bytes_size - length packet) 0

-- `TunIface::rx` into a fresh FrameBuf; `none` is a failed read, which ends the daemon.
unfoldable pub rx : Option (List ℕ) → Option FrameBuf
rx none = none
rx (some packet) = some (record {
  hdr = read_ip_hdr (raw_bytes_of packet);
  has_network_hdr = true;
  raw_bytes = raw_bytes_of packet;
  user_payload_begin = 0;
  user_payload_end = length (take max_raw_bytes_size packet);
})

-- The body of the loop of `Interface::start`, on the IP layer's queue.
unfoldable pub receive : List FrameBuf → Option (List ℕ) → Option (List FrameBuf)
unfolding rx
receive rx_q packet = elim (rx packet) [ none ↦ none | some skbuf ↦ some (en_rx_que rx_q skbuf) ]
