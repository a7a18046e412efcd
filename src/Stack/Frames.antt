-- ===== src/Stack/Frames.antt =====
-- src/veloxd/interface/TunIface.cpp and ip/Ip.cpp: a packet that `Ip::tx` has made, written to the
-- device, read from it and demultiplexed.
use velox_project.Prelude.{
  ℕ, ◌+◌, ◌-◌, ◌≤◌, ◌≡◌, refl, ap, ◌∙◌, true, false, Option, some, List, [], ◌∷◌, ◌++◌, length,
  drop, replicate, take_all, arith, ltb, ◌==◌, if◌then◌else◌,
}
use mathlib.Core.List.{append_assoc, append-nil}
use velox_project.Ip.{IpHdr, Packet, ip_front, ip_back, ip_bytes, is_frag, protocol}
use velox_project.Ip.Wire.{read_ip_hdr, Fits, read_ip_hdr-ip_bytes, length-ip_bytes}
use velox_project.Ip.Receiving.{en_rx_que, Handed, to_udp, to_tcp, rx_body, demultiplex}
use velox_project.Ip.Reassembler.{FrameBuf, FragGroup}
use velox_project.Interface
use velox_project.Interface.{raw_bytes_of, max_raw_bytes_size, receive}

abbrev pub data_of : Packet → List ℕ
data_of p = p.transport ++ p.user_payload

abbrev pub bytes_of : Packet → List ℕ
bytes_of p = ip_bytes p.network ++ data_of p

abbrev pub zeros_behind : Packet → List ℕ
zeros_behind p = replicate (max_raw_bytes_size - length (bytes_of p)) 0

-- The frame that a packet makes at its receiver.
abbrev pub frame_of : Packet → FrameBuf
frame_of p = record {
  hdr = p.network;
  has_network_hdr = true;
  raw_bytes = bytes_of p ++ zeros_behind p;
  user_payload_begin = 0;
  user_payload_end = 20 + length (data_of p);
}

pub tx-bytes_of : (p : Packet) → Interface.tx (p ∷ []) ≡ bytes_of p
unfolding Interface.tx
tx-bytes_of p = append-nil _ ∙ append_assoc (ip_bytes p.network) p.transport p.user_payload

raw_bytes_of-bytes_of :
    (p : Packet)
    → length (data_of p) ≤ 1498
    → raw_bytes_of (bytes_of p) ≡ bytes_of p ++ zeros_behind p
raw_bytes_of-bytes_of p h =
    ap (λ l. l ++ zeros_behind p)
      (take_all max_raw_bytes_size (bytes_of p)
        (omega (arith, length-ip_bytes p.network (data_of p))))

read_hdr : (p : Packet) → Fits p.network → read_ip_hdr (bytes_of p ++ zeros_behind p) ≡ p.network
read_hdr p v =
    ap read_ip_hdr (append_assoc (ip_bytes p.network) (data_of p) (zeros_behind p))
    ∙ read_ip_hdr-ip_bytes p.network (data_of p ++ zeros_behind p) v

rx-frame_of :
    (p : Packet)
    → Fits p.network
    → length (data_of p) ≤ 1498
    → Interface.rx (some (bytes_of p)) ≡ some (frame_of p)
unfolding Interface.rx
rx-frame_of p v h =
    let t =
      take_all max_raw_bytes_size (bytes_of p)
        (omega (arith, length-ip_bytes p.network (data_of p))) in
    rw (t, read_hdr p v, length-ip_bytes p.network (data_of p)) refl

receive-some :
    (x : Option (List ℕ)) (rx_q : List FrameBuf) (f : FrameBuf)
    → Interface.rx x ≡ some f
    → f.hdr.version ≡ 4
    → receive rx_q x ≡ some (rx_q ++ (f ∷ []))
unfolding receive en_rx_que
receive-some x rx_q f e four =
    rw (e, receive) (ap (λ v. some (if v == 4 then rx_q ++ (f ∷ []) else rx_q)) four)

-- A packet of a version 4 header that fits a frame: what is written to the device is read
-- from it again, as the frame that goes to the end of the IP layer's queue.
pub receive-frame_of :
    (p : Packet) (rx_q : List FrameBuf)
    → Fits p.network
    → p.network.version ≡ 4
    → length (data_of p) ≤ 1498
    → receive rx_q (some (Interface.tx (p ∷ []))) ≡ some (rx_q ++ (frame_of p ∷ []))
receive-frame_of p rx_q v four small =
    receive-some (some (Interface.tx (p ∷ []))) rx_q (frame_of p)
      (ap (λ w. Interface.rx (some w)) (tx-bytes_of p) ∙ rx-frame_of p v small) four

not_frag : (h : IpHdr) → h.frag_off ≡ 0 → is_frag h ≡ false
unfolding is_frag
not_frag h off = rw off refl

-- A whole frame is handed on as it is.
rx_body_whole :
    (f : FrameBuf) (groups : List FragGroup) (p : Handed)
    → f.has_network_hdr ≡ true
    → ltb f.user_payload_end 20 ≡ false
    → is_frag f.hdr ≡ false
    → demultiplex f.hdr (f ∷ []) ≡ some p
    → rx_body groups f ≡ some (record { groups = groups; handed = p })
unfolding rx_body
rx_body_whole f groups p hdr long whole e = rw (long, whole, e, hdr) refl

demultiplex-to_udp :
    (h : IpHdr) (f : FrameBuf) (next : List FrameBuf)
    → h.protocol ≡ 17
    → h.ihl ≡ 5
    → demultiplex h (f ∷ next) ≡ some (to_udp f next 20)
unfolding demultiplex protocol
demultiplex-to_udp h f next proto ihl = rw (proto, ihl) refl

demultiplex-to_tcp :
    (h : IpHdr) (f : FrameBuf) (next : List FrameBuf)
    → h.protocol ≡ 6
    → h.ihl ≡ 5
    → demultiplex h (f ∷ next) ≡ some (to_tcp f next 20)
unfolding demultiplex protocol
demultiplex-to_tcp h f next proto ihl = rw (proto, ihl) refl

long_enough : (p : Packet) → ltb (frame_of p).user_payload_end 20 ≡ false
long_enough p = ground arith

pub rx_body-to_udp :
    (p : Packet) (groups : List FragGroup)
    → p.network.frag_off ≡ 0
    → p.network.ihl ≡ 5
    → p.network.protocol ≡ 17
    → rx_body groups (frame_of p)
      ≡ some (record { groups = groups; handed = to_udp (frame_of p) [] 20 })
rx_body-to_udp p groups off ihl proto =
    rx_body_whole (frame_of p) groups (to_udp (frame_of p) [] 20) refl (long_enough p)
      (not_frag p.network off) (demultiplex-to_udp p.network (frame_of p) [] proto ihl)

pub rx_body-to_tcp :
    (p : Packet) (groups : List FragGroup)
    → p.network.frag_off ≡ 0
    → p.network.ihl ≡ 5
    → p.network.protocol ≡ 6
    → rx_body groups (frame_of p)
      ≡ some (record { groups = groups; handed = to_tcp (frame_of p) [] 20 })
rx_body-to_tcp p groups off ihl proto =
    rx_body_whole (frame_of p) groups (to_tcp (frame_of p) [] 20) refl (long_enough p)
      (not_frag p.network off) (demultiplex-to_tcp p.network (frame_of p) [] proto ihl)

-- What stands at `transport_hdr`.
pub drop-frame_of : (p : Packet) → drop 20 (frame_of p).raw_bytes ≡ data_of p ++ zeros_behind p
unfolding ip_front ip_back
drop-frame_of p = refl

pub drop_28-frame_of :
    (p : Packet) → drop 28 (frame_of p).raw_bytes ≡ drop 8 (data_of p ++ zeros_behind p)
unfolding ip_front ip_back
drop_28-frame_of p = refl
