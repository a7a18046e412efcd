-- ===== src/Ip/Receiving.antt =====
-- src/veloxd/ip/Ip.cpp, `Ip::enRxQue` and the loop of `Ip::start`: from the queue of received frames
-- to the transport layers. `IpHdrs::checksum` answers true without a look at its argument, and is left out of
-- the test that it stands in.
pub mod Turns
use velox_project.Prelude.{
  ℕ, ◌*◌, Option, none, some, List, [], ◌∷◌, ◌++◌, ltb, ◌==◌, if◌then◌else◌,
}
use velox_project.Ip.{IpHdr, ProtocolX, udp, tcp, protocol, is_frag}
use velox_project.Ip.Reassembler.{FrameBuf, FragGroup, Defragged, defrag}

-- `Ip::enRxQue`: a packet of another version is dropped; the queue's limit is not looked at.
unfoldable pub en_rx_que : List FrameBuf → FrameBuf → List FrameBuf
en_rx_que rx_q skbuf = if skbuf.hdr.version == 4 then rx_q ++ (skbuf ∷ []) else rx_q

-- What the loop hands to `Udp::rx` and `Tcp::rx`: the chain from its head, and `transport_hdr` as an
-- offset into the head's bytes.
pub data Handed : Type 0 where
  nothing : Handed
  to_udp : FrameBuf → List FrameBuf → ℕ → Handed
  to_tcp : FrameBuf → List FrameBuf → ℕ → Handed

-- 3. The switch. `iphdr` is the header of the frame that came last, also when the chain's head is another.
unfoldable pub hand_over : ProtocolX → IpHdr → FrameBuf → List FrameBuf → Handed
hand_over udp iphdr skbuf next = to_udp skbuf next (iphdr.ihl * 4)
hand_over tcp iphdr skbuf next = to_tcp skbuf next (iphdr.ihl * 4)
hand_over _ iphdr skbuf next = nothing

-- `none` is the read behind the table of protocols.
unfoldable pub demultiplex : IpHdr → List FrameBuf → Option Handed
unfolding hand_over
demultiplex iphdr [] = some nothing
demultiplex iphdr (skbuf ∷ next) = elim (protocol iphdr) [
  | none ↦ none
  | some p ↦ some (hand_over p iphdr skbuf next)
]

pub record Turn : Type 0 where
  pub groups : List FragGroup
  pub handed : Handed

unfoldable pub turn : List FragGroup → Option Handed → Option Turn
turn groups none = none
turn groups (some h) = some (record { groups = groups; handed = h })

-- 2. Behind the reassembly.
unfoldable pub with_packet : IpHdr → Option Defragged → Option Turn
unfolding demultiplex turn
with_packet iphdr none = none
with_packet iphdr (some d) = elim d.packet [
  | none ↦ some (record { groups = d.groups; handed = nothing })
  | some chain ↦ turn d.groups (demultiplex iphdr chain)
]

-- The loop's body, on a dequeued frame; `none` is the failed `assert`, the fault of the reassembly, or
-- that of the table.
unfoldable pub rx_body : List FragGroup → FrameBuf → Option Turn
unfolding with_packet demultiplex turn
rx_body groups skbuf =
    if skbuf.has_network_hdr
    then (if ltb skbuf.user_payload_end 20
        then some (record { groups = groups; handed = nothing })
        else if is_frag skbuf.hdr
        then with_packet skbuf.hdr (defrag groups skbuf)
        else turn groups (demultiplex skbuf.hdr (skbuf ∷ [])))
    else none
