-- ===== src/Ip/Reassembler/Whole.antt =====
-- src/veloxd/ip/reassembly/Reassembler.cpp, `Reassembler::defrag`: from the fragments of a packet to
-- the packet.
use velox_project.Prelude.{◌+◌, ◌*◌, ◌^◌, ◌<◌, ◌≡◌, true, some, List, [], ◌∷◌, All}
use velox_project.Ip.Reassembler.{FrameBuf, FragGroup, new_group, is_last, last_of}
use velox_project.Ip.Reassembler.Complete.{
  IsFrame, data_sum, Follows, IsPacketOf, complete-IsPacketOf,
}
use velox_project.Ip.Reassembler.Arrival.{defrag_all, IsNew, defrag_all-InPlace, groups_with}
use velox_project.Ip.Reassembler.Ordered.{InOrder, OursBehind, InOrder-InPlace}

-- The fragments of one packet, in order and side by side from offset 0 on, with the MF bit clear in
-- the last alone, none shorter than its header, and no group there for their packet. The offset of each but the first, as
-- the insertion reads it, without the change of byte order, is behind the offsets of all before it. Then the last one brings
-- out one packet and nothing else comes out, and the groups of other packets are as before. The packet has a frame for each
-- fragment, with its bytes, in order; the first is the first fragment with the length of the whole in its header; the payload of
-- each other begins as many bytes in as its header has words. The whole fits 16 bits.
pub defrag_all-total_len :
    (groups : List FragGroup) (f : FrameBuf) (fs : List FrameBuf)
    → All (λ f'. IsNew f' groups) (f ∷ fs)
    → InOrder (new_group f) [] (f ∷ fs)
    → OursBehind [] (f ∷ fs)
    → All IsFrame (f ∷ fs)
    → Follows 0 (f ∷ fs)
    → is_last (last_of f fs) ≡ true
    → data_sum (f ∷ fs) + f.hdr.ihl * 4 < 2 ^ 16
    → (head : FrameBuf) × (tail : List FrameBuf) × (defrag_all
          (groups_with groups (new_group f) [])
          (f ∷ fs)
        ≡ some (groups, (head ∷ tail) ∷ []))
      × IsPacketOf f fs head tail
defrag_all-total_len groups f fs new order ours frames follows last small =
    let (head, tail, e, whole) = complete-IsPacketOf f fs frames follows last small in
    let place = InOrder-InPlace (new_group f) [] (f ∷ fs) order ours in
    (head, tail, defrag_all-InPlace (new_group f) groups [] f fs (head ∷ tail) new place e, whole)
