-- ===== src/Stack/Fragments.antt =====
-- src/veloxd/ip/Ip.cpp, the loop of `Ip::start`, over ip/reassembly/Reassembler.cpp and udp/Udp.cpp: a
-- datagram that arrives in fragments.
use velox_project.Prelude.{
  ℕ, ◌+◌, ◌*◌, ◌^◌, ◌≤◌, ◌<◌, ◌≡◌, refl, ap, sym, ◌∙◌, true, false, none, some, List, [], ◌∷◌, ◌++◌,
  arith, All, ltb, if◌then◌else◌,
}
use mathlib.Core.List.{append_assoc}
use velox_project.Ip.{is_frag, protocol}
use velox_project.Ip.Receiving.{nothing, to_udp, rx_body, demultiplex, hand_over, with_packet, turn}
use velox_project.Ip.Reassembler.{
  FrameBuf, FragGroup, new_group, is_last, last_of, complete, defrag,
}
use velox_project.Ip.Reassembler.Complete.{
  IsFrame, data_sum, Follows, IsPacketOf, complete-IsPacketOf,
}
use velox_project.Ip.Reassembler.Arrival.{IsNew, InPlace, groups_with, defrag_last, defrag_more}
use velox_project.Ip.Reassembler.Ordered.{InOrder, OursBehind, InOrder-InPlace}
use velox_project.Endpoint.{Received}
use velox_project.Stack.{Stack, udp_rx, take_handed, rx_turn, rx_loop}

-- A frame that the loop hands to the reassembly.
abbrev pub IsFragment : FrameBuf → Type 0
IsFragment f = (f.has_network_hdr ≡ true) × (20 ≤ f.user_payload_end) × (is_frag f.hdr ≡ true)

-- The loop's body on a fragment.
rx_body_fragment :
    (groups : List FragGroup) (f : FrameBuf)
    → IsFragment f
    → rx_body groups f ≡ with_packet f.hdr (defrag groups f)
unfolding rx_body
rx_body_fragment groups f (h, n, frag) =
    let long : ltb f.user_payload_end 20 ≡ false = ground arith in
    rw (long, frag) (ap (λ b. if b then with_packet f.hdr (defrag groups f) else none) h)

rx_body-more :
    (groups groups' : List FragGroup) (f : FrameBuf)
    → IsFragment f
    → defrag groups f ≡ some (record { groups = groups'; packet = none })
    → rx_body groups f ≡ some (record { groups = groups'; handed = nothing })
unfolding with_packet
rx_body-more groups groups' f frag e = rx_body_fragment groups f frag ∙ ap (with_packet f.hdr) e

rx_body-last :
    (groups groups' : List FragGroup) (f head : FrameBuf) (tail : List FrameBuf)
    → IsFragment f
    → f.hdr.protocol ≡ 17
    → defrag groups f ≡ some (record { groups = groups'; packet = some (head ∷ tail) })
    → rx_body groups f
      ≡ some (record { groups = groups'; handed = to_udp head tail (f.hdr.ihl * 4) })
unfolding with_packet turn demultiplex protocol hand_over
rx_body-last groups groups' f head tail frag proto e =
    rx_body_fragment groups f frag ∙ ap (with_packet f.hdr) e ∙ rw proto refl

module _ (size_approx : List Received → ℕ) (capacity : ℕ) where
  turn-more :
      (s : Stack) (groups : List FragGroup) (f : FrameBuf)
      → rx_body s.groups f ≡ some (record { groups = groups; handed = nothing })
      → rx_turn size_approx capacity s f ≡ some (record s { groups = groups })
  unfolding rx_turn take_handed
  turn-more s groups f e = rw (e, rx_turn) refl

  turn-last :
      (s : Stack) (groups : List FragGroup) (f head : FrameBuf) (tail : List FrameBuf) (n : ℕ)
      → rx_body s.groups f ≡ some (record { groups = groups; handed = to_udp head tail n })
      → rx_turn size_approx capacity s f
        ≡ some (udp_rx size_approx capacity (record s { groups = groups }) head tail n)
  unfolding rx_turn take_handed
  turn-last s groups f head tail n e = rw (e, rx_turn) refl

  loop-next :
      (s s' : Stack) (f : FrameBuf) (fs : List FrameBuf)
      → rx_turn size_approx capacity s f ≡ some s'
      → rx_loop size_approx capacity s (f ∷ fs) ≡ rx_loop size_approx capacity s' fs
  unfolding rx_loop
  loop-next s s' f fs e = rw (e, rx_loop) refl

  -- The fragments that are still to come, behind a chain of those that have arrived.
  loop-InPlace :
      (s : Stack) (g : FragGroup) (groups : List FragGroup) (chain : List FrameBuf) (f : FrameBuf)
      (fs : List FrameBuf) (head : FrameBuf) (tail : List FrameBuf)
      → s.groups ≡ groups_with groups g chain
      → All (λ f'. IsNew f' groups) (f ∷ fs)
      → All IsFragment (f ∷ fs)
      → (last_of f fs).hdr.protocol ≡ 17
      → InPlace g chain (f ∷ fs)
      → complete (chain ++ (f ∷ fs)) ≡ some (head ∷ tail)
      → rx_loop size_approx capacity s (f ∷ fs)
        ≡ some (
            udp_rx size_approx capacity
              (record s { groups = groups })
              head
              tail
              ((last_of f fs).hdr.ihl * 4))
  unfolding rx_loop last_of
  loop-InPlace s g groups chain f [] head tail at_group new frags proto o e =
      let d =
        ap (λ gs. defrag gs f) (at_group ∙ ap (λ k. groups_with groups k chain) (sym o.0))
        ∙ defrag_last f groups chain (head ∷ tail) new.0 o.1 e in
      loop-next s _ f [] (
        turn-last s groups f head tail (f.hdr.ihl * 4)
          (rx_body-last s.groups groups f head tail frags.0 proto d))
  loop-InPlace s g groups chain f (f' ∷ fs) head tail at_group new frags proto o e =
      let gs = groups_with groups (new_group f) (chain ++ (f ∷ [])) in
      let d =
        ap (λ gs. defrag gs f) (at_group ∙ ap (λ k. groups_with groups k chain) (sym o.0))
        ∙ defrag_more f groups chain new.0 o.1 o.2 in
      loop-next s (record s { groups = gs }) f (f' ∷ fs)
        (turn-more s gs f (rx_body-more s.groups gs f frags.0 d))
      ∙ loop-InPlace (record s { groups = gs }) g groups (chain ++ (f ∷ [])) f' fs head tail
          (ap (λ k. groups_with groups k (chain ++ (f ∷ []))) o.0) new.1 frags.1 proto o.3
          (ap complete (append_assoc chain (f ∷ []) (f' ∷ fs)) ∙ e)

  -- A UDP datagram that arrives in fragments, in order and side by side from offset 0 on, with the MF bit clear
  -- in the last alone, none shorter than its header, and no group there for their packet. The offset of each but the
  -- first, as the insertion reads it, without the change of byte order, is behind the offsets of all before it. Then the loop hands
  -- nothing on before the last one, and with it hands `Udp::rx` one packet, and the groups of other packets are as
  -- before. The packet has a frame for each fragment, with its bytes, in order; the first is the first fragment with the
  -- length of the whole in its header, which fits 16 bits; the payload of each other begins as many bytes in as its header has
  -- words; the UDP header is looked for behind a header of the last fragment's length.
  pub rx_loop-InOrder :
      (s : Stack) (f : FrameBuf) (fs : List FrameBuf)
      → All (λ f'. IsNew f' s.groups) (f ∷ fs)
      → All IsFragment (f ∷ fs)
      → (last_of f fs).hdr.protocol ≡ 17
      → InOrder (new_group f) [] (f ∷ fs)
      → OursBehind [] (f ∷ fs)
      → All IsFrame (f ∷ fs)
      → Follows 0 (f ∷ fs)
      → is_last (last_of f fs) ≡ true
      → data_sum (f ∷ fs) + f.hdr.ihl * 4 < 2 ^ 16
      → (head : FrameBuf) × (tail : List FrameBuf) × (rx_loop size_approx capacity s (f ∷ fs)
          ≡ some (udp_rx size_approx capacity s head tail ((last_of f fs).hdr.ihl * 4)))
        × IsPacketOf f fs head tail
  unfolding groups_with
  rx_loop-InOrder s f fs new frags proto order ours frames follows last small =
      let (head, tail, e, whole) = complete-IsPacketOf f fs frames follows last small in
      let place = InOrder-InPlace (new_group f) [] (f ∷ fs) order ours in
      (
        head,
        tail,
        loop-InPlace s (new_group f) s.groups [] f fs head tail refl new frags proto place e,
        whole,
      )
