-- ===== src/Ip/Receiving/Turns.antt =====
-- src/veloxd/ip/Ip.cpp, the body of the loop of `Ip::start`: what a turn makes of the groups, and what it hands on.
use velox_project.Prelude.{
  ◌≤◌, ◌<◌, ◌≡◌, ◌⊎◌, inl, inr, refl, ap, subst, ◌∙◌, true, false, Option, none, some, List, [],
  ◌∷◌, arith, All, ltb, ◌==◌, Bool-cases, Option-cases, ==_iff,
}
use velox_project.Ip.{IpHdr, ProtocolX, ip, icmp, igmp, udp, tcp, protocol, is_frag}
use velox_project.Ip.Reassembler.{
  FrameBuf, FragGroup, frag_offset, ours_off, find_group, Defragged, defrag,
}
use velox_project.Ip.Reassembler.Insert.{insert_frag-none_iff}
use velox_project.Ip.Reassembler.Groups.{frame_key, IsSound}
use velox_project.Ip.Reassembler.Sound.{IsFrom, defrag-cases}
use velox_project.Ip.Receiving.{
  Handed, nothing, to_udp, to_tcp, hand_over, demultiplex, Turn, turn, with_packet, rx_body,
}

-- What is handed on has the protocol of the layer, and its frames are all of the packet of the frame that came last.
abbrev pub IsHanded : FrameBuf → Handed → Type 0
IsHanded skbuf nothing = Unit
IsHanded skbuf (to_udp f next n) =
    (skbuf.hdr.protocol ≡ 17) × All (λ g. frame_key g ≡ frame_key skbuf) (f ∷ next)
IsHanded skbuf (to_tcp f next n) =
    (skbuf.hdr.protocol ≡ 6) × All (λ g. frame_key g ≡ frame_key skbuf) (f ∷ next)

-- The group of the fragment begins with one that does not start behind it, while its own offset, read without
-- the change of byte order, is not behind that one's.
abbrev pub IsMisplaced : List FragGroup → FrameBuf → Type 0
IsMisplaced groups skbuf =
    (f : FrameBuf) × (rest : List FrameBuf) × ((find_group skbuf groups).ctx.first ≡ f ∷ rest)
    × (frag_offset f ≤ frag_offset skbuf)
    × (ours_off skbuf ≤ frag_offset f)

IsOf : IpHdr → ProtocolX → Type 0
IsOf h udp = h.protocol ≡ 17
IsOf h tcp = h.protocol ≡ 6
IsOf h _ = Unit

protocol-IsOf : (h : IpHdr) → h.protocol < 255 → (p : ProtocolX) × (protocol h ≡ some p) × IsOf h p
unfolding protocol IsOf
protocol-IsOf h small =
    let e : ltb h.protocol 255 ≡ true = ground arith in
    elim (Bool-cases (h.protocol == 1)) [
      | inl t ↦ (icmp, rw (e, t) refl, tt)
      | inr n₁ ↦ elim (Bool-cases (h.protocol == 2)) [
        | inl t ↦ (igmp, rw (e, n₁, t) refl, tt)
        | inr n₂ ↦ elim (Bool-cases (h.protocol == 6)) [
          | inl t ↦ (tcp, rw (e, n₁, n₂, t) refl, (==_iff h.protocol 6).0 t)
          | inr n₃ ↦ elim (Bool-cases (h.protocol == 17)) [
            | inl t ↦ (udp, rw (e, n₁, n₂, n₃, t) refl, (==_iff h.protocol 17).0 t)
            | inr n₄ ↦ (ip, rw (e, n₁, n₂, n₃, n₄) refl, tt)
          ]
        ]
      ]
    ]

hand_over-IsHanded :
    (skbuf f : FrameBuf) (next : List FrameBuf) (p : ProtocolX)
    → IsOf skbuf.hdr p
    → All (λ g. frame_key g ≡ frame_key skbuf) (f ∷ next)
    → IsHanded skbuf (hand_over p skbuf.hdr f next)
unfolding hand_over IsOf
hand_over-IsHanded skbuf f next udp e hs = (e, hs)
hand_over-IsHanded skbuf f next tcp e hs = (e, hs)
hand_over-IsHanded skbuf f next ip e hs = tt
hand_over-IsHanded skbuf f next icmp e hs = tt
hand_over-IsHanded skbuf f next igmp e hs = tt

demultiplex-IsHanded :
    (skbuf : FrameBuf) (chain : List FrameBuf)
    → skbuf.hdr.protocol < 255
    → All (λ g. frame_key g ≡ frame_key skbuf) chain
    → (h : Handed) × (demultiplex skbuf.hdr chain ≡ some h) × IsHanded skbuf h
unfolding demultiplex
demultiplex-IsHanded skbuf [] small hs = (nothing, refl, tt)
demultiplex-IsHanded skbuf (f ∷ next) small hs =
    let (p, e, own) = protocol-IsOf skbuf.hdr small in
    (
      hand_over p skbuf.hdr f next,
      rw (demultiplex, e) refl,
      hand_over-IsHanded skbuf f next p own hs,
    )

-- The turn does not fault, and leaves the groups as they should be.
abbrev pub Turns : FrameBuf → Option Turn → Type 0
Turns skbuf o = (t : Turn) × (o ≡ some t) × IsSound t.groups × IsHanded skbuf t.handed

turn-Turns :
    (groups : List FragGroup) (skbuf : FrameBuf) (chain : List FrameBuf)
    → skbuf.hdr.protocol < 255
    → IsSound groups
    → All (λ g. frame_key g ≡ frame_key skbuf) chain
    → Turns skbuf (turn groups (demultiplex skbuf.hdr chain))
unfolding turn
turn-Turns groups skbuf chain small v hs =
    let (h, e, here) = demultiplex-IsHanded skbuf chain small hs in
    (record { groups = groups; handed = h }, ap (turn groups) e, v, here)

with_packet_at :
    (h : IpHdr) (d : Defragged) (chain : List FrameBuf)
    → d.packet ≡ some chain
    → with_packet h (some d) ≡ turn d.groups (demultiplex h chain)
unfolding with_packet
with_packet_at h d chain e = rw (with_packet, e) refl

with_packet-Turns :
    (skbuf : FrameBuf) (d : Defragged)
    → skbuf.hdr.protocol < 255
    → IsSound d.groups
    → IsFrom skbuf d.packet
    → Turns skbuf (with_packet skbuf.hdr (some d))
unfolding with_packet
with_packet-Turns skbuf d small v here = elim (Option-cases d.packet) [
  | inl n ↦ (record { groups = d.groups; handed = nothing }, rw (with_packet, n) refl, v, tt)
  | inr (chain, e) ↦
      (let (t, e', sound, handed) =
          turn-Turns d.groups skbuf chain small v (subst (IsFrom skbuf) e here).0 in
        (t, with_packet_at skbuf.hdr d chain e ∙ e', sound, handed))
]

-- A frame that is long enough and no fragment, one that is too short, and a fragment.
rx_body_short :
    (groups : List FragGroup) (skbuf : FrameBuf)
    → skbuf.has_network_hdr ≡ true
    → ltb skbuf.user_payload_end 20 ≡ true
    → rx_body groups skbuf ≡ some (record { groups = groups; handed = nothing })
unfolding rx_body
rx_body_short groups skbuf h short = rw (h, short) refl

rx_body_whole :
    (groups : List FragGroup) (skbuf : FrameBuf)
    → skbuf.has_network_hdr ≡ true
    → ltb skbuf.user_payload_end 20 ≡ false
    → is_frag skbuf.hdr ≡ false
    → rx_body groups skbuf ≡ turn groups (demultiplex skbuf.hdr (skbuf ∷ []))
unfolding rx_body
rx_body_whole groups skbuf h long whole = rw (h, long, whole) refl

rx_body_fragment :
    (groups : List FragGroup) (skbuf : FrameBuf)
    → skbuf.has_network_hdr ≡ true
    → ltb skbuf.user_payload_end 20 ≡ false
    → is_frag skbuf.hdr ≡ true
    → rx_body groups skbuf ≡ with_packet skbuf.hdr (defrag groups skbuf)
unfolding rx_body
rx_body_fragment groups skbuf h long frag = rw (h, long, frag) refl

-- What becomes of a frame with its header and with a protocol that the table has.
module _ (groups : List FragGroup) (skbuf : FrameBuf) (v : IsSound groups)
    (h : skbuf.has_network_hdr ≡ true) (small : skbuf.hdr.protocol < 255) where
  fragment_Turns :
      (ltb skbuf.user_payload_end 20 ≡ false)
      → (is_frag skbuf.hdr ≡ true)
      → (IsMisplaced groups skbuf × (rx_body groups skbuf ≡ none))
        ⊎ Turns skbuf (rx_body groups skbuf)
  unfolding with_packet
  fragment_Turns long frag = elim (defrag-cases groups skbuf v h) [
    | inl (misplaced, e) ↦ inl (
      (insert_frag-none_iff skbuf (find_group skbuf groups).ctx.first).0 misplaced,
      rx_body_fragment groups skbuf h long frag ∙ ap (with_packet skbuf.hdr) e,
    )
    | inr (d, e, sound, here) ↦
        (let (t, e', rest, handed) = with_packet-Turns skbuf d small sound here in
          inr (
            t,
            rx_body_fragment groups skbuf h long frag ∙ ap (with_packet skbuf.hdr) e ∙ e',
            rest,
            handed,
          ))
  ]

  -- With a list of groups in which each has fragments, all of its own packet and not a complete one, and no two are
  -- for the same packet: on a frame whose header is there, and whose protocol is not 255, a turn of the loop does
  -- one of two things. Either the frame is a fragment that is misplaced in its group, and the turn
  -- writes through a null pointer; or it does not fault, the list of groups is again such a list, and what is handed
  -- to UDP or TCP has its protocol and consists of frames of the packet of the frame that came last.
  pub rx_body-Turns :
      ((is_frag skbuf.hdr ≡ true) × IsMisplaced groups skbuf × (rx_body groups skbuf ≡ none))
      ⊎ Turns skbuf (rx_body groups skbuf)
  rx_body-Turns = elim (Bool-cases (ltb skbuf.user_payload_end 20)) [
    | inl short ↦
        inr
          (record { groups = groups; handed = nothing }, rx_body_short groups skbuf h short, v, tt)
    | inr long ↦ elim (Bool-cases (is_frag skbuf.hdr)) [
      | inl frag ↦ elim (fragment_Turns long frag) [
        | inl (misplaced, e) ↦ inl (frag, misplaced, e)
        | inr turns ↦ inr turns
      ]
      | inr whole ↦
          (let (t, e, sound, handed) = turn-Turns groups skbuf (skbuf ∷ []) small v (refl, tt) in
            inr (t, rx_body_whole groups skbuf h long whole ∙ e, sound, handed))
    ]
  ]
