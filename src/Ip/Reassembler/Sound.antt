-- ===== src/Ip/Reassembler/Sound.antt =====
-- src/veloxd/ip/reassembly/Reassembler.cpp, `Reassembler::defrag`: what the list of groups is at any time.
use velox_project.Prelude.{
  ◌≡◌, ◌≢◌, ◌⊎◌, inl, inr, refl, ap, sym, subst, ◌∙◌, Bool, true, ◌&&◌, Option, none, some, List,
  [], ◌∷◌, ◌++◌, map, All, All-map, All-append, if◌then◌else◌, Bool-cases, Option-cases,
}
use mathlib.Core.List.{map-append}
use mathlib.Core.Option.{some-injective, none-ne-some}
use velox_project.Ip.Reassembler.{
  FrameBuf, FragGroup, Place, new_group, find_group, insert_frag, complete, adjust_first,
  adjust_subsequent, payload_len, last_of, contiguous, is_last, Defragged, conclude, defrag,
}
use velox_project.Ip.Reassembler.Groups.{
  Key, frame_key, key, IsMember, IsGroup, AreApart, IsSound, insert_frag-cases, IsFound, IsAdded,
  find_group-cases,
}

-- Keys that are apart, with one more, with one less.
apart_more :
    (ks : List Key) (k : Key) → AreApart ks → All (λ k'. k' ≢ k) ks → AreApart (ks ++ (k ∷ []))
apart_more [] k v ne = (tt, tt)
apart_more (k' ∷ ks) k (n, v) (ne, nes) =
    (All-append (λ k''. k' ≢ k'') ks (k ∷ []) n (ne, tt), apart_more ks k v nes)

All-without :
    {A : Type 0} (P : A → Type 0) (xs : List A) (x : A) (ys : List A)
    → All P (xs ++ (x ∷ ys))
    → All P xs × P x × All P ys
All-without P [] x ys (p, ps) = (tt, p, ps)
All-without P (x' ∷ xs) x ys (p, ps) =
    let (before, b, behind) = All-without P xs x ys ps in ((p, before), b, behind)

apart_less :
    (ks : List Key) (k : Key) (ks' : List Key) → AreApart (ks ++ (k ∷ ks')) → AreApart (ks ++ ks')
apart_less [] k ks' (n, v) = v
apart_less (k' ∷ ks) k ks' (n, v) =
    let (before, b, behind) = All-without (λ k''. k' ≢ k'') ks k ks' n in
    (All-append (λ k''. k' ≢ k'') ks ks' before behind, apart_less ks k ks' v)

-- The groups before and behind a place, and the group in it.
record IsPlace (skbuf : FrameBuf) (p : Place) : Type 0 where
  each_before : All IsGroup p.before
  each_behind : All IsGroup p.behind
  members_there : All (IsMember p.ctx) p.ctx.first
  own : frame_key skbuf ≡ key p.ctx
  all_apart : AreApart (map key p.before ++ (key p.ctx ∷ map key p.behind))

added-IsPlace :
    (skbuf : FrameBuf) (groups : List FragGroup)
    → IsSound groups
    → All (λ k. k ≢ frame_key skbuf) (map key groups)
    → IsPlace skbuf (record { before = groups; ctx = new_group skbuf; behind = [] })
unfolding new_group
added-IsPlace skbuf groups v ks = record {
  each_before = v.each;
  each_behind = tt;
  members_there = tt;
  own = refl;
  all_apart = apart_more (map key groups) (frame_key skbuf) v.apart ks;
}

find_group-IsPlace :
    (skbuf : FrameBuf) (groups : List FragGroup)
    → IsSound groups
    → IsPlace skbuf (find_group skbuf groups)
unfolding IsFound IsAdded
find_group-IsPlace skbuf groups v = elim (find_group-cases skbuf groups) [
  | inl (e, k) ↦
      (let p = find_group skbuf groups in
        let (before, b, behind) =
          All-without IsGroup p.before p.ctx p.behind (subst (All IsGroup) e v.each) in
        record {
          each_before = before;
          each_behind = behind;
          members_there = b.members;
          own = k;
          all_apart =
              subst AreApart (ap (map key) e ∙ map-append key p.before (p.ctx ∷ p.behind)) v.apart;
        })
  | inr (e, ks) ↦ subst (IsPlace skbuf) (sym e) (added-IsPlace skbuf groups v ks)
]

-- All frames are of the packet of the fragment that came last, and there is one.
abbrev pub IsFrom : FrameBuf → Option (List FrameBuf) → Type 0
IsFrom skbuf none = Unit
IsFrom skbuf (some packet) = All (λ f. frame_key f ≡ frame_key skbuf) packet × (packet ≢ [])

adjusted :
    (k : Key) (rest : List FrameBuf)
    → All (λ f. frame_key f ≡ k) rest
    → All (λ f. frame_key f ≡ k) (map adjust_subsequent rest)
unfolding adjust_subsequent
adjusted k [] hs = tt
adjusted k (f ∷ rest) (h, hs) = (h, adjusted k rest hs)

complete-IsFrom :
    (skbuf : FrameBuf) (chain packet : List FrameBuf)
    → All (λ f. frame_key f ≡ frame_key skbuf) chain
    → complete chain ≡ some packet
    → IsFrom skbuf (some packet)
unfolding complete adjust_first
complete-IsFrom skbuf [] packet hs e = absurd (none-ne-some packet e)
complete-IsFrom skbuf (f ∷ rest) packet (h, hs) e =
    let whole : List FrameBuf =
      adjust_first (payload_len (last_of f rest)) f ∷ map adjust_subsequent rest in
    let pick : Bool → Option (List FrameBuf) = λ b. if b then some whole else none in
    elim (Bool-cases (contiguous (some 0) (f ∷ rest) && is_last (last_of f rest))) [
      | inl t ↦
          subst (λ packet. IsFrom skbuf (some packet))
            (some-injective whole packet (sym (ap pick t) ∙ e))
            ((h, adjusted (frame_key skbuf) rest hs), λ n. cc)
      | inr n ↦ absurd (none-ne-some packet (sym (ap pick n) ∙ e))
    ]

-- The list with the group that is not complete, and without the one that is.
kept-IsSound :
    (skbuf : FrameBuf) (p : Place) (g : FragGroup)
    → IsPlace skbuf p
    → key g ≡ key p.ctx
    → IsGroup g
    → IsSound (p.before ++ (g ∷ p.behind))
kept-IsSound skbuf p g v e h = record {
  each = All-append IsGroup p.before (g ∷ p.behind) v.each_before (h, v.each_behind);
  apart =
      subst AreApart
        (ap (λ k. map key p.before ++ (k ∷ map key p.behind)) (sym e)
          ∙ sym (map-append key p.before (g ∷ p.behind)))
        v.all_apart;
}

removed-IsSound : (skbuf : FrameBuf) (p : Place) → IsPlace skbuf p → IsSound (p.before ++ p.behind)
removed-IsSound skbuf p v = record {
  each = All-append IsGroup p.before p.behind v.each_before v.each_behind;
  apart =
      subst AreApart (sym (map-append key p.before p.behind))
        (apart_less (map key p.before) (key p.ctx) (map key p.behind) v.all_apart);
}

conclude-IsSound :
    (skbuf : FrameBuf) (p : Place) (chain : List FrameBuf)
    → IsPlace skbuf p
    → All (IsMember p.ctx) chain
    → chain ≢ []
    → IsSound (conclude p chain).groups × IsFrom skbuf (conclude p chain).packet
unfolding conclude
conclude-IsSound skbuf p chain v ms ne = elim (Option-cases (complete chain)) [
  | inl n ↦
      (let ctx = p.ctx in
        let g : FragGroup = record ctx { first = chain } in
        rw (conclude, n)
          (kept-IsSound skbuf p g v refl (record { members = ms; begun = ne; incomplete = n }), tt))
  | inr (packet, e) ↦
      rw (conclude, e)
        (
          removed-IsSound skbuf p v,
          complete-IsFrom skbuf chain packet
              (All-map (IsMember p.ctx) (λ f. frame_key f ≡ frame_key skbuf)
                (λ f m. m.0 ∙ sym v.own) chain ms)
              e,
        )
]

-- A fragment with its header, at a list of groups as it should be: either the insertion faults, or the list is as
-- it should be afterwards, and a packet that comes out is of this fragment's frames alone.
pub defrag-cases :
    (groups : List FragGroup) (skbuf : FrameBuf)
    → IsSound groups
    → skbuf.has_network_hdr ≡ true
    → ((insert_frag skbuf (find_group skbuf groups).ctx.first ≡ none)
        × (defrag groups skbuf ≡ none))
      ⊎ ((d : Defragged) × (defrag groups skbuf ≡ some d)
          × IsSound d.groups
          × IsFrom skbuf d.packet)
unfolding defrag
defrag-cases groups skbuf v h =
    let p = find_group skbuf groups in
    let place = find_group-IsPlace skbuf groups v in
    elim (insert_frag-cases skbuf p.ctx.first) [
      | inl n ↦ inl (n, rw (defrag, n) refl)
      | inr (chain, e, every, ne) ↦
          (let (sound, here) =
              conclude-IsSound skbuf p chain place
                (every (IsMember p.ctx) (place.own, h) place.members_there) ne in
            inr (conclude p chain, rw (defrag, e) refl, sound, here))
    ]
