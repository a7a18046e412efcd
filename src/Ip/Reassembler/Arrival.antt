-- ===== src/Ip/Reassembler/Arrival.antt =====
-- src/veloxd/ip/reassembly/Reassembler.cpp, `Reassembler::defrag`, over a run of fragments.
use velox_project.Prelude.{
  ◌≡◌, refl, ap, sym, subst, ◌∙◌, true, false, Option, none, some, List, [], ◌∷◌, ◌++◌, All,
  ==_self,
}
use mathlib.Core.List.{append_assoc, append-nil}
use velox_project.Ip.Reassembler.{
  FrameBuf, FragGroup, Place, is_for, new_group, find_group, is_last, last_of, complete, Defragged,
  conclude, insert_frag, defrag,
}
use velox_project.Ip.Reassembler.Insert.{IsBehind, insert_frag-IsBehind}
use velox_project.Ip.Reassembler.Complete.{complete-none}

-- The groups and the packets, in order, after a run of fragments.
pub defrag_all : List FragGroup → List FrameBuf → Option (List FragGroup × List (List FrameBuf))
unfolding defrag
defrag_all groups [] = some (groups, [])
defrag_all groups (f ∷ fs) = elim (defrag groups f) [
  | none ↦ none
  | some d ↦ elim (defrag_all d.groups fs) [
    | none ↦ none
    | some r ↦ some (r.0, elim d.packet [ none ↦ r.1 | some packet ↦ packet ∷ r.1 ])
  ]
]

-- The group of a packet, with the fragments that have arrived.
pub group_with : FragGroup → List FrameBuf → FragGroup
group_with g chain = record g { first = chain }

unfoldable pub groups_with : List FragGroup → FragGroup → List FrameBuf → List FragGroup
unfolding group_with
groups_with groups g [] = groups
groups_with groups g (f ∷ rest) = groups ++ (group_with g (f ∷ rest) ∷ [])

-- The groups are all for other packets.
abbrev pub IsNew : FrameBuf → List FragGroup → Type 0
IsNew f = All λ c. is_for f c ≡ false

-- A run of fragments of one packet, behind those that have arrived: each is behind the ones before it by both readings of
-- its offset, and the MF bit is clear in the last alone.
abbrev pub InPlace : FragGroup → List FrameBuf → List FrameBuf → Type 0
InPlace g chain [] = Unit
InPlace g chain (f ∷ []) = (new_group f ≡ g) × IsBehind f chain
InPlace g chain (f ∷ f' ∷ rest) =
    (new_group f ≡ g)
    × IsBehind f chain
    × (is_last f ≡ false)
    × InPlace g (chain ++ (f ∷ [])) (f' ∷ rest)

find_group_new :
    (f : FrameBuf) (groups : List FragGroup)
    → IsNew f groups
    → find_group f groups ≡ record { before = groups; ctx = new_group f; behind = [] }
unfolding find_group
find_group_new f [] h = refl
find_group_new f (c ∷ cs) h =
    rw h.0 (ap (λ (p : Place). record p { before = c ∷ p.before }) (find_group_new f cs h.1))

find_group_last :
    (f : FrameBuf) (groups : List FragGroup) (c : FragGroup)
    → IsNew f groups
    → is_for f c ≡ true
    → find_group f (groups ++ (c ∷ [])) ≡ record { before = groups; ctx = c; behind = [] }
unfolding find_group
find_group_last f [] c h e = rw e refl
find_group_last f (c' ∷ cs) c h e =
    rw h.0 (ap (λ (p : Place). record p { before = c' ∷ p.before }) (find_group_last f cs c h.1 e))

is_for_own :
    (f : FrameBuf) (chain : List FrameBuf) → is_for f (group_with (new_group f) chain) ≡ true
unfolding is_for group_with new_group
is_for_own f chain =
    rw (==_self f.hdr.id, ==_self f.hdr.protocol, ==_self f.hdr.saddr, ==_self f.hdr.daddr) refl

-- Where the search of a fragment of the packet ends.
find_group_with :
    (f : FrameBuf) (groups : List FragGroup) (chain : List FrameBuf)
    → IsNew f groups
    → find_group f (groups_with groups (new_group f) chain)
      ≡ record { before = groups; ctx = group_with (new_group f) chain; behind = [] }
unfolding groups_with group_with new_group
find_group_with f groups [] h = find_group_new f groups h
find_group_with f groups (c ∷ chain) h = find_group_last f groups _ h (is_for_own f (c ∷ chain))

defrag_at :
    (f : FrameBuf) (gs : List FragGroup) (p : Place) (chain : List FrameBuf)
    → find_group f gs ≡ p
    → insert_frag f p.ctx.first ≡ some chain
    → defrag gs f ≡ some (conclude p chain)
unfolding defrag
defrag_at f gs p chain e i =
    subst
      (λ (q : Place).
        elim (insert_frag f q.ctx.first) as (λ r. Option Defragged) [
          | none ↦ none
          | some c ↦ some (conclude q c)
        ]
        ≡ some (conclude p chain))
      (sym e) (rw i refl)

-- A fragment behind the others of its packet goes to the end of their chain.
defrag_behind :
    (f : FrameBuf) (groups : List FragGroup) (chain : List FrameBuf)
    → IsNew f groups
    → IsBehind f chain
    → defrag (groups_with groups (new_group f) chain) f
      ≡ some (
          conclude
            (record { before = groups; ctx = group_with (new_group f) chain; behind = [] })
            (chain ++ (f ∷ [])))
unfolding group_with
defrag_behind f groups chain h b =
    defrag_at f _ _ _ (find_group_with f groups chain h) (insert_frag-IsBehind f chain b)

-- A complete group leaves the list.
conclude-some :
    (p : Place) (chain packet : List FrameBuf)
    → complete chain ≡ some packet
    → conclude p chain ≡ record { groups = p.before ++ p.behind; packet = some packet }
unfolding conclude
conclude-some p chain packet e = rw (e, conclude) refl

conclude-none :
    (p : Place) (chain : List FrameBuf)
    → complete chain ≡ none
    → conclude p chain
      ≡ record { groups = p.before ++ (group_with p.ctx chain ∷ p.behind); packet = none }
unfolding conclude group_with
conclude-none p chain e = rw (e, conclude) refl

last_of-append :
    (f : FrameBuf) (rest : List FrameBuf) (g : FrameBuf) → last_of f (rest ++ (g ∷ [])) ≡ g
unfolding last_of
last_of-append f [] g = refl
last_of-append f (f' ∷ rest) g = last_of-append f' rest g

-- With the MF bit set in the last frame nothing is complete.
complete_more :
    (chain : List FrameBuf) (f : FrameBuf) → is_last f ≡ false → complete (chain ++ (f ∷ [])) ≡ none
unfolding last_of
complete_more [] f e = complete-none f [] e
complete_more (c ∷ chain) f e =
    complete-none c (chain ++ (f ∷ [])) (ap is_last (last_of-append c chain f) ∙ e)

groups_with-append :
    (groups : List FragGroup) (g : FragGroup) (chain : List FrameBuf) (f : FrameBuf)
    → groups ++ (group_with (group_with g chain) (chain ++ (f ∷ [])) ∷ [])
      ≡ groups_with groups g (chain ++ (f ∷ []))
unfolding groups_with group_with
groups_with-append groups g [] f = refl
groups_with-append groups g (c ∷ chain) f = refl

pub defrag_last :
    (f : FrameBuf) (groups : List FragGroup) (chain packet : List FrameBuf)
    → IsNew f groups
    → IsBehind f chain
    → complete (chain ++ (f ∷ [])) ≡ some packet
    → defrag (groups_with groups (new_group f) chain) f
      ≡ some (record { groups = groups; packet = some packet })
defrag_last f groups chain packet h b e =
    defrag_behind f groups chain h b
    ∙ ap some (
        conclude-some _ _ packet e
        ∙ ap (λ gs. record { groups = gs; packet = some packet }) (append-nil groups))

pub defrag_more :
    (f : FrameBuf) (groups : List FragGroup) (chain : List FrameBuf)
    → IsNew f groups
    → IsBehind f chain
    → is_last f ≡ false
    → defrag (groups_with groups (new_group f) chain) f
      ≡ some
          (record { groups = groups_with groups (new_group f) (chain ++ (f ∷ [])); packet = none })
defrag_more f groups chain h b l =
    defrag_behind f groups chain h b
    ∙ ap some (
        conclude-none _ _ (complete_more chain f l)
        ∙ ap (λ gs. record { groups = gs; packet = none })
            (groups_with-append groups (new_group f) chain f))

-- The fragments of a packet that are still to come, in order, behind the chain of those that have
-- arrived, which may be empty: nothing comes out before the last one, with which the whole packet
-- does, and then the groups are those of the other packets, unchanged. No other group is for this
-- packet, and the chain of all its fragments is complete.
pub defrag_all-InPlace :
    (g : FragGroup) (groups : List FragGroup) (chain : List FrameBuf) (f : FrameBuf)
    (fs packet : List FrameBuf)
    → All (λ f'. IsNew f' groups) (f ∷ fs)
    → InPlace g chain (f ∷ fs)
    → complete (chain ++ (f ∷ fs)) ≡ some packet
    → defrag_all (groups_with groups g chain) (f ∷ fs) ≡ some (groups, packet ∷ [])
unfolding defrag_all
defrag_all-InPlace g groups chain f [] packet h o e =
    rw
      (
        subst
            (λ k.
              defrag (groups_with groups k chain) f
              ≡ some (record { groups = groups; packet = some packet }))
            o.0 (defrag_last f groups chain packet h.0 o.1 e),
        defrag_all,
      )
      refl
defrag_all-InPlace g groups chain f (f' ∷ fs) packet h o e =
    let one =
      subst
        (λ k.
          defrag (groups_with groups k chain) f
          ≡ some (record { groups = groups_with groups k (chain ++ (f ∷ [])); packet = none }))
        o.0 (defrag_more f groups chain h.0 o.1 o.2) in
    let others =
      defrag_all-InPlace g groups (chain ++ (f ∷ [])) f' fs packet h.1 o.3
        (ap complete (append_assoc chain (f ∷ []) (f' ∷ fs)) ∙ e) in
    rw (one, defrag_all) (rw others refl)
