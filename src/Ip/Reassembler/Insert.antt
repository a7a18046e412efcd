-- ===== src/Ip/Reassembler/Insert.antt =====
-- src/veloxd/ip/reassembly/Reassembler.cpp, `Reassembler::defrag`, steps 1 to 3: the group that a
-- fragment goes to, and its place there.
use velox_project.Prelude.{
  ℕ, ◌≤◌, ◌<◌, ◌≡◌, ◌↔◌, inl, inr, refl, subst, sym, none, some, List, [], ◌∷◌, ◌++◌, arith, All,
  ltb, Bool-cases,
}
use mathlib.Core.Option.{some-injective}
use mathlib.Core.List.{Perm}
use mathlib.Core.List.Perm
use velox_project.Ip.Reassembler.{FrameBuf, frag_offset, ours_off, insert_behind, insert_frag}

faults :
    (skbuf f : FrameBuf) (rest : List FrameBuf)
    → frag_offset f ≤ frag_offset skbuf
    → ours_off skbuf ≤ frag_offset f
    → insert_frag skbuf (f ∷ rest) ≡ none
unfolding insert_frag
faults skbuf f rest le ge = ground arith

-- The insertion faults exactly when the group has a first fragment that does not start behind the
-- new one, while the new one's offset, read without the change of byte order, is not behind it.
pub insert_frag-none_iff :
    (skbuf : FrameBuf) (chain : List FrameBuf)
    → (insert_frag skbuf chain ≡ none) ↔ (
        (f : FrameBuf) × (rest : List FrameBuf) × (chain ≡ f ∷ rest)
        × (frag_offset f ≤ frag_offset skbuf)
        × (ours_off skbuf ≤ frag_offset f))
unfolding insert_frag
insert_frag-none_iff skbuf [] = ((λ e. cc), (λ w. cc (w.2)))
insert_frag-none_iff skbuf (f ∷ rest) = (
  (λ e. (f, rest, refl, ground arith, ground arith)),
  (λ (f', rest', e, le, ge).
      subst (λ c. insert_frag skbuf c ≡ none) (sym e) (faults skbuf f' rest' le ge)),
)

insert_behind-perm :
    (ours : ℕ) (skbuf : FrameBuf) (chain : List FrameBuf)
    → Perm (insert_behind ours skbuf chain) (skbuf ∷ chain)
unfolding insert_behind
insert_behind-perm ours skbuf [] = Perm.refl _
insert_behind-perm ours skbuf (c ∷ rest) = elim (Bool-cases (ltb (frag_offset c) ours)) [
  | inl t ↦
      rw t (Perm.trans (Perm.cons c (insert_behind-perm ours skbuf rest)) (Perm.swap skbuf c rest))
  | inr f ↦ rw f (Perm.refl _)
]

perm_of_some :
    {xs chain chain' : List FrameBuf} → Perm chain xs → some chain ≡ some chain' → Perm chain' xs
perm_of_some {xs} {chain} {chain'} h e = subst (λ c. Perm c xs) (some-injective chain chain' e) h

-- An insertion that does not fault adds the fragment and loses none.
pub insert_frag-perm :
    (skbuf : FrameBuf) (chain chain' : List FrameBuf)
    → insert_frag skbuf chain ≡ some chain'
    → Perm chain' (skbuf ∷ chain)
unfolding insert_frag
insert_frag-perm skbuf [] chain' e =
    subst (λ c. Perm c (skbuf ∷ [])) (some-injective (skbuf ∷ []) chain' e) (Perm.refl _)
insert_frag-perm skbuf (f ∷ rest) chain' e =
    elim (Bool-cases (ltb (frag_offset skbuf) (frag_offset f))) [
      | inl t ↦ perm_of_some (Perm.refl _) (rw (t, insert_frag) at e)
      | inr n ↦ elim (Bool-cases (ltb (frag_offset f) (ours_off skbuf))) [
        | inl t ↦
            perm_of_some
              (Perm.trans (Perm.cons f (insert_behind-perm _ skbuf rest)) (Perm.swap skbuf f rest))
              (rw (n, t, insert_frag) at e)
        | inr n' ↦ cc (rw (n, n', insert_frag) at e)
      ]
    ]

-- A fragment that is behind the whole group by both readings of its offset.
abbrev pub IsBehind : FrameBuf → List FrameBuf → Type 0
IsBehind skbuf = All λ f. (frag_offset f ≤ frag_offset skbuf) × (frag_offset f < ours_off skbuf)

insert_behind_all :
    (skbuf : FrameBuf) (chain : List FrameBuf)
    → IsBehind skbuf chain
    → insert_behind (ours_off skbuf) skbuf chain ≡ chain ++ (skbuf ∷ [])
unfolding insert_behind
insert_behind_all skbuf [] h = refl
insert_behind_all skbuf (c ∷ rest) h = ground (arith, insert_behind_all skbuf rest)

-- Such a fragment goes to the end.
pub insert_frag-IsBehind :
    (skbuf : FrameBuf) (chain : List FrameBuf)
    → IsBehind skbuf chain
    → insert_frag skbuf chain ≡ some (chain ++ (skbuf ∷ []))
unfolding insert_frag
insert_frag-IsBehind skbuf [] h = refl
insert_frag-IsBehind skbuf (f ∷ rest) h = ground (arith, insert_behind_all skbuf rest)
