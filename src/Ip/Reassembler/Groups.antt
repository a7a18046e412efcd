-- ===== src/Ip/Reassembler/Groups.antt =====
-- src/veloxd/ip/reassembly/Reassembler.cpp, `Reassembler::defrag`: what a list of groups has to be, and the steps of the search and of the insertion.
use velox_project.Prelude.{
  ℕ, ◌≡◌, ◌≢◌, ◌⊎◌, inl, inr, refl, ap, sym, ◌∙◌, Bool, true, false, ◌&&◌, none, some, List, [],
  ◌∷◌, ◌++◌, map, All, ltb, ◌==◌, Bool-cases, ==_iff, ==_self,
}
use mathlib.Core.Bool.{true≢false}
use velox_project.Ip.Reassembler.{
  FrameBuf, FragGroup, Place, frag_offset, ours_off, is_for, new_group, find_group, insert_behind,
  insert_frag, complete,
}

-- The fields that tell the packet of a fragment.
abbrev pub Key : Type 0
Key = ℕ × ℕ × ℕ × ℕ

abbrev pub frame_key : FrameBuf → Key
frame_key f = (f.hdr.id, f.hdr.protocol, f.hdr.saddr, f.hdr.daddr)

abbrev pub key : FragGroup → Key
key g = (g.ip_id, g.ip_protocol, g.ip_saddr, g.ip_daddr)

&&-parts : (a b : Bool) → (a && b) ≡ true → (a ≡ true) × (b ≡ true)
&&-parts true b e = (refl, e)
&&-parts false b e = absurd (true≢false (sym e))

pub is_for-key : (f : FrameBuf) (g : FragGroup) → is_for f g ≡ true → frame_key f ≡ key g
unfolding is_for
is_for-key f g e =
    let (a, e') = &&-parts _ _ e in
    let (b, e'') = &&-parts _ _ e' in
    let (c, d) = &&-parts _ _ e'' in
    let same : (x y : ℕ) → (x == y) ≡ true → y ≡ x = λ x y t. sym ((==_iff x y).0 t) in
    rw
      (
        same g.ip_id f.hdr.id a,
        same g.ip_protocol f.hdr.protocol b,
        same g.ip_saddr f.hdr.saddr c,
        same g.ip_daddr f.hdr.daddr d,
      )
      refl

key-is_for : (f : FrameBuf) (g : FragGroup) → frame_key f ≡ key g → is_for f g ≡ true
unfolding is_for
key-is_for f g e =
    let test : Key → Bool = λ k.
      (k.0 == f.hdr.id)
      && ((k.1 == f.hdr.protocol) && ((k.2 == f.hdr.saddr) && (k.3 == f.hdr.daddr))) in
    ap test (sym e)
    ∙ rw (==_self f.hdr.id, ==_self f.hdr.protocol, ==_self f.hdr.saddr, ==_self f.hdr.daddr) refl

-- The fragments of a group belong to its packet and still have their headers; there is one; and the packet is not
-- complete.
abbrev pub IsMember : FragGroup → FrameBuf → Type 0
IsMember g f = (frame_key f ≡ key g) × (f.has_network_hdr ≡ true)

pub record IsGroup (g : FragGroup) : Type 0 where
  pub members : All (IsMember g) g.first
  pub begun : g.first ≢ []
  pub incomplete : complete g.first ≡ none

abbrev pub AreApart : List Key → Type 0
AreApart [] = Unit
AreApart (k ∷ ks) = All (λ k'. k ≢ k') ks × AreApart ks

-- Each group is as it should be, and no two are for the same packet.
pub record IsSound (groups : List FragGroup) : Type 0 where
  pub each : All IsGroup groups
  pub apart : AreApart (map key groups)

pub insert_behind-All :
    (P : FrameBuf → Type 0) (ours : ℕ) (skbuf : FrameBuf) (chain : List FrameBuf)
    → P skbuf
    → All P chain
    → All P (insert_behind ours skbuf chain)
unfolding insert_behind
insert_behind-All P ours skbuf [] p ps = (p, tt)
insert_behind-All P ours skbuf (c ∷ rest) p (q, ps) = elim (Bool-cases (ltb (frag_offset c) ours)) [
  | inl t ↦ rw t (q, insert_behind-All P ours skbuf rest p ps)
  | inr f ↦ rw f (p, (q, ps))
]

-- What an insertion comes to.
pub insert_frag-cases :
    (skbuf : FrameBuf) (chain : List FrameBuf)
    → (insert_frag skbuf chain ≡ none)
      ⊎ ((chain' : List FrameBuf) × (insert_frag skbuf chain ≡ some chain')
          × ((P : FrameBuf → Type 0) → P skbuf → All P chain → All P chain')
          × (chain' ≢ []))
unfolding insert_frag
insert_frag-cases skbuf [] = inr (skbuf ∷ [], refl, (λ P p ps. (p, tt)), λ e. cc)
insert_frag-cases skbuf (f ∷ rest) = elim (Bool-cases (ltb (frag_offset skbuf) (frag_offset f))) [
  | inl t ↦ inr (skbuf ∷ f ∷ rest, rw t refl, (λ P p ps. (p, ps)), λ e. cc)
  | inr n ↦ elim (Bool-cases (ltb (frag_offset f) (ours_off skbuf))) [
    | inl t ↦ inr (
      f ∷ insert_behind (ours_off skbuf) skbuf rest,
      rw (n, t) refl,
      (λ P p ps. (ps.0, insert_behind-All P (ours_off skbuf) skbuf rest p ps.1)),
      λ e. cc,
    )
    | inr n' ↦ inl (rw (n, n') refl)
  ]
]

-- Where the search ends.
unfoldable pub IsFound : FrameBuf → List FragGroup → Place → Type 0
IsFound skbuf groups p = (groups ≡ p.before ++ (p.ctx ∷ p.behind)) × (frame_key skbuf ≡ key p.ctx)

unfoldable pub IsAdded : FrameBuf → List FragGroup → Place → Type 0
IsAdded skbuf groups p =
    (p ≡ record { before = groups; ctx = new_group skbuf; behind = [] })
    × All (λ k. k ≢ frame_key skbuf) (map key groups)

pub find_group-cases :
    (skbuf : FrameBuf) (groups : List FragGroup)
    → IsFound skbuf groups (find_group skbuf groups)
      ⊎ IsAdded skbuf groups (find_group skbuf groups)
unfolding find_group IsFound IsAdded
find_group-cases skbuf [] = inr (refl, tt)
find_group-cases skbuf (c ∷ cs) = elim (Bool-cases (is_for skbuf c)) [
  | inl t ↦ rw t (inl (refl, is_for-key skbuf c t))
  | inr n ↦
      (let ne : key c ≢ frame_key skbuf = λ e. true≢false (sym (key-is_for skbuf c (sym e)) ∙ n) in
        elim (find_group-cases skbuf cs) [
          | inl (e, k) ↦ rw n (inl (ap (λ gs. c ∷ gs) e, k))
          | inr (e, ks) ↦
              rw n (inr (ap (λ (p : Place). record p { before = c ∷ p.before }) e, (ne, ks)))
        ])
]
