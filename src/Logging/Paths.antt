-- ===== src/Logging/Paths.antt =====
-- src/veloxd/Logging.cpp, `path_to_filename`: the part of a path behind its last separator.
use velox_project.Prelude.{
  ℕ, suc, ◌≡◌, ◌⊎◌, inl, inr, refl, sym, ap, ◌∙◌, true, false, none, some, List, [], ◌∷◌, ◌++◌,
  drop, All, Bool-cases, Option-cases,
}
use mathlib.Core.Option.{some-injective}
use velox_project.Logging.{is_separator, find_last_of, path_to_filename}

abbrev pub IsPlain : ℕ → Type 0
IsPlain c = is_separator c ≡ false

-- Without a separator all bytes are plain.
find_last_of-none : (path : List ℕ) → find_last_of path ≡ none → All IsPlain path
unfolding find_last_of
find_last_of-none [] e = tt
find_last_of-none (c ∷ path) e = elim (Option-cases (find_last_of path)) [
  | inl n ↦ (elim (Bool-cases (is_separator c)) [
    | inl t ↦ absurd cc
    | inr f ↦ (f, find_last_of-none path n)
  ])
  | inr (i, s) ↦ (let e' = rw (s, find_last_of) at e in absurd cc)
]

-- The bytes up to the last separator, and those behind it.
find_last_of-some :
    (path : List ℕ) (i : ℕ)
    → find_last_of path ≡ some i
    → (dir : List ℕ) × (c : ℕ) × (path ≡ (dir ++ (c ∷ [])) ++ drop (suc i) path)
      × (is_separator c ≡ true)
      × All IsPlain (drop (suc i) path)
unfolding find_last_of
find_last_of-some [] i e = absurd cc
find_last_of-some (c ∷ path) i e = elim (Option-cases (find_last_of path)) [
  | inl n ↦ (elim (Bool-cases (is_separator c)) [
    | inl t ↦
        (let first : 0 ≡ i = some-injective 0 i (sym (rw (n, t, find_last_of) refl) ∙ e) in
          rw (← first) ([], c, refl, t, find_last_of-none path n))
    | inr f ↦ (let missing : none ≡ some i = sym (rw (n, f, find_last_of) refl) ∙ e in absurd cc)
  ])
  | inr (j, s) ↦
      (let later : suc j ≡ i = some-injective (suc j) i (sym (rw (s, find_last_of) refl) ∙ e) in
        let (dir, d, split, separates, plain) = find_last_of-some path j s in
        rw (← later) (c ∷ dir, d, ap (λ l. c ∷ l) split, separates, plain))
]

-- The file name has no separator, and it is what is left of the path when a part that ends with a separator is taken
-- away, or the whole path.
pub path_to_filename_lem :
    (path : List ℕ)
    → All IsPlain (path_to_filename path)
      × ((path_to_filename path ≡ path)
          ⊎ ((dir : List ℕ) × (c : ℕ) × (is_separator c ≡ true)
              × (path ≡ (dir ++ (c ∷ [])) ++ path_to_filename path)))
unfolding path_to_filename
path_to_filename_lem path = elim (Option-cases (find_last_of path)) [
  | inl n ↦ rw n (find_last_of-none path n, inl refl)
  | inr (i, s) ↦
      (let (dir, c, split, separates, plain) = find_last_of-some path i s in
        rw s (plain, inr (dir, c, separates, split)))
]
