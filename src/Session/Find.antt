-- ===== src/Session/Find.antt =====
-- src/veloxd/Session.h, `Sessions::find`: the search returns the most specific live session that
-- matches the packet.
use velox_project.Prelude.{
  ℕ, ◌+◌, ◌≤◌, ◌<◌, ◌≡◌, refl, ◌⊎◌, inl, inr, Option, none, some, List, [], ◌∷◌, ◌++◌, arith, All,
  All-map, ◌==◌, if◌then◌else◌, ap, ◌∙◌, subst, Option-cases,
}
use velox_project.Session.{Session, Flow, score, candidate, Best, consider, find_loop, find}

-- A field of a session takes any value where it is 0.
abbrev pub FieldMatches : ℕ → ℕ → Type 0
FieldMatches ours theirs = (ours ≡ 0) ⊎ (ours ≡ theirs)

abbrev pub Matches : Flow → Session → Type 0
Matches f s =
    (s.lport ≡ f.lport)
    × FieldMatches s.fport f.fport
    × FieldMatches s.faddr f.faddr
    × FieldMatches s.laddr f.laddr

abbrev one_unless_wild : ℕ → ℕ
one_unless_wild n = if n == 0 then 0 else 1

-- How many of the fields are pinned down, the local port included.
abbrev pub specificity : Session → ℕ
specificity s = 1 + one_unless_wild s.fport + one_unless_wild s.faddr + one_unless_wild s.laddr

score_cases :
    (f : Flow) (s : Session)
    → (Matches f s × (score f.faddr f.fport f.laddr f.lport s ≡ some (specificity s)))
      ⊎ ((¬ Matches f s) × (score f.faddr f.fport f.laddr f.lport s ≡ none))
unfolding score
score_cases f s = ground arith

module _ (lock : ℕ → Option Session) (f : Flow) where
  -- The score of a list entry, 0 if it does not match.
  abbrev rank : ℕ → ℕ
  rank i = elim (candidate lock f i) [ none ↦ 0 | some n ↦ n ]

  abbrev best_rank : Best → ℕ
  best_rank none = 0
  best_rank (some (i, n)) = n

  data Outcome (best : Best) (pcbs : List ℕ) (result : Best) : Type 0 where
    kept : result ≡ best → All (λ j. rank j ≤ best_rank best) pcbs → Outcome best pcbs result
    found :
        (i : ℕ) (pre post : List ℕ)
        → pcbs ≡ pre ++ (i ∷ post)
        → result ≡ some (i, rank i)
        → best_rank best < rank i
        → All (λ j. rank j < rank i) pre
        → All (λ j. rank j ≤ rank i) post
        → Outcome best pcbs result

  -- An entry that scores scores at least one.
  rank_pos : (i n : ℕ) → candidate lock f i ≡ some n → 0 < n
  unfolding candidate
  rank_pos i n h = elim (Option-cases (lock i)) [
    | inl e ↦ ground arith
    | inr (s, e) ↦ ground (arith, score_cases f s)
  ]

  -- One round keeps the entry only if it beats the best so far.
  consider_cases :
      (best : Best) (x : ℕ)
      → ((consider best x (candidate lock f x) ≡ best) × (rank x ≤ best_rank best))
        ⊎ ((consider best x (candidate lock f x) ≡ some (x, rank x)) × (best_rank best < rank x))
  unfolding consider
  consider_cases none x = ground (arith, rank_pos x (rank x))
  consider_cases (some (i, n)) x = ground arith

  lower : (m n : ℕ) (xs : List ℕ) → All (λ j. rank j ≤ m) xs → m ≤ n → All (λ j. rank j ≤ n) xs
  lower m n [] h le = tt
  lower m n (x ∷ xs) h le = (omega arith, lower m n xs h.1 le)

  extend_kept :
      (best best' : Best) (x : ℕ) (xs : List ℕ) (result : Best)
      → best' ≡ best
      → rank x ≤ best_rank best
      → Outcome best' xs result
      → Outcome best (x ∷ xs) result
  extend_kept best best' x xs result e le (kept r h) =
      kept (r ∙ e) (le, subst (λ b. All (λ j. rank j ≤ best_rank b) xs) e h)
  extend_kept best best' x xs result e le (found i pre post split r lt h g) =
      let above : best_rank best < rank i = rw (← e) lt in
      found i (x ∷ pre) post (ap (◌∷◌ x) split) r above (omega arith, h) g

  extend_taken :
      (best best' : Best) (x : ℕ) (xs : List ℕ) (result : Best)
      → best' ≡ some (x, rank x)
      → best_rank best < rank x
      → Outcome best' xs result
      → Outcome best (x ∷ xs) result
  extend_taken best best' x xs result e lt (kept r h) =
      found x [] xs refl (r ∙ e) lt tt (subst (λ b. All (λ j. rank j ≤ best_rank b) xs) e h)
  extend_taken best best' x xs result e lt (found i pre post split r above h g) =
      let higher : rank x < rank i = subst (λ b. best_rank b < rank i) e above in
      found i (x ∷ pre) post (ap (◌∷◌ x) split) r (omega arith) (higher, h) g

  find_loop-Outcome : (best : Best) (pcbs : List ℕ) → Outcome best pcbs (find_loop lock f best pcbs)
  unfolding find_loop
  find_loop-Outcome best [] = kept refl tt
  find_loop-Outcome best (x ∷ xs) =
      let best' = consider best x (candidate lock f x) in
      let rest = find_loop-Outcome best' xs in
      let result = find_loop lock f best' xs in
      elim (consider_cases best x) [
        | inl (e, le) ↦ extend_kept best best' x xs result e le rest
        | inr (e, lt) ↦ extend_taken best best' x xs result e lt rest
      ]

  -- A list entry is a live session that matches, and what it scores is bounded as said.
  abbrev pub AllMatches : (ℕ → Type 0) → List ℕ → Type 0
  AllMatches P = All λ j. (t : Session) → lock j ≡ some t → Matches f t → P (specificity t)

  rank_of_match : (j : ℕ) (t : Session) → lock j ≡ some t → Matches f t → rank j ≡ specificity t
  unfolding candidate
  rank_of_match j t e m = elim (score_cases f t) [
    | inl (_, r) ↦ ground arith
    | inr (no_match, _) ↦ absurd (no_match m)
  ]

  match_of_rank :
      (i : ℕ)
      → 0 < rank i
      → (s : Session) × (lock i ≡ some s) × Matches f s × (rank i ≡ specificity s)
  unfolding candidate
  match_of_rank i h = elim (Option-cases (lock i)) [
    | inl e ↦ absurd (ground arith)
    | inr (s, e) ↦ elim (score_cases f s) [
      | inl (m, r) ↦ (s, e, m, ground arith)
      | inr (_, r) ↦ absurd (ground arith)
    ]
  ]

  -- `i` is a live session that matches the packet, no entry before it is as specific and none
  -- behind it is more specific.
  pub record IsBestMatch (pcbs : List ℕ) (i : ℕ) : Type 0 where
    pub session : Session
    pub alive : lock i ≡ some session
    pub matching : Matches f session
    pub pre : List ℕ
    pub post : List ℕ
    pub split : pcbs ≡ pre ++ (i ∷ post)
    pub earlier : AllMatches (λ n. n < specificity session) pre
    pub later : AllMatches (λ n. n ≤ specificity session) post

  best_of_found :
      (pcbs pre post : List ℕ) (i : ℕ)
      → pcbs ≡ pre ++ (i ∷ post)
      → 0 < rank i
      → All (λ j. rank j < rank i) pre
      → All (λ j. rank j ≤ rank i) post
      → IsBestMatch pcbs i
  best_of_found pcbs pre post i split pos h g =
      let (s, e, m, r) = match_of_rank i pos in
      record {
        session = s;
        alive = e;
        matching = m;
        pre = pre;
        post = post;
        split = split;
        earlier =
            All-map (λ j. rank j < rank i) _
              (λ j lt t live mt. omega (arith, rank_of_match j t live mt)) pre h;
        later =
            All-map (λ j. rank j ≤ rank i) _
              (λ j le t live mt. omega (arith, rank_of_match j t live mt)) post g;
      }

  -- The search returns the most specific live session that matches the packet, the first of these
  -- in the list, and returns the null pointer exactly when no live session matches.
  pub find-IsBestMatch :
      (pcbs : List ℕ)
      → ((find lock f pcbs ≡ none) × AllMatches (λ n. ⊥) pcbs)
        ⊎ ((i : ℕ) × (find lock f pcbs ≡ some i) × IsBestMatch pcbs i)
  unfolding find
  find-IsBestMatch pcbs = elim (find_loop-Outcome none pcbs) [
    | kept r h ↦ inl (
      rw (r, find),
      All-map (λ j. rank j ≤ 0) _
          (λ j le t live mt. absurd (omega (arith, rank_of_match j t live mt))) pcbs h,
    )
    | found i pre post split r lt h g ↦
        inr (i, rw (r, find), best_of_found pcbs pre post i split lt h g)
  ]
