-- ===== src/Interceptor/Selecting/Loops.antt =====
-- src/interceptor/interceptor.c, `select`: what its loops over the descriptors leave in each set, and what they count.
use velox_project.Prelude.{
  ℕ, suc, zero, ◌+◌, ◌≤◌, ◌<◌, ◌≡◌, inl, inr, refl, ap, sym, ◌∙◌, Bool, true, false, not, ◌&&◌,
  ◌||◌, Option, none, some, ltb, leb, ◌==◌, if◌then◌else◌, arith, Bool-cases, Option-cases, ==_self,
}
use velox_project.Interceptor.{FdPool, is_assigned_by_velox}
use velox_project.Interceptor.Selecting.{
  Which, readfds, writefds, exceptfds, FdSet, FdSets, Given, fd_zero, saved, in_any, keep, put,
  asked, scan_fd, scan, mark_fd, mark_all, give_back_sets,
}

-- How many of the first `n` numbers pass a test.
abbrev pub count_below : (ℕ → Bool) → ℕ → ℕ
count_below q zero = 0
count_below q (suc n) = if q n then count_below q n + 1 else count_below q n

-- One set after `n` rounds that keep what passes a test.
abbrev pub fill : (ℕ → Bool) → FdSet → ℕ → FdSet → FdSet
fill q from zero to = to
fill q from (suc n) to = if q n then keep n from (fill q from n to) else fill q from n to

keep_at : (n : ℕ) (from to : FdSet) (i : ℕ) → keep n from to i ≡ (to i || ((i == n) && from n))
unfolding keep
keep_at n from to i = elim (Bool-cases (from n)) [
  | inl t ↦ rw t (bool_or (i == n) (to i))
  | inr f ↦ rw f (or_none (to i) (i == n))
]
  where
    bool_or : (a b : Bool) → (a || b) ≡ (b || (a && true))
    bool_or true true = refl
    bool_or true false = refl
    bool_or false true = refl
    bool_or false false = refl

    or_none : (a b : Bool) → a ≡ (a || (b && false))
    or_none true b = refl
    or_none false true = refl
    or_none false false = refl

or_false : (b : Bool) → (b || false) ≡ b
or_false true = refl
or_false false = refl

fill_step :
    (q : ℕ → Bool) (from : FdSet) (n i : ℕ) (b : Bool)
    → ((b || (ltb i n && (q i && from i))) || ((i == n) && (q n && from n)))
      ≡ (b || (ltb i (suc n) && (q i && from i)))
fill_step q from n i b = elim (Bool-cases (i == n)) [
  | inl t ↦
      (let same : i ≡ n = ground arith in
        let out : ltb n n ≡ false = ground arith in
        let within : ltb n (suc n) ≡ true = ground arith in
        rw (same, ==_self, out, within) (ap (λ x. x || (q n && from n)) (or_false b)))
  | inr f ↦ (let same : ltb i (suc n) ≡ ltb i n = ground arith in rw (f, same) (or_false _))
]

pub fill_at :
    (q : ℕ → Bool) (from : FdSet) (n : ℕ) (to : FdSet) (i : ℕ)
    → fill q from n to i ≡ (to i || (ltb i n && (q i && from i)))
fill_at q from zero to i =
    (let out : ltb i 0 ≡ false = ground arith in rw out (sym (or_false (to i))))
fill_at q from (suc n) to i =
    sym (fill_round (q n))
    ∙ ap (λ x. x || ((i == n) && (q n && from n))) (fill_at q from n to i)
    ∙ fill_step q from n i (to i)
  where
    fill_round :
        (b : Bool)
        → (fill q from n to i || ((i == n) && (b && from n)))
          ≡ (if b then keep n from (fill q from n to) else fill q from n to) i
    fill_round true = sym (keep_at n from (fill q from n to) i)
    fill_round false = elim (Bool-cases (i == n)) [
      | inl t ↦ rw t (or_false _)
      | inr f ↦ rw f (or_false _)
    ]

-- The loops, one pointer at a time.
pub give_back_sets-fill :
    (from : FdSets) (n : ℕ) (out : Given) (w : Which) (s : FdSet)
    → out w ≡ some s
    → give_back_sets from n out w ≡ some (fill (λ i. true) (from w) n s)
unfolding give_back_sets put
give_back_sets-fill from zero out w s e = e
give_back_sets-fill from (suc n) out w s e =
    rw (give_back_sets-fill from n out w s e, give_back_sets, put) refl

module _ (p : FdPool) where
  pub scan-fill :
      (orig : FdSets) (n : ℕ) (w : Which)
      → (scan p orig n).nv w ≡ fill (λ i. not (is_assigned_by_velox p i)) (orig w) n fd_zero
  unfolding scan scan_fd
  scan-fill orig zero w = refl
  scan-fill orig (suc n) w = elim (Bool-cases (is_assigned_by_velox p n)) [
    | inl t ↦ rw (t, scan_fd) (scan-fill orig n w)
    | inr f ↦ rw (f, scan_fd) (ap (keep n (orig w)) (scan-fill orig n w))
  ]

  pub mark_all-fill :
      (given : Given) (orig : FdSets) (n : ℕ) (out : Given) (r : ℕ) (w : Which) (s : FdSet)
      → out w ≡ some s
      → (mark_all p given orig n (out, r)).0 w ≡ some (fill (is_assigned_by_velox p) (orig w) n s)
  unfolding mark_all mark_fd put
  mark_all-fill given orig zero out r w s e = e
  mark_all-fill given orig (suc n) out r w s e = elim (Bool-cases (is_assigned_by_velox p n)) [
    | inl t ↦ rw (t, mark_fd, put, mark_all-fill given orig n out r w s e) refl
    | inr f ↦ rw (f, mark_fd) (mark_all-fill given orig n out r w s e)
  ]

  pub scan_found :
      (orig : FdSets) (n v : ℕ)
      → v < n
      → is_assigned_by_velox p v ≡ true
      → in_any orig v ≡ true
      → (scan p orig n).has_velox ≡ true
  unfolding scan scan_fd
  scan_found orig zero v h a q = absurd (omega arith)
  scan_found orig (suc n) v h a q = elim (Bool-cases (v == n)) [
    | inl t ↦ (let same : v ≡ n = ground arith in rw (sym same, a, scan_fd, q) refl)
    | inr f ↦
        (let before = scan_found orig n v (ground arith) a q in
          elim (Bool-cases (is_assigned_by_velox p n)) [
            | inl t ↦ rw (t, scan_fd, before) (or_true (in_any orig n))
            | inr g ↦ rw (g, scan_fd) before
          ])
  ]
    where
      or_true : (b : Bool) → (b || true) ≡ true
      or_true true = refl
      or_true false = refl

  pub asked-saved :
      (given : Given) (w : Which) (i : ℕ) → asked given (saved given) w i ≡ saved given w i
  unfolding saved
  asked-saved given w i = elim (Option-cases (given w)) [
    | inl n ↦ one_pointer (given w) (saved given w i) (λ e. rw (n, saved) refl)
    | inr (s, e) ↦ one_pointer (given w) (saved given w i) (λ e'. rw (e', saved) refl)
  ]
    where
      one_pointer :
          (o : Option FdSet) (x : Bool)
          → (o ≡ none → x ≡ false)
          → elim o [ none ↦ false | some s ↦ x ] ≡ x
      one_pointer none x e = sym (e refl)
      one_pointer (some s) x e = refl

  pub mark_all-count :
      (given : Given) (n : ℕ) (out : Given) (r : ℕ)
      → (mark_all p given (saved given) n (out, r)).1
        ≡ r + count_below (λ i. is_assigned_by_velox p i && in_any (saved given) i) n
  unfolding mark_all mark_fd
  mark_all-count given zero out r = omega arith
  mark_all-count given (suc n) out r = elim (Bool-cases (is_assigned_by_velox p n)) [
    | inl t ↦
        rw
          (
            t,
            mark_fd,
            asked-saved given readfds n,
            asked-saved given writefds n,
            asked-saved given exceptfds n,
          )
          (elim (Bool-cases (in_any (saved given) n)) [
            | inl y ↦ rw y (omega (arith, mark_all-count given n out r))
            | inr z ↦ rw z (mark_all-count given n out r)
          ])
    | inr f ↦ rw (f, mark_fd) (mark_all-count given n out r)
  ]

  -- The descriptors of the C library's part end within the sets, and none is asked about beyond that end.
  pub scan-nv_end : (orig : FdSets) (n : ℕ) → (scan p orig n).nv_end ≤ n
  unfolding scan scan_fd
  scan-nv_end orig zero = omega arith
  scan-nv_end orig (suc n) =
      (let h = scan-nv_end orig n in
        elim (Bool-cases (is_assigned_by_velox p n)) [
          | inl t ↦ rw (t, scan_fd) (omega arith)
          | inr f ↦ rw (f, scan_fd) (ground arith)
        ])

  pub scan_covers :
      (orig : FdSets) (n i : ℕ)
      → i < n
      → is_assigned_by_velox p i ≡ false
      → in_any orig i ≡ true
      → i < (scan p orig n).nv_end
  unfolding scan scan_fd
  scan_covers orig zero i h a q = absurd (omega arith)
  scan_covers orig (suc n) i h a q = elim (Bool-cases (i == n)) [
    | inl t ↦
        (let same : i ≡ n = ground arith in
          rw (same, rw same at a, scan_fd, rw same at q) (ground arith))
    | inr f ↦
        (let before = scan_covers orig n i (ground arith) a q in
          elim (Bool-cases (is_assigned_by_velox p n)) [
            | inl t ↦ rw (t, scan_fd) before
            | inr g ↦ rw (g, scan_fd) (ground arith)
          ])
  ]

  pub scan_at :
      (orig : FdSets) (n : ℕ) (w : Which) (i : ℕ)
      → (scan p orig n).nv w i ≡ (ltb i n && (not (is_assigned_by_velox p i) && orig w i))
  scan_at orig n w i =
      ap (λ (s : FdSet). s i) (scan-fill orig n w)
      ∙ fill_at (λ i. not (is_assigned_by_velox p i)) (orig w) n fd_zero i

  -- Below the range no descriptor is Velox's.
  pub scan_none : (orig : FdSets) (n : ℕ) → n ≤ p.start_fd → (scan p orig n).has_velox ≡ false
  unfolding scan scan_fd is_assigned_by_velox
  scan_none orig zero h = refl
  scan_none orig (suc n) h =
      (let below : leb p.start_fd n ≡ false = ground arith in
        rw (scan_fd, below) (scan_none orig n (omega arith)))
