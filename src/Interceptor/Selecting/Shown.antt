-- ===== src/Interceptor/Selecting/Shown.antt =====
-- src/interceptor/interceptor.c, `select`: the sets and the number that it leaves when it is asked about a descriptor of
-- Velox, and what it does for a range of descriptors that no set holds.
use mathlib.Core.Bool.{true≢false}
use velox_project.Prelude.{
  ℕ, ◌+◌, ◌≤◌, ◌<◌, ◌≡◌, inl, inr, refl, ap, ap₂, sym, ◌∙◌, Bool, true, false, not, ◌&&◌, ◌||◌,
  Option, none, some, ltb, if◌then◌else◌, arith, Bool-cases, Option-cases,
}
use velox_project.Interceptor.{FdPool, is_assigned_by_velox}
use velox_project.Interceptor.Selecting.{
  Which, readfds, writefds, exceptfds, FdSet, FdSets, Given, fd_setsize, fd_zero, saved, in_any,
  Scan, Selected, zeroed, scan, mark_all, kernel_part, select,
}
use velox_project.Interceptor.Selecting.Loops.{
  count_below, fill, fill_at, give_back_sets-fill, mark_all-fill, scan_found, mark_all-count,
  scan-nv_end, scan_covers, scan_at, scan_none,
}

-- Whether the C library's answer has descriptors, and their number.
abbrev pub answers : Selected → Bool
answers k = elim k.ret [ none ↦ false | some r ↦ ltb 0 r ]

abbrev pub number : Selected → ℕ
number k = elim k.ret [ none ↦ 0 | some r ↦ r ]

kernel_part-shown :
    (k : Selected) (n : ℕ) (out : Given) (w : Which)
    → out w ≡ some fd_zero
    → (t : FdSet) × ((kernel_part k n out).0 w ≡ some t)
      × ((i : ℕ) → t i ≡ (answers k && (ltb i n && saved k.sets w i)))
      × ((kernel_part k n out).1 ≡ number k)
unfolding kernel_part
kernel_part-shown k n out w e = elim (Option-cases k.ret) [
  | inl m ↦ rw (m, kernel_part, answers, number) (fd_zero, e, (λ i. refl), refl)
  | inr (r, m) ↦ (elim (Bool-cases (ltb 0 r)) [
    | inl t ↦
        rw (m, kernel_part, t)
          (
            fill (λ i. true) (saved k.sets w) n fd_zero,
            give_back_sets-fill (saved k.sets) n out w fd_zero e,
            fill_at (λ i. true) (saved k.sets w) n fd_zero,
            refl,
          )
    | inr f ↦ rw (m, kernel_part, f) (fd_zero, e, (λ i. refl), ground arith)
  ])
]

or_true : (b : Bool) → (b || true) ≡ true
or_true true = refl
or_true false = refl

and_none : (b : Bool) → (b && false) ≡ false
and_none true = refl
and_none false = refl

and_both : (a b : Bool) → (a && b) ≡ true → (a ≡ true) × (b ≡ true)
and_both true true e = (refl, refl)
and_both true false e = absurd (true≢false (sym e))
and_both false b e = absurd (true≢false (sym e))

in_one : (s : FdSets) (w : Which) (i : ℕ) → s w i ≡ true → in_any s i ≡ true
in_one s readfds i e = rw e refl
in_one s writefds i e = rw e (or_true (s readfds i))
in_one s exceptfds i e = rw (e, or_true (s writefds i)) (or_true (s readfds i))

scan_within :
    (p : FdPool) (orig : FdSets) (n : ℕ) (w : Which) (i : ℕ)
    → (ltb i (scan p orig n).nv_end && (scan p orig n).nv w i) ≡ (scan p orig n).nv w i
scan_within p orig n w i = elim (Bool-cases ((scan p orig n).nv w i)) [
  | inl t ↦
      (let (below, rest) = and_both (ltb i n) _ (sym (scan_at p orig n w i) ∙ t) in
        let (other, one) = and_both _ (orig w i) rest in
        let covered = scan_covers p orig n i (ground arith) (ground arith) (in_one orig w i one) in
        let inside : ltb i (scan p orig n).nv_end ≡ true = ground arith in rw inside refl)
  | inr f ↦ rw f (and_none (ltb i (scan p orig n).nv_end))
]

saved_at :
    (given : Given) (w : Which) (s : FdSet) → given w ≡ some s → (i : ℕ) → saved given w i ≡ s i
unfolding saved
saved_at given w s e i = rw (e, saved) refl

-- The sets and the number before the last loop.
abbrev before_marks : (ℕ → Given → Option ℕ → Selected) → Scan → Given → Given × ℕ
before_marks glibc_select st given =
    let k = glibc_select st.nv_end (λ w. some (st.nv w)) (some 0) in
    if ltb 0 st.nv_end then kernel_part k st.nv_end (zeroed given) else (zeroed given, 0)

zeroed-some :
    (given : Given) (w : Which) (s : FdSet) → given w ≡ some s → zeroed given w ≡ some fd_zero
unfolding zeroed
zeroed-some given w s e = rw (e, zeroed) refl

before_marks-shown :
    (glibc_select : ℕ → Given → Option ℕ → Selected) (st : Scan) (given : Given) (w : Which)
    (s : FdSet)
    → given w ≡ some s
    → let k = glibc_select st.nv_end (λ w. some (st.nv w)) (some 0) in
      let kernel = before_marks glibc_select st given in
      (t : FdSet) × (kernel.0 w ≡ some t)
      × ((i : ℕ) → t i ≡ (answers k && (ltb i st.nv_end && saved k.sets w i)))
      × (kernel.1 ≡ (if ltb 0 st.nv_end then number k else 0))
before_marks-shown glibc_select st given w s e =
    let z = zeroed-some given w s e in
    let k = glibc_select st.nv_end (λ w. some (st.nv w)) (some 0) in
    elim (Bool-cases (ltb 0 st.nv_end)) [
      | inl t ↦ rw t (kernel_part-shown k st.nv_end (zeroed given) w z)
      | inr f ↦ rw f (
        fd_zero,
        z,
        (λ i.
            let out : ltb i st.nv_end ≡ false = ground arith in
            rw out (sym (and_none (answers k)))),
        refl,
      )
    ]

-- What `select` leaves in the set of a pointer, and its number. The C library is asked about exactly the other
-- descriptors below `nfds` that the sets hold, below a bound `n` that leaves none of them out, without waiting.
-- Then the set holds what the C library leaves in it, when its number is positive, and the descriptors of
-- Velox below `nfds` that were in it; the number is the C library's and one for each descriptor of Velox
-- below `nfds` in any of the sets. The C library is not called when `n` is 0.
abbrev pub SelectShows :
    FdPool → (ℕ → Given → Option ℕ → Selected) → ℕ → Given → Option ℕ → Which → FdSet → Type 0
SelectShows p glibc_select nfds given timeout w s =
    (n : ℕ) × (nv : FdSets) × (r : Selected) × (s' : FdSet) × (select p glibc_select nfds given
        timeout
      ≡ some r)
    × ((x : Which) (i : ℕ)
        → nv x i ≡ (ltb i nfds && (not (is_assigned_by_velox p i) && saved given x i)))
    × (n ≤ nfds)
    × ((x : Which) (i : ℕ) → (ltb i n && nv x i) ≡ nv x i)
    × (let k = glibc_select n (λ x. some (nv x)) (some 0) in
        (r.sets w ≡ some s')
        × ((i : ℕ)
            → s' i ≡ (
                (answers k && (ltb i n && saved k.sets w i))
                || (ltb i nfds && (is_assigned_by_velox p i && s i))))
        × (r.ret
            ≡ some (
                (if ltb 0 n then number k else 0)
                + count_below (λ i. is_assigned_by_velox p i && in_any (saved given) i) nfds)))

-- Asked about at most 1024 descriptors, one of them of Velox and in one of the sets, `select` returns; for each pointer
-- that is not null the set and the number are as `SelectShows` says.
pub select-shows :
    (p : FdPool) (glibc_select : ℕ → Given → Option ℕ → Selected) (nfds : ℕ) (given : Given)
    (timeout : Option ℕ) (v : ℕ) (w : Which) (s : FdSet)
    → nfds ≤ fd_setsize
    → v < nfds
    → is_assigned_by_velox p v ≡ true
    → in_any (saved given) v ≡ true
    → given w ≡ some s
    → SelectShows p glibc_select nfds given timeout w s
unfolding select
select-shows p glibc_select nfds given timeout v w s small h a q e =
    let orig = saved given in
    let st = scan p orig nfds in
    let found = scan_found p orig nfds v h a q in
    let fits : ltb fd_setsize nfds ≡ false = ground arith in
    let out = before_marks glibc_select st given in
    let marked = count_below (λ i. is_assigned_by_velox p i && in_any orig i) nfds in
    let (t, shown, kernel, count) = before_marks-shown glibc_select st given w s e in
    (
      st.nv_end,
      st.nv,
      record {
        sets = (mark_all p given orig nfds out).0;
        ret = some (mark_all p given orig nfds out).1;
      },
      fill (is_assigned_by_velox p) (orig w) nfds t,
      rw (fits, found, select) refl,
      scan_at p orig nfds,
      scan-nv_end p orig nfds,
      scan_within p orig nfds,
      (
        mark_all-fill p given orig nfds out.0 out.1 w t shown,
        (λ i.
            fill_at (is_assigned_by_velox p) (orig w) nfds t i
            ∙ ap₂ (λ x y. x || (ltb i nfds && (is_assigned_by_velox p i && y))) (kernel i)
                (saved_at given w s e i)),
        ap some (mark_all-count p given nfds out.0 out.1 ∙ ap (λ x. x + marked) count),
      ),
    )

-- When the range begins behind the last descriptor that a set holds, as the daemon's range does, a call up to that
-- last descriptor is the C library's, unchanged, and any other tests a descriptor that the sets do not hold.
pub select-past_sets :
    (p : FdPool) (glibc_select : ℕ → Given → Option ℕ → Selected) (nfds : ℕ) (given : Given)
    (timeout : Option ℕ)
    → fd_setsize ≤ p.start_fd
    → select p glibc_select nfds given timeout
      ≡ (if ltb fd_setsize nfds then none else some (glibc_select nfds given timeout))
unfolding select
select-past_sets p glibc_select nfds given timeout far = elim (Bool-cases (ltb fd_setsize nfds)) [
  | inl t ↦ rw (t, select) refl
  | inr f ↦ rw (f, select, scan_none p (saved given) nfds (ground arith)) refl
]
