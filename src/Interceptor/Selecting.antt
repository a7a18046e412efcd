-- ===== src/Interceptor/Selecting.antt =====
-- src/interceptor/interceptor.c, `select`. A set of descriptors is its characteristic function, and the three sets are
-- taken by the pointer they belong to; different pointers are taken to name different sets, and `nfds` is not
-- negative. A test of a
-- descriptor that an `fd_set` has no bit for is `none`. The C library's `select` is a parameter.
pub mod Loops
pub mod Shown
use velox_project.Prelude.{
  ℕ, suc, zero, ◌+◌, ◌≤◌, ◌<◌, ◌≡◌, ◌≢◌, inl, inr, refl, ap, sym, ◌∙◌, Bool, true, false, not, ◌&&◌,
  ◌||◌, Option, none, some, ltb, leb, ◌==◌, if◌then◌else◌, arith, Bool-cases,
}
use velox_project.Interceptor.{FdPool, is_assigned_by_velox}

pub data Which : Type 0 where
  readfds : Which
  writefds : Which
  exceptfds : Which

abbrev pub FdSet : Type 0
FdSet = ℕ → Bool

abbrev pub FdSets : Type 0
FdSets = Which → FdSet

-- The caller's pointers; `none` is the null pointer.
abbrev pub Given : Type 0
Given = Which → Option FdSet

abbrev pub fd_setsize : ℕ
fd_setsize = 1024

-- `FD_ZERO` and `FD_SET`.
abbrev pub fd_zero : FdSet
fd_zero fd = false

abbrev pub fd_set : ℕ → FdSet → FdSet
fd_set fd s = λ i. (i == fd) || s i

-- `orig_r`, `orig_w`, `orig_e`.
unfoldable pub saved : Given → FdSets
saved given w = elim (given w) [ none ↦ fd_zero | some s ↦ s ]

abbrev pub in_any : FdSets → ℕ → Bool
in_any s fd = s readfds fd || (s writefds fd || s exceptfds fd)

-- `nv_r`, `nv_w`, `nv_e`, `has_velox`, and one more than `max_nv_fd`.
pub record Scan : Type 0 where
  pub nv : FdSets
  pub has_velox : Bool
  pub nv_end : ℕ

-- The result of a `select`: what the pointers name, and the number; `none` is -1.
pub record Selected : Type 0 where
  pub sets : Given
  pub ret : Option ℕ

-- `if (FD_ISSET(fd, from)) FD_SET(fd, to)`.
unfoldable pub keep : ℕ → FdSet → FdSet → FdSet
keep fd from to = if from fd then fd_set fd to else to

-- The same where the pointer is not null.
unfoldable pub put : ℕ → FdSets → Given → Given
unfolding keep
put fd from to w = elim (to w) [ none ↦ none | some s ↦ some (keep fd (from w) s) ]

unfoldable pub zeroed : Given → Given
zeroed given w = elim (given w) [ none ↦ none | some s ↦ some fd_zero ]

-- The last loop's test of a pointer with its set.
abbrev pub asked : Given → FdSets → Which → ℕ → Bool
asked given orig w fd = elim (given w) [ none ↦ false | some s ↦ orig w fd ]

module _ (p : FdPool) where
  -- The first loop, after its first `n` rounds.
  unfoldable pub scan_fd : FdSets → ℕ → Scan → Scan
  unfolding keep
  scan_fd orig fd st =
      if is_assigned_by_velox p fd
      then record st { has_velox = in_any orig fd || st.has_velox }
      else record st {
        nv = λ w. keep fd (orig w) (st.nv w);
        nv_end = if in_any orig fd && leb st.nv_end fd then fd + 1 else st.nv_end;
      }

  unfoldable pub scan : FdSets → ℕ → Scan
  unfolding scan_fd
  scan orig zero = record { nv = λ w. fd_zero; has_velox = false; nv_end = 0 }
  scan orig (suc n) = scan_fd orig n (scan orig n)

  -- The last loop, after its first `n` rounds.
  unfoldable pub mark_fd : Given → FdSets → ℕ → Given × ℕ → Given × ℕ
  unfolding put
  mark_fd given orig fd (out, nready) =
      if is_assigned_by_velox p fd
      then (
        put fd orig out,
        if asked given orig readfds fd
              || (asked given orig writefds fd || asked given orig exceptfds fd)
            then nready + 1
            else nready,
      )
      else (out, nready)

  unfoldable pub mark_all : Given → FdSets → ℕ → Given × ℕ → Given × ℕ
  unfolding mark_fd
  mark_all given orig zero out = out
  mark_all given orig (suc n) out = mark_fd given orig n (mark_all given orig n out)

-- The loop over the C library's answer, after its first `n` rounds.
unfoldable pub give_back_sets : FdSets → ℕ → Given → Given
unfolding put
give_back_sets from zero out = out
give_back_sets from (suc n) out = put n from (give_back_sets from n out)

-- What the C library's answer adds: the sets with its descriptors, and its number.
unfoldable pub kernel_part : Selected → ℕ → Given → Given × ℕ
unfolding give_back_sets saved
kernel_part k n out = elim k.ret [
  | none ↦ (out, 0)
  | some r ↦ if ltb 0 r then (give_back_sets (saved k.sets) n out, r) else (out, 0)
]

-- `select`; the C library's one gets `nfds`, the sets, and the timeout in microseconds, `none` for none.
unfoldable pub select :
    FdPool → (ℕ → Given → Option ℕ → Selected) → ℕ → Given → Option ℕ → Option Selected
unfolding scan saved zeroed kernel_part mark_all
select p glibc_select nfds given timeout =
    if ltb fd_setsize nfds
    then none
    else (let orig = saved given in
        let st = scan p orig nfds in
        if not st.has_velox
        then some (glibc_select nfds given timeout)
        else (let k = glibc_select st.nv_end (λ w. some (st.nv w)) (some 0) in
            let kernel =
              if ltb 0 st.nv_end
              then kernel_part k st.nv_end (zeroed given)
              else (zeroed given, 0) in
            let out = mark_all p given orig nfds kernel in
            some (record { sets = out.0; ret = some out.1 })))
