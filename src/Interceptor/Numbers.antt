-- ===== src/Interceptor/Numbers.antt =====
-- src/interceptor/fdpool.c and fdchanmap.c: the descriptors that `socket` hands out.
use velox_project.Prelude.{
  ℕ, suc, ◌+◌, ◌-◌, ◌≤◌, ◌<◌, ◌≡◌, ◌≢◌, ◌↔◌, ◌⊎◌, inl, inr, refl, ap, subst, sym, ◌∙◌, true, ◌&&◌,
  Option, none, some, List, [], ◌∷◌, arith, ltb, leb, if◌then◌else◌, length, length-set,
  get_elem?-set_self, get_elem?-set_ne, Bool-cases,
}
use mathlib.Core.Option.{some-injective}
use velox_project.Interceptor.{
  FdPool, assign_range, is_assigned_by_velox, next_avail_fd, fd_chanmap, set_fd_chanmap,
  unset_fd_chanmap, socket_fd, close_fd,
}

pub data FdEvent : Type 0 where
  opens : ℕ → FdEvent
  closes : ℕ → FdEvent

abbrev pub opened : List FdEvent → ℕ
opened [] = 0
opened (opens ch ∷ es) = suc (opened es)
opened (closes fd ∷ es) = opened es

-- A history of `socket` and `close`; `none` is the failed assertion.
pub run_fds : FdPool → List FdEvent → Option FdPool
run_fds p [] = some p
run_fds p (opens ch ∷ es) = elim (socket_fd p ch) [ none ↦ none | some (q, fd) ↦ run_fds q es ]
run_fds p (closes fd ∷ es) = run_fds (close_fd p fd) es

next_avail_fd_cases :
    (p : FdPool)
    → ((p.next_fd < p.start_fd + p.fd_count)
        × (next_avail_fd p ≡ some (record p { next_fd = p.next_fd + 1 }, p.next_fd)))
      ⊎ ((p.start_fd + p.fd_count ≤ p.next_fd) × (next_avail_fd p ≡ none))
unfolding next_avail_fd
next_avail_fd_cases p = elim (Bool-cases (ltb p.next_fd (p.start_fd + p.fd_count))) [
  | inl t ↦ inl (ground arith, rw t refl)
  | inr n ↦ inr (ground arith, rw n refl)
]

-- The pool behind a `socket` that gets a number.
abbrev assigned : FdPool → ℕ → FdPool
assigned p ch = set_fd_chanmap (record p { next_fd = p.next_fd + 1 }) p.next_fd ch

socket_fd_cases :
    (p : FdPool) (ch : ℕ)
    → ((p.next_fd < p.start_fd + p.fd_count) × (socket_fd p ch ≡ some (assigned p ch, p.next_fd)))
      ⊎ ((p.start_fd + p.fd_count ≤ p.next_fd) × (socket_fd p ch ≡ none))
unfolding socket_fd
socket_fd_cases p ch = elim (next_avail_fd_cases p) [
  | inl (lt, e) ↦ inl (lt, rw (e, socket_fd) refl)
  | inr (le, e) ↦ inr (le, rw (e, socket_fd) refl)
]

close_fd-next_fd :
    (p : FdPool) (fd : ℕ)
    → ((close_fd p fd).next_fd ≡ p.next_fd)
      × ((close_fd p fd).start_fd ≡ p.start_fd)
      × ((close_fd p fd).fd_count ≡ p.fd_count)
unfolding close_fd set_fd_chanmap unset_fd_chanmap
close_fd-next_fd p fd = elim (Bool-cases (is_assigned_by_velox p fd)) [
  | inl t ↦ rw t (refl, refl, refl)
  | inr n ↦ rw n (refl, refl, refl)
]

run_fds_iff :
    (p : FdPool) (es : List FdEvent)
    → p.next_fd ≤ p.start_fd + p.fd_count
    → (run_fds p es ≡ none) ↔ (p.start_fd + p.fd_count < p.next_fd + opened es)
unfolding run_fds set_fd_chanmap
run_fds_iff p [] h = ((λ e. cc), (λ l. absurd (omega arith)))
run_fds_iff p (closes fd ∷ es) h =
    let (a, b, c) = close_fd-next_fd p fd in
    let ih = run_fds_iff (close_fd p fd) es (omega arith) in
    ((λ e. omega (arith, ih.0 e)), (λ l. ih.1 (omega arith)))
run_fds_iff p (opens ch ∷ es) h = elim (socket_fd_cases p ch) [
  | inl (lt, e) ↦
      rw (e, run_fds)
        (let ih = run_fds_iff (assigned p ch) es (omega arith) in
          ((λ r. omega (arith, ih.0 r)), (λ l. ih.1 (omega arith))))
  | inr (le, e) ↦ ((λ r. omega arith), (λ l. rw (e, run_fds) refl))
]

-- From the assignment of the range on, a history of opened and closed sockets fails the assertion of
-- `next_avail_fd` exactly when it opens more sockets than the range has numbers, however many of
-- them it closes in between.
pub run_fds-none_iff :
    (startfd count : ℕ) (es : List FdEvent)
    → (run_fds (assign_range startfd count) es ≡ none) ↔ (count < opened es)
unfolding assign_range
run_fds-none_iff startfd count es =
    let w = run_fds_iff (assign_range startfd count) es (omega arith) in
    ((λ e. omega (arith, w.0 e)), (λ l. w.1 (omega arith)))

-- The table is as long as the range, and the next number is in it or just behind it.
pub record IsPool (p : FdPool) : Type 0 where
  pub table_fits : length p.chan_table ≡ p.fd_count
  pub starts : p.start_fd ≤ p.next_fd

assigned-IsPool : (p : FdPool) (ch : ℕ) → IsPool p → IsPool (assigned p ch)
unfolding set_fd_chanmap
assigned-IsPool p ch v = record {
  table_fits = length-set p.chan_table (p.next_fd - p.start_fd) ch ∙ v.table_fits;
  starts = omega (arith, v.starts);
}

assigned_own :
    (p : FdPool) (ch : ℕ)
    → IsPool p
    → p.next_fd < p.start_fd + p.fd_count
    → fd_chanmap (assigned p ch) p.next_fd ≡ some ch
unfolding fd_chanmap set_fd_chanmap is_assigned_by_velox
assigned_own p ch v lt = rw inside (
    get_elem?-set_self p.chan_table (p.next_fd - p.start_fd) ch
      (omega (arith, v.starts, v.table_fits)))
  where
    inside : (leb p.start_fd p.next_fd && ltb p.next_fd (p.start_fd + p.fd_count)) ≡ true
    inside = ground (arith, v.starts)

from_start : (p : FdPool) (g : ℕ) → is_assigned_by_velox p g ≡ true → p.start_fd ≤ g
unfolding is_assigned_by_velox
from_start p g t = ground arith

assigned_others :
    (p : FdPool) (ch : ℕ)
    → IsPool p
    → (g : ℕ) → g ≢ p.next_fd
    → fd_chanmap (assigned p ch) g ≡ fd_chanmap p g
unfolding fd_chanmap set_fd_chanmap is_assigned_by_velox
assigned_others p ch v g ne =
    elim (Bool-cases (leb p.start_fd g && ltb g (p.start_fd + p.fd_count))) [
      | inl t ↦
          (let from = from_start p g t in
            ap (λ x. if leb p.start_fd g && ltb g (p.start_fd + p.fd_count) then x else none)
              (get_elem?-set_ne p.chan_table (p.next_fd - p.start_fd) (g - p.start_fd) ch
                (λ e. ne (omega (arith, v.starts)))))
      | inr n ↦ rw n refl
    ]

-- A socket that is opened gets a number of the range, which leads to its channel from then on; the
-- other numbers lead where they did.
pub socket_fd-fd_chanmap :
    (p q : FdPool) (ch fd : ℕ)
    → IsPool p
    → socket_fd p ch ≡ some (q, fd)
    → (fd ≡ p.next_fd)
      × IsPool q
      × (fd_chanmap q fd ≡ some ch)
      × ((g : ℕ) → g ≢ fd → fd_chanmap q g ≡ fd_chanmap p g)
socket_fd-fd_chanmap p q ch fd v e = elim (socket_fd_cases p ch) [
  | inl (lt, e') ↦
      subst
        (λ (x : FdPool × ℕ).
          (x.1 ≡ p.next_fd)
          × IsPool x.0
          × (fd_chanmap x.0 x.1 ≡ some ch)
          × ((g : ℕ) → g ≢ x.1 → fd_chanmap x.0 g ≡ fd_chanmap p g))
        (some-injective (assigned p ch, p.next_fd) (q, fd) (sym e' ∙ e))
        (refl, assigned-IsPool p ch v, assigned_own p ch v lt, assigned_others p ch v)
  | inr (le, e') ↦ cc
]
