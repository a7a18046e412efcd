-- ===== src/Examples/Reactor.antt =====
-- Concrete event loops, for src/veloxd/arbiter/reactor, over a kernel whose interest list is a function.
use velox_project.Prelude.{
  ℕ, zero, suc, bit_and, bit_or, ==_iff, subst, Option, length, arith, ◌≤◌, List, ap, ◌≡◌, inl, inr,
  refl, sym, ◌∙◌, false, none, some, [], ◌∷◌, ◌==◌, if◌then◌else◌, Bool-cases,
}
use mathlib.Core.Bool.{true≢false}
use velox_project.Poller
use velox_project.Poller.{Epoll, Entry, Ctl, ctl_add, ctl_mod, ctl_del, new_io_handle, read_event}
use velox_project.Reactor.{
  Loop, construct, enable_reading, with_interest, set_handle, add_channel, set_owner_event_reactor,
}
use velox_project.Reactor.Synced.{IsSynced}
use velox_project.Reactor.Registration.{
  Reach, here, next, constructs, enables_reading, attaches, Reach-IsSynced,
}
use velox_project.Reactor.Polling.{Report, AreOf, Wait, max_events_received_each_poll, poll}
use velox_project.Reactor.Polling.Active.{IsServed, poll-IsServed}
use mathlib.Core.Option.{some-injective}

ctl : (ℕ → Entry) → Ctl → ℕ → Entry
ctl k (ctl_add fd events ptr) fd' =
    if fd' == fd then (elim (k fd) [ none ↦ some (events, ptr) | some old ↦ some old ]) else k fd'
ctl k (ctl_mod fd events ptr) fd' =
    if fd' == fd then (elim (k fd) [ none ↦ none | some old ↦ some (events, ptr) ]) else k fd'
ctl k (ctl_del fd) fd' = if fd' == fd then none else k fd'

unfoldable pub kernel : Epoll
unfolding ctl
kernel = record {
  Kernel = ℕ → Entry;
  entry = λ k fd. k fd;
  ctl = ctl;
  entry-add = λ k fd events ptr fd'. refl;
  entry-mod = λ k fd events ptr fd'. refl;
  entry-del = λ k fd fd'. refl;
}

unfoldable pub empty : Loop kernel
unfolding kernel
empty = record { handles = λ c. new_io_handle 0; channels = []; kernel = λ fd. none }

pub empty-IsSynced : IsSynced kernel empty
unfolding empty kernel new_io_handle
empty-IsSynced = Reach-IsSynced kernel empty empty refl (λ c. refl) (λ fd. refl) here

-- An IoHandle that is constructed and made to read, without an owner yet.
abbrev constructed : Loop kernel
constructed = enable_reading kernel (construct kernel empty 0 5) 0

no_owner : (c : ℕ) → (constructed.handles c).owner_loop ≡ false
unfolding empty kernel enable_reading with_interest construct set_handle new_io_handle
no_owner c = elim (Bool-cases (c == 0)) [ inl t ↦ rw t refl | inr n ↦ rw n refl ]

abbrev pub registered : Loop kernel
registered = set_owner_event_reactor kernel (add_channel kernel constructed 0) 0

registered-Reach : Reach kernel empty registered
unfolding empty kernel new_io_handle
registered-Reach =
    next (next (next here (constructs 0 5 refl)) (enables_reading 0))
      (attaches 0 (no_owner 0) (λ p own. absurd (true≢false (sym own ∙ no_owner p))))

Reach-IsSynced_example : IsSynced kernel registered
unfolding empty kernel new_io_handle
Reach-IsSynced_example =
    Reach-IsSynced kernel empty registered refl (λ c. refl) (λ fd. refl) registered-Reach

pub registered-IsSynced : IsSynced kernel registered
unfolding empty kernel new_io_handle
registered-IsSynced =
    Reach-IsSynced kernel empty registered refl (λ c. refl) (λ fd. refl) registered-Reach

-- An epoll_wait for which descriptor 5 is readable.
readable : Entry → List Report
readable none = []
readable (some (interest, c)) = if interest == read_event then (1, c) ∷ [] else []

epoll_wait : kernel.Kernel → ℕ → Option (List Report)
epoll_wait k zero = some []
epoll_wait k (suc n) = some (readable (kernel.entry k 5))

readable-length : (o : Entry) → length (readable o) ≤ 1
unfolding readable
readable-length none = omega arith
readable-length (some (interest, c)) = elim (Bool-cases (interest == read_event)) [
  | inl t ↦ rw t (omega arith)
  | inr f ↦ rw f (omega arith)
]

readable-AreOf :
    (k : kernel.Kernel) (o : Entry)
    → kernel.entry k 5 ≡ o
    → (fds : List ℕ) × AreOf kernel k fds (readable o)
unfolding readable
readable-AreOf k none e = ([], tt)
readable-AreOf k (some (interest, c)) e = elim (Bool-cases (interest == read_event)) [
  | inl t ↦
      (let asked : bit_and 1 (bit_or interest 24) ≡ 1 =
          ap (λ i. bit_and 1 (bit_or i 24)) ((==_iff interest 3).0 t) in
        (5 ∷ [], rw t ((interest, e, asked), (tt, tt))))
  | inr f ↦ ([], rw f tt)
]

epoll_wait-at_most :
    (k : kernel.Kernel) (n : ℕ) (reports : List Report)
    → epoll_wait k n ≡ some reports
    → length reports ≤ n
unfolding epoll_wait
epoll_wait-at_most k zero reports e =
    subst (λ rs. length rs ≤ 0) (some-injective [] reports e) (omega arith)
epoll_wait-at_most k (suc n) reports e =
    let one = readable-length (kernel.entry k 5) in
    subst (λ rs. length rs ≤ suc n) (some-injective _ reports e) (omega arith)

epoll_wait-AreOf :
    (k : kernel.Kernel) (n : ℕ) (reports : List Report)
    → epoll_wait k n ≡ some reports
    → (fds : List ℕ) × AreOf kernel k fds reports
unfolding epoll_wait
epoll_wait-AreOf k zero reports e =
    subst (λ rs. (fds : List ℕ) × AreOf kernel k fds rs) (some-injective [] reports e) ([], tt)
epoll_wait-AreOf k (suc n) reports e =
    subst (λ rs. (fds : List ℕ) × AreOf kernel k fds rs) (some-injective _ reports e)
      (readable-AreOf k (kernel.entry k 5) refl)

pub wait : Wait kernel
wait = record { epoll_wait = epoll_wait; at_most = epoll_wait-at_most; are_of = epoll_wait-AreOf }

pub wait_registered :
    wait.epoll_wait registered.kernel max_events_received_each_poll ≡ some ((1, 0) ∷ [])
unfolding empty kernel new_io_handle enable_reading with_interest construct set_handle add_channel
    set_owner_event_reactor wait epoll_wait readable ctl Poller.add_channel
wait_registered = refl

poll-IsServed_example :
    (l' : Loop kernel) × (actives : List ℕ) × (poll kernel wait registered ≡ some (l', actives))
    × IsServed kernel ((1, 0) ∷ []) l' actives
poll-IsServed_example =
    poll-IsServed kernel wait registered ((1, 0) ∷ []) registered-IsSynced wait_registered
