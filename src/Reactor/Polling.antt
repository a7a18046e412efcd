-- ===== src/Reactor/Polling.antt =====
-- src/veloxd/arbiter/reactor/SysPoller.cpp, `poll`, over the IoHandles of the Loop: what epoll_wait reports
-- becomes the received events and the active channels. epoll_wait is an interface.
pub mod Kept
pub mod Active
use velox_project.Prelude.{
  ℕ, ◌≤◌, ◌≡◌, ◌≢◌, inl, inr, refl, sym, ap, ◌∙◌, Bool, true, false, Option, none, some, List, [],
  ◌∷◌, ◌==◌, ap₂, count_if, if◌then◌else◌, arith, Bool-cases, ==_iff, ==_self, All, All-map, length,
  map, bit_and, bit_or,
}
use mathlib.Core.Option.{some-injective}
use velox_project.Poller.{Epoll, IoHandle}
use velox_project.Reactor.{is, Loop, set_handle}
use velox_project.Reactor.Dispatch.{pollerr, pollhup}
use velox_project.Reactor.Synced.{IsSynced, handles-cases}

abbrev pub max_events_received_each_poll : ℕ
max_events_received_each_poll = 64

-- A `struct epoll_event`: the events, and the pointer in `data`.
abbrev pub Report : Type 0
Report = ℕ × ℕ

module _ (E : Epoll) where
  -- The reports are about these descriptors, each of which is there once and has an entry with the pointer of the
  -- report. Besides an error or a hang-up only events that the entry asks for are reported.
  abbrev pub AreOf : E.Kernel → List ℕ → List Report → Type 0
  AreOf k [] [] = Unit
  AreOf k (fd ∷ fds) ((events, c) ∷ reports) =
      ((interest : ℕ) × (E.entry k fd ≡ some (interest, c))
        × (bit_and events (bit_or interest (bit_or pollerr pollhup)) ≡ events))
      × (All (λ fd'. fd ≢ fd') fds × AreOf k fds reports)
  AreOf k _ _ = ⊥

  -- epoll_wait(2): it fails, or it reports on descriptors of the interest list, `maxevents` at most.
  pub record Wait : Type 0 where
    pub epoll_wait : E.Kernel → ℕ → Option (List Report)
    pub at_most :
        (k : E.Kernel) (n : ℕ) (reports : List Report)
        → epoll_wait k n ≡ some reports
        → length reports ≤ n
    pub are_of :
        (k : E.Kernel) (n : ℕ) (reports : List Report)
        → epoll_wait k n ≡ some reports
        → (fds : List ℕ) × AreOf k fds reports

  unfoldable pub set_events_received : Loop E → ℕ → ℕ → Loop E
  unfolding set_handle
  set_events_received l c events =
      set_handle E l c (record (l.handles c) { events_received = events })

  -- The last loop of `poll`.
  unfoldable pub receive_reports : Loop E → List Report → Loop E × List ℕ
  unfolding set_events_received
  receive_reports l [] = (l, [])
  receive_reports l ((events, c) ∷ reports) =
      let (l', actives) = receive_reports (set_events_received l c events) reports in
      (l', c ∷ actives)

  -- `SysPoller::poll`. When epoll_wait has failed, `end() - 1` is taken of an empty vector: `none`.
  unfoldable pub poll : Wait → Loop E → Option (Loop E × List ℕ)
  unfolding receive_reports
  poll W l = elim (W.epoll_wait l.kernel max_events_received_each_poll) [
    | none ↦ none
    | some reports ↦ some (receive_reports l reports)
  ]
