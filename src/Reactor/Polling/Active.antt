-- ===== src/Reactor/Polling/Active.antt =====
-- src/veloxd/arbiter/reactor/SysPoller.cpp: the active channels of a poll are registered, and have received what
-- they asked for.
use velox_project.Prelude.{
  ℕ, ◌≤◌, ◌≡◌, ◌≢◌, inl, inr, refl, sym, ap, ◌∙◌, true, some, List, [], ◌∷◌, All, All-map, length,
  map, bit_and, bit_or,
}
use mathlib.Core.Option.{some-injective}
use velox_project.Poller.{Epoll, IoHandle}
use velox_project.Reactor.{Loop}
use velox_project.Reactor.Dispatch.{pollerr, pollhup}
use velox_project.Reactor.Synced.{IsSynced, handles-cases}
use velox_project.Reactor.Polling.{
  Report, AreOf, Wait, max_events_received_each_poll, set_events_received, receive_reports, poll,
}
use velox_project.Reactor.Polling.Kept.{
  IsKept, receive_reports-IsKept, owner_kept, interested_kept, IsKept-IsSynced,
}

module _ (E : Epoll) where
  -- The channel is registered, and has received only what it is interested in, an error or a hang-up.
  abbrev pub IsAsked : Loop E → Report → Type 0
  IsAsked l (events, c) =
      ((l.handles c).owner_loop ≡ true)
      × (bit_and events (bit_or (l.handles c).events_interested (bit_or pollerr pollhup)) ≡ events)

  abbrev pub AreApart : List Report → Type 0
  AreApart [] = Unit
  AreApart ((events, c) ∷ reports) = All (λ (r : Report). c ≢ r.1) reports × AreApart reports

  IsKept-IsAsked : (l l' : Loop E) (r : Report) → IsKept E l l' → IsAsked l r → IsAsked l' r
  IsKept-IsAsked l l' (events, c) k (own, m) = (
    owner_kept E l l' k c ∙ own,
    ap (λ i. bit_and events (bit_or i (bit_or pollerr pollhup))) (interested_kept E l l' k c) ∙ m,
  )

  module _ (l : Loop E) (v : IsSynced E l) where
    apart_from :
        (fd c interest : ℕ) (fds : List ℕ) (reports : List Report)
        → E.entry l.kernel fd ≡ some (interest, c)
        → All (λ fd'. fd ≢ fd') fds
        → AreOf E l.kernel fds reports
        → All (λ (r : Report). c ≢ r.1) reports
    apart_from fd c interest [] [] e ne are = tt
    apart_from fd c interest [] (_ ∷ reports) e ne are = absurd are
    apart_from fd c interest (fd' ∷ fds) [] e ne are = absurd are
    apart_from fd c interest (fd' ∷ fds) ((events, c') ∷ reports) e (ne, nes) ((i, e', m), r) = (
      λ q.
          ne (
            sym (v.only fd interest c e).1 ∙ ap (λ p. (l.handles p).fd) q ∙ (v.only fd' i c' e').1),
      apart_from fd c interest fds reports e nes r.1,
    )

    AreOf-AreApart :
        (fds : List ℕ) (reports : List Report) → AreOf E l.kernel fds reports → AreApart reports
    AreOf-AreApart [] [] are = tt
    AreOf-AreApart [] (_ ∷ reports) are = absurd are
    AreOf-AreApart (fd ∷ fds) [] are = absurd are
    AreOf-AreApart (fd ∷ fds) ((events, c) ∷ reports) ((i, e, m), (nes, r)) =
        (apart_from fd c i fds reports e nes r, AreOf-AreApart fds reports r)

    AreOf-IsAsked :
        (fds : List ℕ) (reports : List Report)
        → AreOf E l.kernel fds reports
        → All (IsAsked l) reports
    AreOf-IsAsked [] [] are = tt
    AreOf-IsAsked [] (_ ∷ reports) are = absurd are
    AreOf-IsAsked (fd ∷ fds) [] are = absurd are
    AreOf-IsAsked (fd ∷ fds) ((events, c) ∷ reports) ((i, e, m), (nes, r)) =
        let (own, at_fd) = v.only fd i c e in
        let same : i ≡ (l.handles c).events_interested =
          ap (λ (x : ℕ × ℕ). x.0)
            (some-injective _ _
              (sym e ∙ ap (λ fd. E.entry l.kernel fd) (sym at_fd) ∙ v.synced c own)) in
        (
          (own, ap (λ i. bit_and events (bit_or i (bit_or pollerr pollhup))) (sym same) ∙ m),
          AreOf-IsAsked fds reports r,
        )

  abbrev pub HasReceived : Loop E → Report → Type 0
  HasReceived l (events, c) = (l.handles c).events_received ≡ events

  set_events_received-other :
      (l : Loop E) (c events p : ℕ)
      → p ≢ c
      → (set_events_received E l c events).handles p ≡ l.handles p
  unfolding set_events_received
  set_events_received-other l c events p ne =
      elim (handles-cases E l c (record (l.handles c) { events_received = events }) p) [
        | inl (e, _) ↦ absurd (ne e)
        | inr (_, w) ↦ w
      ]

  set_events_received-here :
      (l : Loop E) (c events : ℕ) → HasReceived (set_events_received E l c events) (events, c)
  unfolding set_events_received
  set_events_received-here l c events =
      elim (handles-cases E l c (record (l.handles c) { events_received = events }) c) [
        | inl (_, w) ↦ ap (λ (h : IoHandle). h.events_received) w
        | inr (ne, _) ↦ absurd (ne refl)
      ]

  receive_reports-other :
      (l : Loop E) (p : ℕ) (reports : List Report)
      → All (λ (r : Report). p ≢ r.1) reports
      → (receive_reports E l reports).0.handles p ≡ l.handles p
  unfolding receive_reports
  receive_reports-other l p [] ne = refl
  receive_reports-other l p ((events, c) ∷ reports) (ne, nes) =
      receive_reports-other (set_events_received E l c events) p reports nes
      ∙ set_events_received-other l c events p ne

  receive_reports-HasReceived :
      (l : Loop E) (reports : List Report)
      → AreApart reports
      → All (HasReceived (receive_reports E l reports).0) reports
  unfolding receive_reports
  receive_reports-HasReceived l [] apart = tt
  receive_reports-HasReceived l ((events, c) ∷ reports) (ne, apart) =
      let l' = set_events_received E l c events in
      (
        ap (λ (h : IoHandle). h.events_received) (receive_reports-other l' c reports ne)
            ∙ set_events_received-here l c events,
        receive_reports-HasReceived l' reports apart,
      )

  receive_reports-actives :
      (l : Loop E) (reports : List Report)
      → (receive_reports E l reports).1 ≡ map (λ (r : Report). r.1) reports
  unfolding receive_reports
  receive_reports-actives l [] = refl
  receive_reports-actives l ((events, c) ∷ reports) =
      ap (λ cs. c ∷ cs) (receive_reports-actives (set_events_received E l c events) reports)

  -- The active channels are those of the reports, in their order and each once; what is received is what was
  -- reported; each is registered and asked for it; and the bookkeeping is still sound.
  pub record IsServed (reports : List Report) (l' : Loop E) (actives : List ℕ) : Type 0 where
    pub actives_reported : actives ≡ map (λ (r : Report). r.1) reports
    pub bounded : length reports ≤ max_events_received_each_poll
    pub apart : AreApart reports
    pub received : All (HasReceived l') reports
    pub asked : All (IsAsked l') reports
    pub still_synced : IsSynced E l'

  -- While the bookkeeping of the reactor is sound, a poll whose epoll_wait does not fail gives these channels as the
  -- active ones: those that epoll_wait reports, in its order, 64 at most, and none of them twice. Each of them is
  -- registered, has received the events of its report, and these are among those it is interested in now, but for
  -- an error or a hang-up. The bookkeeping is sound after the poll. The kernel keeps to epoll_ctl(2) and to
  -- epoll_wait(2).
  pub poll-IsServed :
      (W : Wait E) (l : Loop E) (reports : List Report)
      → IsSynced E l
      → W.epoll_wait l.kernel max_events_received_each_poll ≡ some reports
      → (l' : Loop E) × (actives : List ℕ) × (poll E W l ≡ some (l', actives))
        × IsServed reports l' actives
  unfolding poll
  poll-IsServed W l reports v e =
      let (fds, are) = W.are_of l.kernel max_events_received_each_poll reports e in
      let (l', actives) = receive_reports E l reports in
      let k = receive_reports-IsKept E l reports in
      let apart = AreOf-AreApart l v fds reports are in
      (
        l',
        actives,
        rw (poll, e) refl,
        record {
          actives_reported = receive_reports-actives l reports;
          bounded = W.at_most l.kernel max_events_received_each_poll reports e;
          apart = apart;
          received = receive_reports-HasReceived l reports apart;
          asked =
              All-map (IsAsked l) (IsAsked l') (λ r. IsKept-IsAsked l l' r k) reports
                (AreOf-IsAsked l v fds reports are);
          still_synced = IsKept-IsSynced E l l' k v;
        },
      )
