-- ===== src/Arbiter/Turn.antt =====
-- src/veloxd/arbiter/reactor/EventReactor.cpp, a turn of `loop` over reactor/SysPoller.cpp: the poll, then the events of
-- the active channels.
use velox_project.Prelude.{
  ℕ, ◌≡◌, ◌↔◌, inl, inr, refl, ap, sym, ◌∙◌, Option, none, some, List, [], ◌∷◌, All, map,
}
use velox_project.Poller.{Epoll}
use velox_project.Reactor.{Loop}
use velox_project.Reactor.Synced.{IsSynced}
use velox_project.Reactor.Polling.{Report, Wait, poll, max_events_received_each_poll}
use velox_project.Reactor.Polling.Active.{HasReceived, poll-IsServed}
use velox_project.Arbiter.{Input, Arbiter, handle_events_received, run_actives}
use velox_project.Arbiter.Steady.{Active, SomeGone, IsSteady, IsApart}
use velox_project.Arbiter.Kept.{Keeps}
use velox_project.Arbiter.Batch.{
  handled, gone_none, run_actives_after, run_actives_ended, run_actives-none_iff,
}

module _ (E : Epoll) where
  -- `handleEventsReceived` of each active channel, with the events that it has received by then. `inputs` is what the
  -- channels read.
  pub run_batch : Arbiter E → List ℕ → (ℕ → Input) → Option (Arbiter E)
  run_batch w [] inputs = some w
  run_batch w (c ∷ cs) inputs =
      elim (handle_events_received E w c (w.loop.handles c).events_received (inputs c)) [
        | none ↦ none
        | some w' ↦ run_batch w' cs inputs
      ]

  -- The body of `EventReactor::loop`.
  pub loop_turn : Wait E → Arbiter E → (ℕ → Input) → Option (Arbiter E)
  unfolding run_batch
  loop_turn W w inputs = elim (poll E W w.loop) [
    | none ↦ none
    | some (l', actives) ↦ run_batch (record w { loop = l' }) actives inputs
  ]

  -- A report, with what its channel reads.
  abbrev pub with_input : (ℕ → Input) → Report → Active
  with_input inputs (events, c) = (c, events, inputs c)

  module _ (P : ℕ → Type 0) (inputs : ℕ → Input) where
    kept-HasReceived :
        (w w' : Arbiter E) (reports : List Report)
        → Keeps E P w w'
        → All (λ r. IsApart E P (with_input inputs r)) reports
        → All (HasReceived E w.loop) reports
        → All (HasReceived E w'.loop) reports
    kept-HasReceived w w' [] k apart got = tt
    kept-HasReceived w w' ((events, c) ∷ reports) k ((hc, new), apart) (here, there) =
        (k c hc ∙ here, kept-HasReceived w w' reports k apart there)

    run_batch_cons :
        (w : Arbiter E) (c events : ℕ) (cs : List ℕ) (o : Option (Arbiter E))
        → (w.loop.handles c).events_received ≡ events
        → handle_events_received E w c events (inputs c) ≡ o
        → run_batch w (c ∷ cs) inputs ≡ (elim o [ none ↦ none | some w' ↦ run_batch w' cs inputs ])
    unfolding run_batch
    run_batch_cons w c events cs o e e' =
        ap
          (λ o. elim o as (λ x. Option (Arbiter E)) [
            | none ↦ none
            | some w' ↦ run_batch w' cs inputs
          ])
          (ap (λ n. handle_events_received E w c n (inputs c)) e ∙ e')

    -- The events are those of the reports, whatever the callbacks before them have done.
    run_batch-run_actives :
        (w : Arbiter E) (reports : List Report)
        → IsSteady E P w
        → All (λ r. IsApart E P (with_input inputs r)) reports
        → All (HasReceived E w.loop) reports
        → run_batch w (map (λ r. r.1) reports) inputs
          ≡ run_actives E w (map (with_input inputs) reports)
    unfolding run_batch run_actives
    run_batch-run_actives w [] v apart got = refl
    run_batch-run_actives w ((events, c) ∷ reports) v (here, there) (now, later) =
        let cs = map (λ (r : Report). r.1) reports in
        let actives = map (with_input inputs) reports in
        elim (handled E P w c events (inputs c) here v) [
          | inl gone ↦
              (let e = (gone_none E P w c events (inputs c) here v).1 gone in
                run_batch_cons w c events cs none now e
                ∙ sym (run_actives_ended E P w c events (inputs c) actives e))
          | inr (w', e, v', k) ↦
              run_batch_cons w c events cs (some w') now e
              ∙ run_batch-run_actives w' reports v' there
                  (kept-HasReceived w w' reports k there later)
              ∙ sym (run_actives_after E P w c events (inputs c) actives w' e)
        ]

    -- The report of a channel whose peer has gone.
    abbrev pub SomeReportGone : List Report → Type 0
    SomeReportGone reports = SomeGone (map (with_input inputs) reports)

    all_as_active :
        (reports : List Report)
        → All (λ r. IsApart E P (with_input inputs r)) reports
        → All (IsApart E P) (map (with_input inputs) reports)
    all_as_active [] apart = tt
    all_as_active (r ∷ reports) (here, there) = (here, all_as_active reports there)

    loop_turn_polled :
        (W : Wait E) (w : Arbiter E) (l' : Loop E) (actives : List ℕ)
        → poll E W w.loop ≡ some (l', actives)
        → loop_turn W w inputs ≡ run_batch (record w { loop = l' }) actives inputs
    unfolding loop_turn
    loop_turn_polled W w l' actives e = rw (loop_turn, e) refl

    -- A turn of the event loop, whose epoll_wait does not fail, touches a destroyed IoHandle exactly when the peer of
    -- one of the channels that epoll_wait reports has gone: the events of its report are a close event, or they are
    -- for reading and the read meets the end of file. Before the turn the bookkeeping of the reactor is sound, the
    -- channels at the addresses of P are alive and in the list of the Arbiter, and no Endpoint's IoHandle is at one of
    -- these addresses; the reports are for channels there, and no request that is read gets an Endpoint whose
    -- IoHandle is at one of them. The kernel keeps to epoll_ctl(2) and to epoll_wait(2).
    pub loop_turn-none_iff :
        (W : Wait E) (w : Arbiter E) (reports : List Report)
        → IsSynced E w.loop
        → IsSteady E P w
        → W.epoll_wait w.loop.kernel max_events_received_each_poll ≡ some reports
        → All (λ r. IsApart E P (with_input inputs r)) reports
        → (loop_turn W w inputs ≡ none) ↔ SomeReportGone reports
    loop_turn-none_iff W w reports synced v e apart =
        let (l', actives, polled, served) = poll-IsServed E W w.loop reports synced e in
        let w' : Arbiter E = record w { loop = l' } in
        let v' : IsSteady E P w' = record { alive = v.alive; listed = v.listed; apart = v.apart } in
        let same : loop_turn W w inputs ≡ run_actives E w' (map (with_input inputs) reports) =
          loop_turn_polled W w l' actives polled
          ∙ ap (λ cs. run_batch w' cs inputs) served.actives_reported
          ∙ run_batch-run_actives w' reports v' apart served.received in
        let iff =
          run_actives-none_iff E P w' (map (with_input inputs) reports) v'
            (all_as_active reports apart) in
        (λ n. iff.0 (sym same ∙ n), λ gone. same ∙ iff.1 gone)
