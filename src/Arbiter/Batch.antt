-- ===== src/Arbiter/Batch.antt =====
-- src/veloxd/arbiter/reactor/EventReactor.cpp, the batch of `loop`, over the channels of arbiter/agent/AgentChannel.cpp.
use velox_project.Prelude.{
  ℕ, ◌≡◌, ◌⊎◌, ◌↔◌, inl, inr, refl, sym, subst, ◌∙◌, Bool, true, false, Option, none, some, List,
  [], ◌∷◌, ◌++◌, All,
}
use mathlib.Core.Option.{none-ne-some}
use velox_project.Poller.{Epoll}
use velox_project.Reactor.Dispatch.{Event, on_close, on_read, closes, reads, fires}
use velox_project.Arbiter.{
  Input, would_block, eof, request, Arbiter, on_read_ready, callback, run_events,
  handle_events_received, run_actives,
}
use velox_project.Arbiter.Steady.{
  Active, HasGone, SomeGone, IsSteady, IsApart, on_read_ready-IsSteady,
}
use velox_project.Arbiter.Kept.{Keeps, on_read_ready-Keeps}
use velox_project.Arbiter.Closing.{handle_events_received-none_iff, agent_events, run_one, run_nil}

module _ (E : Epoll) (P : ℕ → Type 0) where
  -- What one channel comes to that does not see its peer go.
  abbrev pub Stays : Arbiter E → Option (Arbiter E) → Type 0
  Stays w o = (w' : Arbiter E) × (o ≡ some w') × IsSteady E P w' × Keeps E P w w'

  read-Stays :
      (w : Arbiter E) (c : ℕ) (input : Input)
      → IsApart E P (c, 0, input)
      → IsSteady E P w
      → (input ≡ eof) ⊎ Stays w (run_events E w c input (on_read ∷ []))
  unfolding callback
  read-Stays w c eof (hc, new) v = inl refl
  read-Stays w c would_block (hc, new) v = inr (
    w,
    run_one E w c would_block on_read [] (v.alive c hc) ∙ run_nil E w c would_block (v.alive c hc),
    v,
    λ q hq. refl,
  )
  read-Stays w c (request made written) (hc, new) v =
      let input : Input = request made written in
      let w' = on_read_ready E w c input in
      let v' =
        on_read_ready-IsSteady E P w c made written hc (λ m e. new made written m refl e) v in
      inr (
        w',
        run_one E w c input on_read [] (v.alive c hc) ∙ run_nil E w' c input (v'.alive c hc),
        v',
        on_read_ready-Keeps E P w c made written hc (λ m e. new made written m refl e) v,
      )

  events-Stays :
      (w : Arbiter E) (c : ℕ) (input : Input) (x y : Bool)
      → IsApart E P (c, 0, input)
      → IsSteady E P w
      → ((x ≡ true) ⊎ ((y ≡ true) × (input ≡ eof)))
        ⊎ Stays w (run_events E w c input (fires x on_close ++ fires y on_read))
  events-Stays w c input true y apart v = inl (inl refl)
  events-Stays w c input false true apart v = elim (read-Stays w c input apart v) [
    | inl e ↦ inl (inr (refl, e))
    | inr r ↦ inr r
  ]
  events-Stays w c input false false (hc, new) v =
      inr (w, run_nil E w c input (v.alive c hc), v, λ q hq. refl)

  -- A channel sees its peer go, or it leaves the others as they have to be.
  pub handled :
      (w : Arbiter E) (c revents : ℕ) (input : Input)
      → IsApart E P (c, revents, input)
      → IsSteady E P w
      → HasGone (c, revents, input) ⊎ Stays w (handle_events_received E w c revents input)
  unfolding handle_events_received
  handled w c revents input apart v =
      subst
        (λ (events : List Event).
          HasGone (c, revents, input) ⊎ Stays w (run_events E w c input events))
        (sym (agent_events revents))
        (events-Stays w c input (closes revents) (reads revents) apart v)

  pub run_actives_after :
      (w : Arbiter E) (c revents : ℕ) (input : Input) (actives : List Active) (w' : Arbiter E)
      → handle_events_received E w c revents input ≡ some w'
      → run_actives E w ((c, revents, input) ∷ actives) ≡ run_actives E w' actives
  unfolding run_actives
  run_actives_after w c revents input actives w' e = rw (run_actives, e) refl

  pub run_actives_ended :
      (w : Arbiter E) (c revents : ℕ) (input : Input) (actives : List Active)
      → handle_events_received E w c revents input ≡ none
      → run_actives E w ((c, revents, input) ∷ actives) ≡ none
  unfolding run_actives
  run_actives_ended w c revents input actives e = rw (run_actives, e) refl

  pub gone_none :
      (w : Arbiter E) (c revents : ℕ) (input : Input)
      → IsApart E P (c, revents, input)
      → IsSteady E P w
      → (handle_events_received E w c revents input ≡ none) ↔ HasGone (c, revents, input)
  gone_none w c revents input (hc, new) v =
      handle_events_received-none_iff E w c (v.listed c hc).0 (v.alive c hc) (v.listed c hc).1
        (λ n en. v.apart c n (v.listed c hc).0 (v.listed c hc).1 en c hc) revents input
        (λ made written m ei em. new made written m ei em c hc)

  -- A batch touches a destroyed IoHandle exactly when the peer of one of its channels has gone, at whatever place of
  -- the batch that channel is. Before the batch the channels at the addresses of P are alive and in the list of
  -- the Arbiter, no Endpoint's IoHandle is at one of these addresses, every channel of the batch is at one, and no
  -- request of the batch gets an Endpoint whose IoHandle is at one.
  pub run_actives-none_iff :
      (w : Arbiter E) (actives : List Active)
      → IsSteady E P w
      → All (IsApart E P) actives
      → (run_actives E w actives ≡ none) ↔ SomeGone actives
  unfolding run_actives
  run_actives-none_iff w [] v apart = (λ e. none-ne-some w (sym e), λ e. absurd e)
  run_actives-none_iff w ((c, revents, input) ∷ actives) v (here, there) =
      elim (handled w c revents input here v) [
        | inl gone ↦ (
          λ e. inl gone,
          λ s.
              run_actives_ended w c revents input actives
                ((gone_none w c revents input here v).1 gone),
        )
        | inr (w', e, v', kept) ↦
            (let rest = run_actives-none_iff w' actives v' there in
              let after = run_actives_after w c revents input actives w' e in
              (
                λ n. inr (rest.0 (sym after ∙ n)),
                λ s. elim s [
                  | inl gone ↦
                      absurd
                        (none-ne-some w' (sym ((gone_none w c revents input here v).1 gone) ∙ e))
                  | inr gone ↦ after ∙ rest.1 gone
                ],
              ))
      ]
