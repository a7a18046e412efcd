-- ===== src/Arbiter/Closing.antt =====
-- src/veloxd/arbiter/agent/AgentChannel.cpp under reactor/IoHandle.cpp: the end of a channel in a callback of
-- its own IoHandle.
use velox_project.Prelude.{
  ℕ, ◌≡◌, ◌≢◌, ◌⊎◌, ◌↔◌, inl, inr, refl, sym, ap, subst, ◌∙◌, Bool, true, false, ◌&&◌, Option, none,
  some, List, [], ◌∷◌, ◌++◌,
}
use mathlib.Core.List.{append-nil}
use mathlib.Core.Bool.{true≢false}
use mathlib.Core.Option.{none-ne-some}
use velox_project.Poller.{Epoll}
use velox_project.Reactor.Dispatch.{
  Event, on_close, on_error, on_read, on_write, events_of, closes, reads, fires,
}
use velox_project.Arbiter.{
  Agent, Made, Input, would_block, eof, request, agent_of, agent_callbacks, Arbiter, on_read_ready,
  callback, run_events, handle_events_received,
}
use velox_project.Arbiter.Alive.{run_events_dead, remove_rr_channel-live, with_endpoint-live}

is_eof : Input → Bool
is_eof eof = true
is_eof _ = false

&&-true : (b : Bool) → (b && true) ≡ b
&&-true true = refl
&&-true false = refl

&&-false : (b : Bool) → (b && false) ≡ false
&&-false true = refl
&&-false false = refl

merge :
    (a b c d : Bool)
    → fires (a && true) on_close
        ++ (fires (b && false) on_error
            ++ (fires (c && true) on_read ++ fires (d && false) on_write))
      ≡ fires a on_close ++ fires c on_read
merge a b c d = rw (&&-true a, &&-false b, &&-true c, &&-false d, append-nil (fires c on_read)) refl

pub agent_events :
    (revents : ℕ)
    → events_of agent_callbacks revents
      ≡ fires (closes revents) on_close ++ fires (reads revents) on_read
unfolding events_of
agent_events revents = merge (closes revents) _ (reads revents) _

module _ (E : Epoll) where
  -- The request that `c` reads leaves it alive.
  request-live :
      (w : Arbiter E) (c : ℕ) (a : Agent) (made : Option Made) (written : Bool)
      → agent_of c w.rr_channels ≡ some a
      → ((n : ℕ) → a.notify ≡ some n → c ≢ n)
      → ((m : Made) → made ≡ some m → c ≢ m.notify)
      → (on_read_ready E w c (request made written)).live c ≡ w.live c
  unfolding on_read_ready
  request-live w c a made true e old new = with_endpoint-live E w c c a made e old new
  request-live w c a made false e old new = with_endpoint-live E w c c a made e old new

  pub run_one :
      (w : Arbiter E) (c : ℕ) (input : Input) (e : Event) (events : List Event)
      → w.live c ≡ true
      → run_events E w c input (e ∷ events) ≡ run_events E (callback E w c input e) c input events
  unfolding run_events
  run_one w c input e events alive = rw alive refl

  pub run_nil :
      (w : Arbiter E) (c : ℕ) (input : Input) → w.live c ≡ true → run_events E w c input [] ≡ some w
  unfolding run_events
  run_nil w c input alive = rw alive refl

  -- A channel that is in the list, alive, with an Endpoint elsewhere, and what one `read` gives it.
  module _ (w : Arbiter E) (c : ℕ) (a : Agent) (alive : w.live c ≡ true)
      (listed : agent_of c w.rr_channels ≡ some a) (old : (n : ℕ) → a.notify ≡ some n → c ≢ n) where
    -- The callback for reading alone.
    read_none_iff :
        (input : Input)
        → ((made : Option Made) (written : Bool) (m : Made)
            → input ≡ request made written
            → made ≡ some m
            → c ≢ m.notify)
        → (run_events E w c input (on_read ∷ []) ≡ none) ↔ (input ≡ eof)
    unfolding callback on_read_ready is_eof
    read_none_iff would_block new = (
      λ e. absurd (
          none-ne-some w
            (sym e ∙ run_one w c would_block on_read [] alive ∙ run_nil w c would_block alive)),
      λ e. absurd (true≢false (sym (ap is_eof e))),
    )
    read_none_iff eof new = (
      λ e. refl,
      λ e.
          run_one w c eof on_read [] alive
          ∙ run_events_dead E _ c eof [] (remove_rr_channel-live E w c a listed),
    )
    read_none_iff (request made written) new =
        let input : Input = request made written in
        let w' = on_read_ready E w c input in
        let alive' =
          request-live w c a made written listed old (λ m e. new made written m refl e) ∙ alive in
        (
          λ e. absurd (
              none-ne-some w'
                (sym e ∙ run_one w c input on_read [] alive ∙ run_nil w' c input alive')),
          λ e. absurd (true≢false (sym (ap is_eof e))),
        )

    events_none_iff :
        (input : Input)
        → ((made : Option Made) (written : Bool) (m : Made)
            → input ≡ request made written
            → made ≡ some m
            → c ≢ m.notify)
        → (a b : Bool)
        → (run_events E w c input (fires a on_close ++ fires b on_read) ≡ none)
          ↔ ((a ≡ true) ⊎ ((b ≡ true) × (input ≡ eof)))
    unfolding callback
    events_none_iff input new true b = (
      λ e. inl refl,
      λ e.
          run_one w c input on_close (fires b on_read) alive
          ∙ run_events_dead E _ c input (fires b on_read) (remove_rr_channel-live E w c a listed),
    )
    events_none_iff input new false true = (
      λ e. inr (refl, (read_none_iff input new).0 e),
      λ x. elim x [
        | inl e ↦ absurd (true≢false (sym e))
        | inr (_, e) ↦ (read_none_iff input new).1 e
      ],
    )
    events_none_iff input new false false = (
      λ e. absurd (none-ne-some w (sym e ∙ run_nil w c input alive)),
      λ x. elim x [
        | inl e ↦ absurd (true≢false (sym e))
        | inr (e, _) ↦ absurd (true≢false (sym e))
      ],
    )

    -- Handling the events of a channel's IoHandle touches the IoHandle after its destruction exactly when the peer
    -- has gone: on the close event, and on a read that meets the end of file; with a request, and
    -- with nothing to read, every access finds it alive. The channel is in the list of the Arbiter, its IoHandle is
    -- alive, and no Endpoint's IoHandle has the same address.
    pub handle_events_received-none_iff :
        (revents : ℕ) (input : Input)
        → ((made : Option Made) (written : Bool) (m : Made)
            → input ≡ request made written
            → made ≡ some m
            → c ≢ m.notify)
        → (handle_events_received E w c revents input ≡ none)
          ↔ ((closes revents ≡ true) ⊎ ((reads revents ≡ true) × (input ≡ eof)))
    unfolding handle_events_received
    handle_events_received-none_iff revents input new =
        subst
          (λ (events : List Event).
            (run_events E w c input events ≡ none)
            ↔ ((closes revents ≡ true) ⊎ ((reads revents ≡ true) × (input ≡ eof))))
          (sym (agent_events revents)) (events_none_iff input new (closes revents) (reads revents))
