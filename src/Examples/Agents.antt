-- ===== src/Examples/Agents.antt =====
-- Concrete connections and batches, for src/veloxd/arbiter's Arbiter.cpp, agent/AgentHub.cpp and
-- agent/AgentChannel.cpp.
use velox_project.Prelude.{
  ℕ, List, ◌+◌, ap, ◌≡◌, ◌⊎◌, ◌↔◌, inl, inr, refl, sym, ◌∙◌, true, false, none, some, [], ◌∷◌, All,
  ◌==◌, if◌then◌else◌, Bool-cases,
}
use mathlib.Core.Bool.{true≢false}
use velox_project.Poller.{new_io_handle, read_event}
use velox_project.Reactor.Synced.{IsSynced}
use velox_project.Arbiter.{
  Agent, Connection, new_agent, eof, Arbiter, accept_all, run_actives, would_block, agent_of,
}
use velox_project.Arbiter.Accepting.{AllFresh, accept_all-IsSynced}
use velox_project.Arbiter.Steady.{Active, SomeGone, IsSteady}
use velox_project.Arbiter.Batch.{run_actives-none_iff}
use velox_project.Arbiter.Alive.{agent_of_here, agent_of_there}
use mathlib.Core.Option.{some-injective, none-ne-some}
use velox_project.Arbiter.Turn.{loop_turn, SomeReportGone, loop_turn-none_iff}
use velox_project.Examples.Reactor.{
  kernel, empty, empty-IsSynced, registered, registered-IsSynced, wait, wait_registered,
}

abbrev arbiter : Arbiter kernel
arbiter = record { loop = empty; live = λ p. false; rr_channels = [] }

abbrev connection : Connection
connection = record { handle = 3; connfd = 6 }

connection-AllFresh : AllFresh kernel arbiter (connection ∷ [])
unfolding empty kernel new_io_handle
connection-AllFresh = ((refl, λ p own. absurd (true≢false (sym own))), tt)

accept_all-IsSynced_example :
    let w = accept_all kernel arbiter (connection ∷ []) in
    IsSynced kernel w.loop
    × (w.rr_channels ≡ new_agent connection ∷ [])
    × All
        (λ conn. kernel.entry w.loop.kernel conn.connfd ≡ some (read_event, conn.handle))
        (connection ∷ [])
accept_all-IsSynced_example =
    accept_all-IsSynced kernel arbiter (connection ∷ []) empty-IsSynced connection-AllFresh

-- Two channels: nothing to read on the first, and the peer of the second has gone.
abbrev agent : ℕ → Agent
agent c = record { handle = c; fd = c + 3; notify = none }

abbrev two_channels : Arbiter kernel
two_channels = record {
  loop = empty;
  live = λ p. if p == 3 then true else p == 4;
  rr_channels = agent 3 ∷ agent 4 ∷ [];
}

abbrev batch : List Active
batch = (3, 1, would_block) ∷ (4, 17, eof) ∷ []

abbrev IsOne : ℕ → Type 0
IsOne c = (c ≡ 3) ⊎ (c ≡ 4)

quiet :
    (p : ℕ) (agents : List Agent) (a : Agent)
    → All (λ (b : Agent). b.notify ≡ none) agents
    → agent_of p agents ≡ some a
    → a.notify ≡ none
unfolding agent_of
quiet p [] a q e = absurd (none-ne-some a e)
quiet p (b ∷ agents) a (q, qs) e = elim (Bool-cases (b.handle == p)) [
  | inl t ↦
      ap (λ (x : Agent). x.notify) (sym (some-injective b a (sym (agent_of_here p b agents t) ∙ e)))
      ∙ q
  | inr f ↦ quiet p agents a qs (sym (agent_of_there p b agents f) ∙ e)
]

two_channels-IsSteady : IsSteady kernel IsOne two_channels
unfolding agent_of
two_channels-IsSteady = record {
  alive = λ c h. elim h [ inl e ↦ rw e refl | inr e ↦ rw e refl ];
  listed = λ c h. elim h [ inl e ↦ (agent 3, rw e refl) | inr e ↦ (agent 4, rw e refl) ];
  apart = λ p n a e en.
      absurd (none-ne-some n (sym (quiet p two_channels.rr_channels a (refl, (refl, tt)) e) ∙ en));
}

batch_verdict : (run_actives kernel two_channels batch ≡ none) ↔ SomeGone batch
batch_verdict =
    run_actives-none_iff kernel IsOne two_channels batch two_channels-IsSteady
      ((inl refl, λ made written m e. cc), ((inr refl, λ made written m e. cc), tt))

-- The end of file is met by a write to the IoHandle that it has destroyed.
eof_faults : run_actives kernel two_channels batch ≡ none
eof_faults = batch_verdict.1 (inr (inl (inr (refl, refl))))

-- One channel, for which epoll_wait reports that it is readable; its peer has closed the connection.
abbrev closed_channel : Arbiter kernel
closed_channel = record {
  loop = registered;
  live = λ p. p == 0;
  rr_channels = (record { handle = 0; fd = 5; notify = none }) ∷ [];
}

closed_channel-IsSteady : IsSteady kernel (λ c. c ≡ 0) closed_channel
unfolding agent_of
closed_channel-IsSteady = record {
  alive = λ c h. rw h refl;
  listed = λ c h. (record { handle = 0; fd = 5; notify = none }, rw h refl);
  apart = λ p n a e en.
      absurd (none-ne-some n (sym (quiet p closed_channel.rr_channels a (refl, tt) e) ∙ en));
}

loop_turn-none_iff_example :
    (loop_turn kernel wait closed_channel (λ c. eof) ≡ none)
    ↔ SomeReportGone kernel (λ c. c ≡ 0) (λ c. eof) ((1, 0) ∷ [])
loop_turn-none_iff_example =
    loop_turn-none_iff kernel (λ c. c ≡ 0) (λ c. eof) wait closed_channel ((1, 0) ∷ [])
      registered-IsSynced closed_channel-IsSteady wait_registered
      ((refl, λ made written m e. cc), tt)

turn_faults : loop_turn kernel wait closed_channel (λ c. eof) ≡ none
turn_faults = loop_turn-none_iff_example.1 (inl (inr (refl, refl)))
