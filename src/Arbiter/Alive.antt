-- ===== src/Arbiter/Alive.antt =====
-- src/veloxd/arbiter/agent: which IoHandles are alive and which channels are listed behind the operations of a channel.
use velox_project.Prelude.{
  ℕ, ◌≡◌, ◌≢◌, inl, inr, refl, sym, ap, ◌∙◌, true, false, Option, none, some, List, [], ◌∷◌, ◌==◌,
  if◌then◌else◌, Bool-cases, ==_iff,
}
use mathlib.Core.Option.{some-injective, none-ne-some}
use velox_project.Reactor.Synced.{test_of_ne}
use velox_project.Poller.{Epoll}
use velox_project.Reactor.Dispatch.{Event}
use velox_project.Arbiter.{
  Agent, Made, Input, agent_of, Arbiter, remove_rr_channel, with_endpoint, run_events, set_live,
  destroy_handle, destroy_agent, destroy_notify, notify_of, set_notify, new_reading_handle,
  register,
}

pub agent_of_here :
    (c : ℕ) (b : Agent) (agents : List Agent)
    → (b.handle == c) ≡ true
    → agent_of c (b ∷ agents) ≡ some b
unfolding agent_of
agent_of_here c b agents t = rw t refl

pub agent_of_there :
    (c : ℕ) (b : Agent) (agents : List Agent)
    → (b.handle == c) ≡ false
    → agent_of c (b ∷ agents) ≡ agent_of c agents
unfolding agent_of
agent_of_there c b agents n = rw n refl

pub agent_of-handle :
    (c : ℕ) (agents : List Agent) (a : Agent) → agent_of c agents ≡ some a → a.handle ≡ c
unfolding agent_of
agent_of-handle c [] a e = absurd (none-ne-some a e)
agent_of-handle c (b ∷ agents) a e = elim (Bool-cases (b.handle == c)) [
  | inl t ↦
      ap (λ (x : Agent). x.handle) (sym (some-injective b a (sym (agent_of_here c b agents t) ∙ e)))
      ∙ (==_iff b.handle c).0 t
  | inr n ↦ agent_of-handle c agents a (sym (agent_of_there c b agents n) ∙ e)
]

module _ (E : Epoll) where
  pub run_events_dead :
      (w : Arbiter E) (c : ℕ) (input : Input) (events : List Event)
      → w.live c ≡ false
      → run_events E w c input events ≡ none
  unfolding run_events
  run_events_dead w c input [] dead = rw dead refl
  run_events_dead w c input (e ∷ events) dead = rw dead refl

  pub remove_rr_channel-live :
      (w : Arbiter E) (c : ℕ) (a : Agent)
      → agent_of c w.rr_channels ≡ some a
      → (remove_rr_channel E w c).live c ≡ false
  unfolding remove_rr_channel destroy_agent destroy_handle set_live
  remove_rr_channel-live w c a e =
      let same : (c == a.handle) ≡ true =
        (==_iff c a.handle).1 (sym (agent_of-handle c w.rr_channels a e)) in
      rw (e, same) refl

  destroy_notify-live :
      (w : Arbiter E) (c : ℕ) (o : Option ℕ)
      → ((n : ℕ) → o ≡ some n → c ≢ n)
      → (destroy_notify E w o).live c ≡ w.live c
  unfolding destroy_notify destroy_handle set_live
  destroy_notify-live w c none other = refl
  destroy_notify-live w c (some n) other =
      ap (λ b. if b then false else w.live c) (test_of_ne c n (other n refl))

  destroy_notify-rr_channels :
      (w : Arbiter E) (o : Option ℕ) → (destroy_notify E w o).rr_channels ≡ w.rr_channels
  unfolding destroy_notify destroy_handle set_live
  destroy_notify-rr_channels w none = refl
  destroy_notify-rr_channels w (some n) = refl

  pub with_endpoint-rr_channels :
      (w : Arbiter E) (c : ℕ) (m : Made)
      → (with_endpoint E w c (some m)).rr_channels ≡ set_notify c m.notify w.rr_channels
  unfolding with_endpoint register new_reading_handle set_live
  with_endpoint-rr_channels w c m =
      destroy_notify-rr_channels _ (notify_of E (agent_of c w.rr_channels))

  pub with_endpoint-live :
      (w : Arbiter E) (p c : ℕ) (a : Agent) (made : Option Made)
      → agent_of c w.rr_channels ≡ some a
      → ((n : ℕ) → a.notify ≡ some n → p ≢ n)
      → ((m : Made) → made ≡ some m → p ≢ m.notify)
      → (with_endpoint E w c made).live p ≡ w.live p
  unfolding with_endpoint register new_reading_handle set_live notify_of
  with_endpoint-live w p c a none e old new = refl
  with_endpoint-live w p c a (some m) e old new =
      destroy_notify-live _ p (notify_of E (agent_of c w.rr_channels))
        (λ n q. old n (sym (ap (notify_of E) e) ∙ q))
      ∙ ap (λ b. if b then true else w.live p) (test_of_ne p m.notify (new m refl))
