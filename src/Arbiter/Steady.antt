-- ===== src/Arbiter/Steady.antt =====
-- src/veloxd/arbiter, the channels of a batch: the Arbiter that its callbacks need, and that a request leaves it so.
use velox_project.Prelude.{
  ℕ, ◌≡◌, ◌≢◌, ◌⊎◌, inl, inr, refl, sym, ap, ◌∙◌, Bool, true, false, Option, none, some, List, [],
  ◌∷◌, ◌==◌, if◌then◌else◌, Bool-cases, Option-cases,
}
use mathlib.Core.Option
use mathlib.Core.Option.{some-injective, none-ne-some}
use velox_project.Poller.{Epoll}
use velox_project.Reactor.Dispatch.{closes, reads}
use velox_project.Arbiter.{
  Agent, Made, Input, eof, request, agent_of, set_notify, Arbiter, with_endpoint, on_read_ready,
}
use velox_project.Arbiter.Alive.{with_endpoint-live, with_endpoint-rr_channels}

-- A channel's IoHandle, its events, and what a `read` gives.
abbrev pub Active : Type 0
Active = ℕ × ℕ × Input

-- The peer has gone: a close event, or a read that meets the end of file.
abbrev pub HasGone : Active → Type 0
HasGone (c, revents, input) = (closes revents ≡ true) ⊎ ((reads revents ≡ true) × (input ≡ eof))

abbrev pub SomeGone : List Active → Type 0
SomeGone [] = ⊥
SomeGone (x ∷ actives) = HasGone x ⊎ SomeGone actives

renotified : ℕ → ℕ → Agent → Agent
renotified c n a = if a.handle == c then record a { notify = some n } else a

agent_of-set_notify :
    (p c n : ℕ) (agents : List Agent)
    → agent_of p (set_notify c n agents) ≡ Option.map (renotified c n) (agent_of p agents)
unfolding agent_of set_notify renotified
agent_of-set_notify p c n [] = refl
agent_of-set_notify p c n (a ∷ agents) = elim (Bool-cases (a.handle == c)) [
  | inl t ↦ (elim (Bool-cases (a.handle == p)) [
    | inl u ↦ rw (t, u, agent_of) (rw t refl)
    | inr f ↦ rw (t, f, agent_of) (agent_of-set_notify p c n agents)
  ])
  | inr g ↦ (elim (Bool-cases (a.handle == p)) [
    | inl u ↦ rw (g, u, agent_of) (rw g refl)
    | inr f ↦ rw (g, f, agent_of) (agent_of-set_notify p c n agents)
  ])
]

module _ (E : Epoll) (P : ℕ → Type 0) where
  -- The channels at the addresses of P are alive and in the list, and no Endpoint's IoHandle is at one of them.
  pub record IsSteady (w : Arbiter E) : Type 0 where
    pub alive : (c : ℕ) → P c → w.live c ≡ true
    pub listed : (c : ℕ) → P c → (a : Agent) × (agent_of c w.rr_channels ≡ some a)
    pub apart :
        (p n : ℕ) (a : Agent)
        → agent_of p w.rr_channels ≡ some a
        → a.notify ≡ some n
        → (c : ℕ) → P c
        → c ≢ n

  -- The channel is one of them, and a request's new Endpoint is at none of them.
  abbrev pub IsApart : Active → Type 0
  IsApart (c, revents, input) =
      P c
      × ((made : Option Made) (written : Bool) (m : Made)
          → input ≡ request made written
          → made ≡ some m
          → (p : ℕ) → P p
          → p ≢ m.notify)

  renotified_apart :
      (w : Arbiter E) (c p n : ℕ) (m : Made) (a b : Agent)
      → ((p : ℕ) → P p → p ≢ m.notify)
      → IsSteady w
      → agent_of p w.rr_channels ≡ some b
      → renotified c m.notify b ≡ a
      → a.notify ≡ some n
      → (q : ℕ) → P q
      → q ≢ n
  unfolding renotified
  renotified_apart w c p n m a b new v e r en q hq = elim (Bool-cases (b.handle == c)) [
    | inl t ↦
        (let here : some m.notify ≡ some n =
            sym (ap (λ b'. (if b' then record b { notify = some m.notify } else b).notify) t)
            ∙ ap (λ (x : Agent). x.notify) r
            ∙ en in
          λ q_n. new q hq (q_n ∙ sym (some-injective m.notify n here)))
    | inr f ↦
        v.apart p n b e
          (sym (ap (λ b'. (if b' then record b { notify = some m.notify } else b).notify) f)
            ∙ ap (λ (x : Agent). x.notify) r
            ∙ en)
          q hq
  ]

  with_endpoint-IsSteady :
      (w : Arbiter E) (c : ℕ) (made : Option Made)
      → P c
      → ((m : Made) → made ≡ some m → (p : ℕ) → P p → p ≢ m.notify)
      → IsSteady w
      → IsSteady (with_endpoint E w c made)
  unfolding with_endpoint
  with_endpoint-IsSteady w c none hc new v = v
  with_endpoint-IsSteady w c (some m) hc new v = record {
    alive = λ p hp.
        with_endpoint-live E w p c (v.listed c hc).0 (some m) (v.listed c hc).1
          (λ n en. v.apart c n (v.listed c hc).0 (v.listed c hc).1 en p hp)
          (λ m' em. new m' em p hp)
        ∙ v.alive p hp;
    listed = λ p hp. (
      renotified c m.notify (v.listed p hp).0,
      ap (agent_of p) (with_endpoint-rr_channels E w c m)
          ∙ agent_of-set_notify p c m.notify w.rr_channels
          ∙ ap (Option.map (renotified c m.notify)) (v.listed p hp).1,
    );
    apart = λ p n a e en.
        let e' : Option.map (renotified c m.notify) (agent_of p w.rr_channels) ≡ some a =
          sym (agent_of-set_notify p c m.notify w.rr_channels)
          ∙ ap (agent_of p) (sym (with_endpoint-rr_channels E w c m))
          ∙ e in
        elim (Option-cases (agent_of p w.rr_channels)) [
          | inl none_there ↦
              absurd
                (none-ne-some a (sym (ap (Option.map (renotified c m.notify)) none_there) ∙ e'))
          | inr (b, some_there) ↦
              renotified_apart w c p n m a b (new m refl) v some_there
                (some-injective _ a (sym (ap (Option.map (renotified c m.notify)) some_there) ∙ e'))
                en
        ];
  }

  pub on_read_ready-IsSteady :
      (w : Arbiter E) (c : ℕ) (made : Option Made) (written : Bool)
      → P c
      → ((m : Made) → made ≡ some m → (p : ℕ) → P p → p ≢ m.notify)
      → IsSteady w
      → IsSteady (on_read_ready E w c (request made written))
  unfolding on_read_ready
  on_read_ready-IsSteady w c made true hc new v = with_endpoint-IsSteady w c made hc new v
  on_read_ready-IsSteady w c made false hc new v =
      let v' = with_endpoint-IsSteady w c made hc new v in
      record { alive = v'.alive; listed = v'.listed; apart = v'.apart }
