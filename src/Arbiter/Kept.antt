-- ===== src/Arbiter/Kept.antt =====
-- src/veloxd/arbiter/agent/AgentChannel.cpp: a request leaves the events that other channels have received.
use velox_project.Prelude.{ℕ, ◌≡◌, ◌≢◌, refl, ap, sym, ◌∙◌, Bool, true, false, Option, none, some}
use velox_project.Poller.{Epoll, IoHandle}
use velox_project.Reactor.Received.{
  new_handle-other, register-other, destroy-other, unregister_self-received,
}
use velox_project.Arbiter.{
  Made, request, agent_of, set_notify, Arbiter, set_live, new_reading_handle, destroy_handle,
  destroy_notify, register, notify_of, with_endpoint, on_read_ready,
}
use velox_project.Arbiter.Steady.{IsSteady}

module _ (E : Epoll) (P : ℕ → Type 0) where
  abbrev pub received : Arbiter E → ℕ → ℕ
  received w q = (w.loop.handles q).events_received

  -- What the channels at the addresses of P have received is the same.
  abbrev pub Keeps : Arbiter E → Arbiter E → Type 0
  Keeps w w' = (q : ℕ) → P q → received w' q ≡ received w q

  destroy_notify-other :
      (w : Arbiter E) (o : Option ℕ) (q : ℕ)
      → ((n : ℕ) → o ≡ some n → q ≢ n)
      → (destroy_notify E w o).loop.handles q ≡ w.loop.handles q
  unfolding destroy_notify destroy_handle set_live
  destroy_notify-other w none q other = refl
  destroy_notify-other w (some n) q other = destroy-other E w.loop n q (other n refl)

  with_endpoint-Keeps :
      (w : Arbiter E) (c : ℕ) (made : Option Made)
      → P c
      → ((m : Made) → made ≡ some m → (p : ℕ) → P p → p ≢ m.notify)
      → IsSteady E P w
      → Keeps w (with_endpoint E w c made)
  unfolding with_endpoint register new_reading_handle set_live notify_of
  with_endpoint-Keeps w c none hc new v q hq = refl
  with_endpoint-Keeps w c (some m) hc new v q hq =
      let ne = new m refl q hq in
      let (a, here) = v.listed c hc in
      let w' = new_reading_handle E w m.notify m.pipe_fd in
      let w'' : Arbiter E = record w' { rr_channels = set_notify c m.notify w.rr_channels } in
      let gone = destroy_notify E w'' (notify_of E (agent_of c w.rr_channels)) in
      let old : (n : ℕ) → notify_of E (agent_of c w.rr_channels) ≡ some n → q ≢ n =
        λ n e. v.apart c n a here (sym (ap (notify_of E) here) ∙ e) q hq in
      ap (λ (h : IoHandle). h.events_received)
        (register-other E gone.loop m.notify q ne
          ∙ destroy_notify-other w'' (notify_of E (agent_of c w.rr_channels)) q old
          ∙ new_handle-other E w.loop m.notify m.pipe_fd q ne)

  pub on_read_ready-Keeps :
      (w : Arbiter E) (c : ℕ) (made : Option Made) (written : Bool)
      → P c
      → ((m : Made) → made ≡ some m → (p : ℕ) → P p → p ≢ m.notify)
      → IsSteady E P w
      → Keeps w (on_read_ready E w c (request made written))
  unfolding on_read_ready
  on_read_ready-Keeps w c made true hc new v q hq = with_endpoint-Keeps w c made hc new v q hq
  on_read_ready-Keeps w c made false hc new v q hq =
      unregister_self-received E (with_endpoint E w c made).loop c q
      ∙ with_endpoint-Keeps w c made hc new v q hq
