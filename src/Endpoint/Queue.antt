-- ===== src/Endpoint/Queue.antt =====
-- src/veloxd/arbiter/Endpoint.cpp: what each step does to the queue and the pipe.
use velox_project.Prelude.{
  ap, ℕ, ◌+◌, ◌≤◌, ◌≡◌, ◌⊎◌, inl, inr, refl, sym, subst, Bool, true, false, Option, none, some,
  List, [], ◌∷◌, arith, ltb, if◌then◌else◌, Bool-cases,
}
use mathlib.Core.Option.{some-injective}
use velox_project.Endpoint.{
  Endpoint, Callback, Received, recv_q_limit, enqueue, put_to_recv_q, drain_pipe, s_channel_read_cb,
  mark_s_channel_as_readable, take_front, try_take_from_recv_q, ReadCb, idle, calls_back, blocks,
  run_callback, call_back,
}

pub mark_cases :
    (capacity : ℕ) (e : Endpoint)
    → (mark_s_channel_as_readable capacity e
        ≡ record e { new_packet_notify_pipe = e.new_packet_notify_pipe + 1 })
      ⊎ ((capacity ≤ e.new_packet_notify_pipe) × (mark_s_channel_as_readable capacity e ≡ e))
unfolding mark_s_channel_as_readable
mark_cases capacity e = elim (Bool-cases (ltb e.new_packet_notify_pipe capacity)) [
  | inl t ↦ inl (rw t refl)
  | inr n ↦ inr (ground arith, rw n refl)
]

take_front-some :
    (e e' : Endpoint) (r : Received) (q : List Received)
    → take_front e q ≡ some (e', r)
    → (q ≡ r ∷ e'.recv_q) × (e' ≡ record e { recv_q = e'.recv_q })
unfolding take_front
take_front-some e e' r [] h = cc
take_front-some e e' r (x ∷ rest) h =
    subst
      (λ (p : Endpoint × Received).
        ((x ∷ rest) ≡ p.1 ∷ p.0.recv_q) × (p.0 ≡ record e { recv_q = p.0.recv_q }))
      (some-injective (record e { recv_q = rest }, x) (e', r) h) (refl, refl)

pub take_some :
    (e e' : Endpoint) (r : Received)
    → try_take_from_recv_q e ≡ some (e', r)
    → (e.recv_q ≡ r ∷ e'.recv_q) × (e' ≡ record e { recv_q = e'.recv_q })
unfolding try_take_from_recv_q
take_some e e' r h = take_front-some e e' r e.recv_q h

take_front-none : (e : Endpoint) (q : List Received) → take_front e q ≡ none → q ≡ []
unfolding take_front
take_front-none e [] h = refl
take_front-none e (x ∷ rest) h = cc

pub take_none : (e : Endpoint) → try_take_from_recv_q e ≡ none → e.recv_q ≡ []
unfolding try_take_from_recv_q
take_none e h = take_front-none e e.recv_q h

-- What `sChannelReadCb` may do behind its read loop.
RunsTo : Endpoint → ReadCb → Type 0
RunsTo e (idle e') = (e'.waiting ≡ false) × (e'.recv_q ≡ e.recv_q)
RunsTo e (calls_back e' cb r) = (e'.waiting ≡ false) × (e.recv_q ≡ r ∷ e'.recv_q)
RunsTo e blocks = (e.waiting ≡ true) × (e.recv_q ≡ [])

run_callback-RunsTo :
    (e : Endpoint) (cb : Option Callback) (taken : Option (Endpoint × Received))
    → e.waiting ≡ true
    → try_take_from_recv_q e ≡ taken
    → RunsTo e (run_callback e cb taken)
unfolding run_callback RunsTo
run_callback-RunsTo e none taken w t = (refl, refl)
run_callback-RunsTo e (some cb) none w t = (w, take_none e t)
run_callback-RunsTo e (some cb) (some (e', r)) w t = (refl, (take_some e e' r t).0)

call_back-RunsTo : (e : Endpoint) → RunsTo e (call_back e)
unfolding call_back RunsTo
call_back-RunsTo e = elim (Bool-cases e.waiting) [
  | inl t ↦
      chosen (sym t) (run_callback-RunsTo e e.on_async_new_packet (try_take_from_recv_q e) t refl)
  | inr n ↦ chosen (sym n) (n, refl)
]
  where
    chosen :
        {b : Bool}
        → b ≡ e.waiting
        → RunsTo e
            (if b then run_callback e e.on_async_new_packet (try_take_from_recv_q e) else idle e)
        → RunsTo e (call_back e)
    chosen eq h =
        subst
          (λ b.
            RunsTo e
              (if b then run_callback e e.on_async_new_packet (try_take_from_recv_q e) else idle e))
          eq h

pub idle_of_call_back :
    (e e' : Endpoint) → call_back e ≡ idle e' → (e'.waiting ≡ false) × (e'.recv_q ≡ e.recv_q)
unfolding RunsTo
idle_of_call_back e e' h = subst (RunsTo e) h (call_back-RunsTo e)

pub calls_of_call_back :
    (e e' : Endpoint) (cb : Callback) (r : Received)
    → call_back e ≡ calls_back e' cb r
    → (e'.waiting ≡ false) × (e.recv_q ≡ r ∷ e'.recv_q)
unfolding RunsTo
calls_of_call_back e e' cb r h = subst (RunsTo e) h (call_back-RunsTo e)

pub take_nothing : (e : Endpoint) → e.recv_q ≡ [] → try_take_from_recv_q e ≡ none
unfolding try_take_from_recv_q take_front
take_nothing e h = ap (take_front e) h

-- A packet for an empty queue that is waited for, and the callback behind it.
pub calls_for_first :
    (size_approx : List Received → ℕ) (capacity : ℕ) (e : Endpoint) (cb : Callback) (r : Received)
    → size_approx [] ≤ recv_q_limit
    → s_channel_read_cb (
        put_to_recv_q size_approx capacity
          (record e { waiting = true; on_async_new_packet = some cb; recv_q = [] })
          r)
      ≡ calls_back
          (record e {
            new_packet_notify_pipe = 0;
            waiting = false;
            on_async_new_packet = some cb;
            recv_q = [];
          })
          cb
          r
unfolding s_channel_read_cb put_to_recv_q enqueue call_back drain_pipe run_callback
    try_take_from_recv_q take_front mark_s_channel_as_readable
calls_for_first size_approx capacity e cb r fits =
    rw (not_full) (elim (Bool-cases (ltb e.new_packet_notify_pipe capacity)) [
      | inl t ↦ rw t refl
      | inr n ↦ rw n refl
    ])
  where
    not_full : ltb recv_q_limit (size_approx []) ≡ false
    not_full = ground arith
