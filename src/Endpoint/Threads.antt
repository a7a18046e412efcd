-- ===== src/Endpoint/Threads.antt =====
-- src/veloxd/arbiter/Endpoint.cpp and RpcDispatch.cpp, `recvfromCall`: the thread that receives
-- packets beside the thread of the event loop. A step is what one of them does without the other
-- seeing anything in between.
use velox_project.Prelude.{
  ℕ, ◌+◌, ◌-◌, ◌≤◌, ◌<◌, ◌≡◌, refl, Bool, true, none, some, List, [], ◌∷◌, ◌++◌, arith, ltb,
  if◌then◌else◌, Bool-cases, ◌⊎◌, inl, inr,
}
use velox_project.Endpoint.{
  Endpoint, EndpointType, Callback, Received, new_endpoint, set_waiting, set_on_async_new_packet_cb,
  recv_q_limit, enqueue, mark_s_channel_as_readable, try_take_from_recv_q, drain_pipe, idle,
  calls_back, call_back,
}

-- Where the event loop is: between two callbacks, behind an empty `try_takeFromRecvQ` in
-- `recvfromCall`, or in `sChannelReadCb` behind its read loop.
pub data Phase : Type 0 where
  at_rest checked drained : Phase

-- `marks` counts the packets that are in the queue while their byte is not yet written.
-- `accepted` and `delivered` remember what went into the queue and what came out.
pub record State : Type 0 where
  pub endpoint : Endpoint
  pub marks : ℕ
  pub phase : Phase
  pub accepted : List Received
  pub delivered : List Received

unfoldable pub start : EndpointType → Bool → State
unfolding new_endpoint
start t nonblocking = record {
  endpoint = new_endpoint t nonblocking;
  marks = 0;
  phase = at_rest;
  accepted = [];
  delivered = [];
}

module _ (size_approx : List Received → ℕ) (capacity : ℕ) where
  unfoldable pub arrive : State → Received → State
  unfolding enqueue
  arrive s r =
      let (e, marks) = enqueue size_approx s.endpoint r in
      if marks
      then record s { endpoint = e; marks = s.marks + 1; accepted = s.accepted ++ (r ∷ []) }
      else s

  pub data Step : State → State → Type 0 where
    arrives : (s : State) (r : Received) → Step s (arrive s r)
    writes :
        (s : State)
        → 0 < s.marks
        → Step s (record s {
          endpoint = mark_s_channel_as_readable capacity s.endpoint;
          marks = s.marks - 1;
        })
    takes :
        (s : State) (e : Endpoint) (r : Received)
        → s.phase ≡ at_rest
        → try_take_from_recv_q s.endpoint ≡ some (e, r)
        → Step s (record s { endpoint = e; delivered = s.delivered ++ (r ∷ []) })
    finds_nothing :
        (s : State)
        → s.phase ≡ at_rest
        → try_take_from_recv_q s.endpoint ≡ none
        → Step s (record s { phase = checked })
    gives_up : (s : State) → s.phase ≡ checked → Step s (record s { phase = at_rest })
    waits :
        (s : State) (cb : Callback)
        → s.phase ≡ checked
        → Step s (record s {
          endpoint = set_waiting (set_on_async_new_packet_cb s.endpoint cb) true;
          phase = at_rest;
        })
    drains :
        (s : State)
        → s.phase ≡ at_rest
        → 0 < s.endpoint.new_packet_notify_pipe
        → Step s (record s { endpoint = drain_pipe s.endpoint; phase = drained })
    is_idle :
        (s : State) (e : Endpoint)
        → s.phase ≡ drained
        → call_back s.endpoint ≡ idle e
        → Step s (record s { endpoint = e; phase = at_rest })
    calls :
        (s : State) (e : Endpoint) (cb : Callback) (r : Received)
        → s.phase ≡ drained
        → call_back s.endpoint ≡ calls_back e cb r
        → Step s (record s { endpoint = e; phase = at_rest; delivered = s.delivered ++ (r ∷ []) })

  pub data Reach (s : State) : State → Type 0 where
    here : Reach s s
    next : {t u : State} → Reach s t → Step t u → Reach s u

  -- The state behind an arrival that is not dropped.
  abbrev pub accept : State → Received → State
  accept s r =
      let e = s.endpoint in
      record s {
        endpoint = record e { recv_q = e.recv_q ++ (r ∷ []) };
        marks = s.marks + 1;
        accepted = s.accepted ++ (r ∷ []);
      }

  pub arrive_cases :
      (s : State) (r : Received)
      → ((recv_q_limit < size_approx s.endpoint.recv_q) × (arrive s r ≡ s))
        ⊎ ((size_approx s.endpoint.recv_q ≤ recv_q_limit) × (arrive s r ≡ accept s r))
  unfolding arrive enqueue
  arrive_cases s r = elim (Bool-cases (ltb recv_q_limit (size_approx s.endpoint.recv_q))) [
    | inl t ↦ inl (ground arith, rw t refl)
    | inr n ↦ inr (ground arith, rw n refl)
  ]
