-- ===== src/Endpoint/Wakeup.antt =====
-- src/veloxd/arbiter/Endpoint.cpp: no packet that a receive waits for is left without a wake-up.
use velox_project.Prelude.{
  ℕ, ◌+◌, ◌-◌, ◌<◌, ◌≡◌, ◌≢◌, refl, ap, sym, subst, Bool, true, false, none, List, [], ◌∷◌, ◌++◌,
  arith, length, ◌⊎◌, inl, inr,
}
use velox_project.Endpoint.Queue.{
  mark_cases, take_some, take_none, idle_of_call_back, calls_of_call_back,
}
use velox_project.Endpoint.{
  Endpoint, EndpointType, Received, new_endpoint, set_waiting, set_on_async_new_packet_cb,
  drain_pipe,
}
use velox_project.Endpoint.Threads.{
  at_rest, checked, drained, State, start, Step, arrives, writes, takes, finds_nothing, gives_up,
  waits, drains, is_idle, calls, Reach, here, next, arrive_cases,
}

module _ (size_approx : List Received → ℕ) (capacity : ℕ) where
  -- A packet in the queue that is waited for has its byte in the pipe, or on its way.
  abbrev pub IsAwake : State → Type 0
  IsAwake s =
      (s.endpoint.waiting ≡ true → s.endpoint.on_async_new_packet ≢ none)
      × (s.phase ≢ drained
          → (s.endpoint.waiting ≡ true) ⊎ (s.phase ≡ checked)
          → 0 < length s.endpoint.recv_q
          → 0 < s.endpoint.new_packet_notify_pipe + s.marks)

  not_waiting : (e : Endpoint) → e.waiting ≡ false → ¬ ((e.waiting ≡ true) ⊎ (at_rest ≡ checked))
  not_waiting e off (inl t) = cc
  not_waiting e off (inr p) = cc

  Step-IsAwake :
      (0 < capacity) → {s t : State} → Step size_approx capacity s t → IsAwake s → IsAwake t
  unfolding set_waiting set_on_async_new_packet_cb drain_pipe
  Step-IsAwake pos (arrives s r) h = elim (arrive_cases size_approx capacity s r) [
    | inl (_, e) ↦ subst IsAwake (sym e) h
    | inr (_, e) ↦ subst IsAwake (sym e) (h.0, λ p w l. omega arith)
  ]
  Step-IsAwake pos (writes s m) h = elim (mark_cases capacity s.endpoint) [
    | inl e ↦
        subst (λ x. IsAwake (record s { endpoint = x; marks = s.marks - 1 })) (sym e)
          (h.0, λ p w l. omega arith)
    | inr (full, e) ↦
        subst (λ x. IsAwake (record s { endpoint = x; marks = s.marks - 1 })) (sym e)
          (h.0, λ p w l. omega arith)
  ]
  Step-IsAwake pos (takes s e r p t) h =
      let (front, rest) = take_some s.endpoint e r t in
      subst (λ x. IsAwake (record s { endpoint = x; delivered = s.delivered ++ (r ∷ []) }))
        (sym rest) (h.0, λ np w l. h.1 np w (omega (arith, ap length front)))
  Step-IsAwake pos (finds_nothing s p t) h =
      (h.0, λ np w l. omega (arith, ap length (take_none s.endpoint t)))
  Step-IsAwake pos (gives_up s p) h = (h.0, λ np w l. h.1 (λ d. cc) (inr p) l)
  Step-IsAwake pos (waits s cb p) h = ((λ w e. cc), λ np w l. h.1 (λ d. cc) (inr p) l)
  Step-IsAwake pos (drains s p n) h = (h.0, λ np w l. absurd (np refl))
  Step-IsAwake pos (is_idle s e p c) h =
      let off = (idle_of_call_back s.endpoint e c).0 in
      ((λ w n. cc), λ np w l. absurd (not_waiting e off w))
  Step-IsAwake pos (calls s e cb r p c) h =
      let off = (calls_of_call_back s.endpoint e cb r c).0 in
      ((λ w n. cc), λ np w l. absurd (not_waiting e off w))

  start-IsAwake : (t : EndpointType) (nonblocking : Bool) → IsAwake (start t nonblocking)
  unfolding start new_endpoint
  start-IsAwake t nonblocking = ((λ w n. cc), λ np w l. absurd (omega arith))

  -- While a blocked receive is waited for, or about to be, in any interleaving of the two threads, a packet in the queue
  -- has its byte in the pipe or is about to write it, so that the event loop comes to it, but for the moment
  -- in which `sChannelReadCb` has emptied the pipe and not yet looked at the queue; and a callback is set. The pipe has room
  -- for at least one byte.
  pub Reach-IsAwake :
      (0 < capacity)
      → (t : EndpointType) (nonblocking : Bool) {s : State}
      → Reach size_approx capacity (start t nonblocking) s
      → IsAwake s
  Reach-IsAwake pos t nonblocking here = start-IsAwake t nonblocking
  Reach-IsAwake pos t nonblocking (next r st) =
      Step-IsAwake pos st (Reach-IsAwake pos t nonblocking r)
