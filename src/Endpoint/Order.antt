-- ===== src/Endpoint/Order.antt =====
-- src/veloxd/arbiter/Endpoint.cpp: the receive queue keeps the order of the packets, and its bound.
use velox_project.Prelude.{
  ℕ, ◌+◌, ◌≤◌, ◌≡◌, refl, ap, sym, subst, ◌∙◌, Bool, List, [], ◌∷◌, ◌++◌, arith, length,
  length-append, inl, inr,
}
use mathlib.Core.List.{append_assoc}
use velox_project.Endpoint.Queue.{mark_cases, take_some, idle_of_call_back, calls_of_call_back}
use velox_project.Endpoint.{
  Endpoint, EndpointType, Received, new_endpoint, set_waiting, set_on_async_new_packet_cb,
  recv_q_limit, mark_s_channel_as_readable, drain_pipe,
}
use velox_project.Endpoint.Threads.{
  State, start, Step, arrives, writes, takes, finds_nothing, gives_up, waits, drains, is_idle,
  calls, Reach, here, next, arrive_cases,
}

module _ (size_approx : List Received → ℕ) (capacity : ℕ) where
  -- What has been accepted is what has been delivered and what is queued.
  abbrev pub IsFifo : State → Type 0
  IsFifo s = s.accepted ≡ s.delivered ++ s.endpoint.recv_q

  pub mark-recv_q : (e : Endpoint) → (mark_s_channel_as_readable capacity e).recv_q ≡ e.recv_q
  mark-recv_q e = elim (mark_cases capacity e) [
    | inl w ↦ ap (λ x. x.recv_q) w
    | inr (_, w) ↦ ap (λ x. x.recv_q) w
  ]

  deliver_next :
      (all out q q' : List Received) (r : Received)
      → all ≡ out ++ q
      → q ≡ r ∷ q'
      → all ≡ (out ++ (r ∷ [])) ++ q'
  deliver_next all out q q' r h e = h ∙ (ap (λ x. out ++ x) e ∙ sym (append_assoc out (r ∷ []) q'))

  Step-IsFifo : {s t : State} → Step size_approx capacity s t → IsFifo s → IsFifo t
  unfolding set_waiting set_on_async_new_packet_cb drain_pipe
  Step-IsFifo (arrives s r) h = elim (arrive_cases size_approx capacity s r) [
    | inl (_, e) ↦ subst IsFifo (sym e) h
    | inr (_, e) ↦
        subst IsFifo (sym e)
          (ap (λ x. x ++ (r ∷ [])) h ∙ append_assoc s.delivered s.endpoint.recv_q (r ∷ []))
  ]
  Step-IsFifo (writes s m) h = h ∙ ap (λ x. s.delivered ++ x) (sym (mark-recv_q s.endpoint))
  Step-IsFifo (takes s e r p t) h = deliver_next _ _ _ _ r h (take_some s.endpoint e r t).0
  Step-IsFifo (finds_nothing s p t) h = h
  Step-IsFifo (gives_up s p) h = h
  Step-IsFifo (waits s cb p) h = h
  Step-IsFifo (drains s p n) h = h
  Step-IsFifo (is_idle s e p c) h =
      h ∙ ap (λ x. s.delivered ++ x) (sym (idle_of_call_back s.endpoint e c).1)
  Step-IsFifo (calls s e cb r p c) h =
      deliver_next _ _ _ _ r h (calls_of_call_back s.endpoint e cb r c).1

  -- In any interleaving the packets that the queue accepted come out in that order, none twice
  -- and none left out, but for those that it still holds.
  pub Reach-IsFifo :
      (t : EndpointType) (nonblocking : Bool) {s : State}
      → Reach size_approx capacity (start t nonblocking) s
      → IsFifo s
  unfolding start new_endpoint
  Reach-IsFifo t nonblocking here = refl
  Reach-IsFifo t nonblocking (next r st) = Step-IsFifo st (Reach-IsFifo t nonblocking r)

  Step-length :
      ((q : List Received) → length q ≤ size_approx q)
      → {s t : State} → Step size_approx capacity s t
      → length s.endpoint.recv_q ≤ recv_q_limit + 1
      → length t.endpoint.recv_q ≤ recv_q_limit + 1
  unfolding set_waiting set_on_async_new_packet_cb drain_pipe
  Step-length exact (arrives s r) h = elim (arrive_cases size_approx capacity s r) [
    | inl (_, e) ↦ subst (λ (t : State). length t.endpoint.recv_q ≤ recv_q_limit + 1) (sym e) h
    | inr (le, e) ↦
        subst (λ (t : State). length t.endpoint.recv_q ≤ recv_q_limit + 1) (sym e)
          (omega (arith, length-append s.endpoint.recv_q (r ∷ []), exact s.endpoint.recv_q))
  ]
  Step-length exact (writes s m) h = omega (arith, ap length (mark-recv_q s.endpoint))
  Step-length exact (takes s e r p t) h = omega (arith, ap length (take_some s.endpoint e r t).0)
  Step-length exact (finds_nothing s p t) h = h
  Step-length exact (gives_up s p) h = h
  Step-length exact (waits s cb p) h = h
  Step-length exact (drains s p n) h = h
  Step-length exact (is_idle s e p c) h =
      omega (arith, ap length (idle_of_call_back s.endpoint e c).1)
  Step-length exact (calls s e cb r p c) h =
      omega (arith, ap length (calls_of_call_back s.endpoint e cb r c).1)

  -- The queue never holds more than 129 packets, one more than its limit, if `size_approx` does
  -- not answer less than its length.
  pub Reach-length :
      ((q : List Received) → length q ≤ size_approx q)
      → (t : EndpointType) (nonblocking : Bool) {s : State}
      → Reach size_approx capacity (start t nonblocking) s
      → length s.endpoint.recv_q ≤ 129
  unfolding start new_endpoint
  Reach-length exact t nonblocking here = omega arith
  Reach-length exact t nonblocking (next r st) =
      Step-length exact st (Reach-length exact t nonblocking r)
