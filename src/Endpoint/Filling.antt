-- ===== src/Endpoint/Filling.antt =====
-- src/veloxd/arbiter/Endpoint.cpp, `putToRecvQ`: what becomes of the queue.
use velox_project.Prelude.{
  ℕ, ◌≤◌, ◌<◌, ◌≡◌, ◌⊎◌, inl, inr, refl, true, false, List, [], ◌∷◌, ◌++◌, arith, ltb, Bool-cases,
}
use velox_project.Endpoint.{Endpoint, Received, recv_q_limit, enqueue, put_to_recv_q}
use velox_project.Endpoint.Order.{mark-recv_q}

-- The queue behind a packet: with the packet at its end, or unchanged beyond the limit.
abbrev pub Takes : (List Received → ℕ) → List Received → Received → List Received → Type 0
Takes size_approx q r q' =
    ((size_approx q ≤ recv_q_limit) × (q' ≡ q ++ (r ∷ [])))
    ⊎ ((recv_q_limit < size_approx q) × (q' ≡ q))

module _ (size_approx : List Received → ℕ) (capacity : ℕ) where
  -- Up to the limit the packet goes behind the others.
  pub put_to_recv_q-room :
      (e : Endpoint) (r : Received)
      → size_approx e.recv_q ≤ recv_q_limit
      → (put_to_recv_q size_approx capacity e r).recv_q ≡ e.recv_q ++ (r ∷ [])
  unfolding put_to_recv_q enqueue
  put_to_recv_q-room e r fits =
      let small : ltb 128 (size_approx e.recv_q) ≡ false = ground arith in
      rw (small, enqueue)
        (mark-recv_q size_approx capacity (record e { recv_q = e.recv_q ++ (r ∷ []) }))

  put_to_recv_q-full :
      (e : Endpoint) (r : Received)
      → recv_q_limit < size_approx e.recv_q
      → (put_to_recv_q size_approx capacity e r).recv_q ≡ e.recv_q
  unfolding put_to_recv_q enqueue
  put_to_recv_q-full e r full =
      let large : ltb 128 (size_approx e.recv_q) ≡ true = ground arith in rw (large, enqueue) refl

  pub put_to_recv_q-Takes :
      (e : Endpoint) (r : Received)
      → Takes size_approx e.recv_q r (put_to_recv_q size_approx capacity e r).recv_q
  put_to_recv_q-Takes e r = elim (Bool-cases (ltb recv_q_limit (size_approx e.recv_q))) [
    | inl t ↦
        (let full : recv_q_limit < size_approx e.recv_q = ground arith in
          inr (full, put_to_recv_q-full e r full))
    | inr n ↦
        (let room : size_approx e.recv_q ≤ recv_q_limit = ground arith in
          inl (room, put_to_recv_q-room e r room))
  ]
