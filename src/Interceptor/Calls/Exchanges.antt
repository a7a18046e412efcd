-- ===== src/Interceptor/Calls/Exchanges.antt =====
-- src/interceptor/req-resp-channel.c over src/veloxd/arbiter/agent/AgentChannel.cpp: a request and its answer.
use velox_project.Prelude.{
  ℕ, ◌+◌, ◌≤◌, ◌≡◌, refl, ap, ◌∙◌, Bool, List, [], ◌∷◌, some, length, if◌then◌else◌, Bool-cases,
  inl, inr,
}
use velox_project.Endpoint.{Received}
use velox_project.Messages.{
  Calling, recvfrom_call, Response, Socket, Channel, Answer, answers, fails,
}
use velox_project.Pcb.{Daemon}
use velox_project.Rpc.{on_read_ready, recvfrom_response}
use velox_project.Rpc.Sizes.{
  Encoding, rpc_message_max_size, buf_of, fits_message, on_message-answers, on_message-checks,
  check_size-answers, check_size-fails,
}
use velox_project.Rpc.Receiving.{recvfrom_takes}
use velox_project.Interceptor.{chan_recv}
use velox_project.Interceptor.Polling.{chan_recv_skips}
use velox_project.Interceptor.Ends.{answered, peer_gone}
use velox_project.Interceptor.Calls.{exchange, received}

module _ (B : Encoding) (ch : Channel) (d : Daemon) (pid : ℕ) (later : List Response) where
  pub exchange-fails :
      (c : Calling)
      → on_read_ready ch d (record { calling = c; pid = pid }) ≡ fails
      → exchange B ch d pid later c ≡ peer_gone
  unfolding exchange
  exchange-fails c e = rw (on_message-checks B ch d _ fails e ∙ check_size-fails B, exchange) refl

  -- With few bytes the answer is written whole.
  pub exchange-answers :
      (c : Calling) (a : Answer)
      → on_read_ready ch d (record { calling = c; pid = pid }) ≡ answers a
      → length (buf_of a.response.returning) + 128 ≤ rpc_message_max_size
      → exchange B ch d pid later c ≡ received (chan_recv (a.response ∷ later))
  unfolding exchange
  exchange-answers c a e small = rw (on_message-answers B ch d _ a e small, exchange) refl

  -- A receive that finds a packet: its answer, or the end of the daemon when it does not fit a message.
  pub recvfrom_asks :
      (src_addr : Bool) (s : Socket) (r : Received) (rest : List Received)
      → ch.socket ≡ some s
      → s.endpoint.recv_q ≡ r ∷ rest
      → exchange B ch d pid later (recvfrom_call src_addr) ≡ (
          if fits_message B (recvfrom_response src_addr r)
          then answered (recvfrom_response src_addr r)
          else peer_gone)
  unfolding exchange received
  recvfrom_asks src_addr s r rest e q =
      let resp = recvfrom_response src_addr r in
      let checked =
        on_message-checks B ch d _ _ (recvfrom_takes ch d pid src_addr s r rest e q)
        ∙ check_size-answers B _ in
      elim (Bool-cases (fits_message B resp)) [
        | inl t ↦
            rw (checked, exchange) (rw t (ap received (chan_recv_skips [] resp later tt refl)))
        | inr n ↦ rw (checked, exchange) (rw n refl)
      ]
