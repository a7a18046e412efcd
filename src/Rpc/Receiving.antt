-- ===== src/Rpc/Receiving.antt =====
-- src/veloxd/arbiter/RpcDispatch.cpp, `recvfromCall` and its callbacks, with Endpoint.cpp.
use velox_project.Prelude.{
  ℕ, ◌≤◌, ◌≡◌, refl, ap, sym, subst, ◌∙◌, Bool, true, false, none, some, List, [], ◌∷◌,
}
use velox_project.Endpoint.{
  Endpoint, udp, Received, recv_q_limit, put_to_recv_q, set_waiting, set_on_async_new_packet_cb,
  calls_back, s_channel_read_cb, try_take_from_recv_q, take_front,
}
use velox_project.Endpoint.Queue.{take_nothing, calls_for_first}
use velox_project.Pcb.{Daemon}
use velox_project.Messages.{
  respond, wait_next, not_set, Socket, Channel, Result, unchanged, recvfrom_call,
}
use velox_project.Rpc.{
  with_socket, recvfrom_response, callback_of, async_response, recvfrom_with, recvfrom_call_handler,
  on_read_ready, handle_request, handle_calling, write,
}

-- The Endpoint as `recvfromCall` leaves it when it has to wait.
abbrev pub waiting_endpoint : Endpoint → Bool → Endpoint
waiting_endpoint e require_addr =
    set_waiting (set_on_async_new_packet_cb e (callback_of e.kind require_addr)) true

recvfrom_none :
    (ch : Channel) (d : Daemon) (require_addr : Bool) (s : Socket)
    → s.endpoint.nonblocking ≡ false
    → recvfrom_with ch d require_addr s none
      ≡ unchanged
          (record ch {
            socket = some (record s { endpoint = waiting_endpoint s.endpoint require_addr });
          })
          d
          (respond wait_next not_set)
unfolding recvfrom_with set_waiting set_on_async_new_packet_cb
recvfrom_none ch d require_addr s blocking = rw blocking refl

-- A blocking `recvfrom` on an empty queue waits; the next packet that arrives is then
-- given to the callback as soon as the event loop reads the pipe, which leaves the socket with an empty queue and not waiting. On
-- a UDP socket the callback writes the very response that `recvfrom` gives when the packet is there first.
pub recvfrom_waits :
    (size_approx : List Received → ℕ) (capacity : ℕ) (ch : Channel) (d : Daemon)
    (require_addr : Bool) (s : Socket) (r : Received)
    → size_approx [] ≤ recv_q_limit
    → ch.socket ≡ some s
    → s.endpoint.nonblocking ≡ false
    → s.endpoint.recv_q ≡ []
    → let e = waiting_endpoint s.endpoint require_addr in
      let cb = callback_of s.endpoint.kind require_addr in
      (recvfrom_call_handler ch d require_addr
        ≡ unchanged
            (record ch { socket = some (record s { endpoint = e }) })
            d
            (respond wait_next not_set))
      × (s_channel_read_cb (put_to_recv_q size_approx capacity e r)
          ≡ calls_back (record e { new_packet_notify_pipe = 0; waiting = false }) cb r)
      × (s.endpoint.kind ≡ udp → async_response cb r ≡ recvfrom_response require_addr r)
unfolding recvfrom_call_handler with_socket set_waiting set_on_async_new_packet_cb
recvfrom_waits size_approx capacity ch d require_addr s r fits has blocking empty = (
  subst (λ o. recvfrom_call_handler (record ch { socket = o }) d require_addr ≡ waits_result)
      (sym has)
      (subst (λ t. recvfrom_with (record ch { socket = some s }) d require_addr s t ≡ waits_result)
        (sym (take_nothing s.endpoint empty))
        (recvfrom_none (record ch { socket = some s }) d require_addr s blocking)),
  subst
      (λ q.
        s_channel_read_cb (
          put_to_recv_q size_approx capacity
            (record (waiting_endpoint s.endpoint require_addr) { recv_q = q }) r)
        ≡ calls_back
            (record (waiting_endpoint s.endpoint require_addr) {
              new_packet_notify_pipe = 0;
              waiting = false;
              recv_q = q;
            })
            (callback_of s.endpoint.kind require_addr) r)
      (sym empty)
      (calls_for_first size_approx capacity s.endpoint (callback_of s.endpoint.kind require_addr) r
        fits),
  (λ u. ap (λ k. async_response (callback_of k require_addr) r) u),
)
  where
    waits_result : Result
    waits_result =
        unchanged
          (record ch {
            socket = some (record s { endpoint = waiting_endpoint s.endpoint require_addr });
          })
          d (respond wait_next not_set)

-- What the channel is answered when a packet is there first, whatever the kind of socket.
pub recvfrom_takes :
    (ch : Channel) (d : Daemon) (pid : ℕ) (require_addr : Bool) (s : Socket) (r : Received)
    (rest : List Received)
    → ch.socket ≡ some s
    → s.endpoint.recv_q ≡ r ∷ rest
    → on_read_ready ch d (record { calling = recvfrom_call require_addr; pid = pid })
      ≡ unchanged
          (record ch {
            socket = some (record s { endpoint = record s.endpoint { recv_q = rest } });
          })
          d
          (recvfrom_response require_addr r)
unfolding on_read_ready handle_request handle_calling recvfrom_call_handler with_socket
    recvfrom_with write try_take_from_recv_q take_front
recvfrom_takes ch d pid require_addr s r rest has q =
    ap
      (λ o.
        write
          (with_socket o λ s. recvfrom_with ch d require_addr s (try_take_from_recv_q s.endpoint)))
      has
    ∙ ap (λ q. write (recvfrom_with ch d require_addr s (take_front s.endpoint q))) q
