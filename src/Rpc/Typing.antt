-- ===== src/Rpc/Typing.antt =====
-- src/veloxd/arbiter/RpcDispatch.cpp: which kind of answer each request gets.
use velox_project.Prelude.{
  ℕ, ◌≡◌, ◌⊎◌, inl, inr, refl, subst, Bool, true, Option, none, some, ◌&&◌, ◌||◌, ◌==◌, Bool-cases,
}
use velox_project.Endpoint.{Endpoint, EndpointType, udp, tcp, Received, try_take_from_recv_q}
use velox_project.Pcb.{Daemon}
use velox_project.Messages.{
  SockAddr, Calling, socket_call, connect_call, close_call, recvfrom_call, sendto_call, poll_call,
  select_call, getpeername_call, getsockname_call, getsockopt_call, setsockopt_call, fcntl_call,
  atstart_action, calling_not_set, Socket, Channel, Result, fails, answers, Answer, Returning,
  af_inet, is_stream, is_dgram, respond, ok, wait_next, not_set, Response, ret, socket_ret,
  close_ret, recvfrom_ret, sendto_ret, getpeername_ret, getsockname_ret, getsockopt_ret, fcntl_ret,
  atstart_ret, eagain, einprogress,
}
use velox_project.Rpc.{
  with_socket, connect_on, recvfrom_with, recvfrom_response, socket_call_handler,
  connect_call_handler, sendto_call_handler, recvfrom_call_handler, getpeername_call_handler,
  getsockname_call_handler, atstart_action_handler, handle_calling, handle_request, write,
  on_read_ready,
}

-- What a call can be given at once.
abbrev pub Returns : Calling → Returning → Type 0
Returns (socket_call domain type) r = r ≡ socket_ret (ret 0)
Returns close_call r = r ≡ close_ret (ret 0)
Returns (recvfrom_call src_addr) r =
    (r ≡ recvfrom_ret (ret eagain) none none)
    ⊎ ((q : Received) × (r ≡ (recvfrom_response src_addr q).returning))
Returns (sendto_call buf addr) r = (n : ℕ) × (r ≡ sendto_ret (ret n))
Returns getpeername_call r = (a : SockAddr) × (r ≡ getpeername_ret (ret 0) a)
Returns getsockname_call r = (a : SockAddr) × (r ≡ getsockname_ret (ret 0) a)
Returns getsockopt_call r = r ≡ getsockopt_ret (ret 0)
Returns fcntl_call r = r ≡ fcntl_ret (ret 0)
Returns (atstart_action progname) r = r ≡ atstart_ret 4096 1024
Returns _ r = ⊥

-- Only these wait for something else to happen.
abbrev pub CanWait : Calling → Type 0
CanWait (connect_call dest) = Unit
CanWait (recvfrom_call src_addr) = Unit
CanWait _ = ⊥

-- `connect` on a nonblocking TCP socket.
abbrev pub IsNonblockingConnect : Channel → Calling → Type 0
IsNonblockingConnect ch (connect_call dest) =
    (s : Socket) × (ch.socket ≡ some s) × (s.endpoint.kind ≡ tcp) × (s.endpoint.nonblocking ≡ true)
IsNonblockingConnect ch _ = ⊥

-- The kinds of answer to a call.
abbrev pub IsTyped : Channel → Calling → Response → Type 0
IsTyped ch c resp =
    (CanWait c × (resp ≡ respond wait_next not_set))
    ⊎ ((r : Returning) × (resp ≡ respond ok r) × Returns c r)
    ⊎ (IsNonblockingConnect ch c × (resp ≡ respond ok (recvfrom_ret (ret einprogress) none none)))

-- The same for what a handler leaves; a failed assertion is no answer.
abbrev Typed : Channel → Calling → Result → Type 0
Typed ch c fails = Unit
Typed ch c (answers a) = IsTyped ch c a.response

with_socket-Typed :
    (ch : Channel) (c : Calling) (o : Option Socket) (k : Socket → Result)
    → ((s : Socket) → o ≡ some s → Typed ch c (write (k s)))
    → Typed ch c (write (with_socket o k))
unfolding with_socket write
with_socket-Typed ch c none k h = tt
with_socket-Typed ch c (some s) k h = h s refl

connect_on-Typed :
    (kind : EndpointType) (ch : Channel) (d : Daemon) (dest : SockAddr) (s : Socket)
    → s.endpoint.kind ≡ kind
    → ch.socket ≡ some s
    → Typed ch (connect_call dest) (write (connect_on kind ch d dest s))
unfolding connect_on write
connect_on-Typed udp ch d dest s k has = tt
connect_on-Typed tcp ch d dest s k has = elim (Bool-cases s.endpoint.nonblocking) [
  | inl t ↦ rw t (inr (inr ((s, has, k, t), refl)))
  | inr n ↦ rw n (inl (tt, refl))
]

recvfrom_with-Typed :
    (ch : Channel) (d : Daemon) (src_addr : Bool) (s : Socket)
    (taken : Option (Endpoint × Received))
    → Typed ch (recvfrom_call src_addr) (write (recvfrom_with ch d src_addr s taken))
unfolding recvfrom_with write
recvfrom_with-Typed ch d src_addr s (some (e, r)) = inr (inl (_, refl, inr (r, refl)))
recvfrom_with-Typed ch d src_addr s none = elim (Bool-cases s.endpoint.nonblocking) [
  | inl t ↦ rw t (inr (inl (_, refl, inl refl)))
  | inr n ↦ rw n (inl (tt, refl))
]

handle_calling-Typed :
    (ch : Channel) (d : Daemon) (pid : ℕ) (c : Calling)
    → Typed ch c (write (handle_calling ch d pid c))
unfolding handle_calling socket_call_handler connect_call_handler sendto_call_handler
    recvfrom_call_handler getpeername_call_handler getsockname_call_handler atstart_action_handler
    write
handle_calling-Typed ch d pid (socket_call domain type) =
    elim (Bool-cases ((domain == af_inet) && (is_stream type || is_dgram type))) [
      | inl t ↦ rw t (inr (inl (_, refl, refl)))
      | inr n ↦ rw n tt
    ]
handle_calling-Typed ch d pid (connect_call dest) =
    with_socket-Typed ch (connect_call dest) ch.socket _
      λ s has. connect_on-Typed s.endpoint.kind ch d dest s refl has
handle_calling-Typed ch d pid close_call = inr (inl (_, refl, refl))
handle_calling-Typed ch d pid (recvfrom_call src_addr) =
    with_socket-Typed ch (recvfrom_call src_addr) ch.socket _
      λ s has. recvfrom_with-Typed ch d src_addr s (try_take_from_recv_q s.endpoint)
handle_calling-Typed ch d pid (sendto_call buf addr) =
    with_socket-Typed ch (sendto_call buf addr) ch.socket _ λ s has. inr (inl (_, refl, (_, refl)))
handle_calling-Typed ch d pid getpeername_call =
    with_socket-Typed ch getpeername_call ch.socket _ λ s has. inr (inl (_, refl, (_, refl)))
handle_calling-Typed ch d pid getsockname_call =
    with_socket-Typed ch getsockname_call ch.socket _ λ s has. inr (inl (_, refl, (_, refl)))
handle_calling-Typed ch d pid getsockopt_call = inr (inl (_, refl, refl))
handle_calling-Typed ch d pid fcntl_call = inr (inl (_, refl, refl))
handle_calling-Typed ch d pid (atstart_action progname) = inr (inl (_, refl, refl))
handle_calling-Typed ch d pid poll_call = tt
handle_calling-Typed ch d pid select_call = tt
handle_calling-Typed ch d pid setsockopt_call = tt
handle_calling-Typed ch d pid calling_not_set = tt

-- Each request that is answered is answered with a value of its own kind and the code OK, or with
-- WAIT_NEXT, which only `connect` and `recvfrom` are; a `connect` on a nonblocking TCP socket
-- alone is answered with the value of a `recvfrom`.
pub on_read_ready-IsTyped :
    (ch : Channel) (d : Daemon) (pid : ℕ) (c : Calling) (a : Answer)
    → on_read_ready ch d (record { calling = c; pid = pid }) ≡ answers a
    → IsTyped ch c a.response
unfolding on_read_ready handle_request
on_read_ready-IsTyped ch d pid c a e = subst (Typed ch c) e (handle_calling-Typed ch d pid c)
