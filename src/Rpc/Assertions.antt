-- ===== src/Rpc/Assertions.antt =====
-- src/veloxd/arbiter/RpcDispatch.cpp and agent/AgentChannel.cpp, `onReadReady`: the requests that end
-- the daemon.
use velox_project.Prelude.{
  ◌≡◌, ◌≢◌, ap, ◌∙◌, Bool, ◌↔◌, ◌⊎◌, inl, inr, refl, ℕ, false, ◌&&◌, ◌||◌, Option, none, some, ◌==◌,
  Bool-cases,
}
use velox_project.Endpoint.{Endpoint, EndpointType, udp, tcp, Received, try_take_from_recv_q}
use velox_project.Pcb.{Daemon}
use velox_project.Messages.{
  SockAddr, Calling, socket_call, connect_call, close_call, recvfrom_call, sendto_call, poll_call,
  select_call, getpeername_call, getsockname_call, getsockopt_call, setsockopt_call, fcntl_call,
  atstart_action, calling_not_set, Request, Socket, Channel, Result, fails, af_inet, is_stream,
  is_dgram,
}
use mathlib.Core.Option.{some-injective}
use velox_project.Rpc.{
  with_socket, connect_on, recvfrom_with, socket_call_handler, connect_call_handler,
  sendto_call_handler, recvfrom_call_handler, getpeername_call_handler, getsockname_call_handler,
  atstart_action_handler, handle_calling, handle_request, write, on_read_ready,
}

-- The channel has no socket.
abbrev pub IsBare : Channel → Type 0
IsBare ch = ch.socket ≡ none

-- The channel's socket is a UDP one.
abbrev pub IsUdp : Channel → Type 0
IsUdp ch = (s : Socket) × (ch.socket ≡ some s) × (s.endpoint.kind ≡ udp)

-- A socket of another family, or of neither type; a request that needs a socket without one; the connection of
-- a UDP socket; and what is answered without a code.
abbrev pub Ends : Channel → Calling → Type 0
Ends ch (socket_call domain type) =
    ((domain == af_inet) && (is_stream type || is_dgram type)) ≡ false
Ends ch (connect_call dest) = IsBare ch ⊎ IsUdp ch
Ends ch (recvfrom_call require_addr) = IsBare ch
Ends ch (sendto_call buf addr) = IsBare ch
Ends ch getpeername_call = IsBare ch
Ends ch getsockname_call = IsBare ch
Ends ch poll_call = Unit
Ends ch select_call = Unit
Ends ch setsockopt_call = Unit
Ends ch calling_not_set = Unit
Ends ch _ = ⊥

with_socket_iff :
    (o : Option Socket) (k : Socket → Result)
    → ((s : Socket) → write (k s) ≢ fails)
    → (write (with_socket o k) ≡ fails) ↔ (o ≡ none)
unfolding with_socket write
with_socket_iff none k h = ((λ e. refl), (λ e. refl))
with_socket_iff (some s) k h = ((λ e. absurd (h s e)), (λ e. cc))

connect_on_iff :
    (kind : EndpointType) (ch : Channel) (d : Daemon) (dest : SockAddr) (s : Socket)
    → (write (connect_on kind ch d dest s) ≡ fails) ↔ (kind ≡ udp)
unfolding connect_on write
connect_on_iff udp ch d dest s = ((λ e. refl), (λ e. refl))
connect_on_iff tcp ch d dest s = elim (Bool-cases s.endpoint.nonblocking) [
  | inl t ↦ ((λ e. cc (rw t at e)), (λ e. cc))
  | inr n ↦ ((λ e. cc (rw n at e)), (λ e. cc))
]

connect_iff :
    (o : Option Socket) (ch : Channel) (d : Daemon) (dest : SockAddr)
    → (write (with_socket o λ s. connect_on s.endpoint.kind ch d dest s) ≡ fails)
      ↔ ((o ≡ none) ⊎ ((s : Socket) × (o ≡ some s) × (s.endpoint.kind ≡ udp)))
unfolding with_socket write
connect_iff none ch d dest = ((λ e. inl refl), (λ e. refl))
connect_iff (some s) ch d dest =
    let w = connect_on_iff s.endpoint.kind ch d dest s in
    (
      (λ e. inr (s, refl, w.0 e)),
      (λ e. elim e [
        | inl n ↦ cc
        | inr (t, same, u) ↦ w.1 (ap (λ x. x.endpoint.kind) (some-injective s t same) ∙ u)
      ]),
    )

recvfrom_with_answers :
    (ch : Channel) (d : Daemon) (require_addr : Bool) (s : Socket)
    (taken : Option (Endpoint × Received))
    → write (recvfrom_with ch d require_addr s taken) ≢ fails
unfolding recvfrom_with write
recvfrom_with_answers ch d require_addr s (some (e, r)) h = cc
recvfrom_with_answers ch d require_addr s none h = elim (Bool-cases s.endpoint.nonblocking) [
  | inl t ↦ cc (rw t at h)
  | inr n ↦ cc (rw n at h)
]

ends :
    (ch : Channel) (d : Daemon) (pid : ℕ) (c : Calling)
    → (on_read_ready ch d (record { calling = c; pid = pid }) ≡ fails) ↔ Ends ch c
unfolding on_read_ready handle_request handle_calling socket_call_handler connect_call_handler
    sendto_call_handler recvfrom_call_handler getpeername_call_handler getsockname_call_handler
    atstart_action_handler write
ends ch d pid (socket_call domain type) =
    elim (Bool-cases ((domain == af_inet) && (is_stream type || is_dgram type))) [
      | inl t ↦ ((λ e. cc (rw t at e)), (λ e. cc))
      | inr n ↦ ((λ e. n), (λ e. rw n refl))
    ]
ends ch d pid (connect_call dest) = connect_iff ch.socket ch d dest
ends ch d pid close_call = ((λ e. cc), (λ u. absurd u))
ends ch d pid (recvfrom_call require_addr) =
    with_socket_iff ch.socket _
      λ s. recvfrom_with_answers ch d require_addr s (try_take_from_recv_q s.endpoint)
ends ch d pid (sendto_call buf addr) = with_socket_iff ch.socket _ (λ s e. cc)
ends ch d pid poll_call = ((λ e. tt), (λ u. refl))
ends ch d pid select_call = ((λ e. tt), (λ u. refl))
ends ch d pid getpeername_call = with_socket_iff ch.socket _ (λ s e. cc)
ends ch d pid getsockname_call = with_socket_iff ch.socket _ (λ s e. cc)
ends ch d pid getsockopt_call = ((λ e. cc), (λ u. absurd u))
ends ch d pid setsockopt_call = ((λ e. tt), (λ u. refl))
ends ch d pid fcntl_call = ((λ e. cc), (λ u. absurd u))
ends ch d pid (atstart_action progname) = ((λ e. cc), (λ u. absurd u))
ends ch d pid calling_not_set = ((λ e. tt), (λ u. refl))

-- A request ends the daemon, by an assertion or a null pointer, exactly when it asks for a socket
-- that is not an Internet one of stream or datagram type, needs a socket on a channel that has none,
-- connects a UDP socket, or is a poll, select, setsockopt or empty request. The answer's size is
-- taken to fit a message.
pub on_read_ready-fails_iff :
    (ch : Channel) (d : Daemon) (req : Request)
    → (on_read_ready ch d req ≡ fails) ↔ Ends ch req.calling
on_read_ready-fails_iff ch d req = ends ch d req.pid req.calling
