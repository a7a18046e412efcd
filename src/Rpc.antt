-- ===== src/Rpc.antt =====
-- src/veloxd/arbiter/RpcDispatch.cpp: the daemon's answer to each request of an interceptor. A
-- failed assertion, and the null pointer of a channel that has no socket, is `fails`.
pub mod Assertions
pub mod Receiving
pub mod Typing
pub mod Connecting
pub mod Answers
pub mod Sizes
use velox_project.Prelude.{
  ℕ, Bool, true, false, ◌&&◌, ◌||◌, Option, none, some, List, ◌==◌, if◌then◌else◌, length,
}
use velox_project.Endpoint.{
  Endpoint, EndpointType, udp, tcp, on_udp, on_tcp, Callback, Received, new_endpoint, set_waiting,
  set_on_async_new_packet_cb, try_take_from_recv_q,
}
use velox_project.Pcb.{
  Pcb, udp_pcb, tcp_pcb, Daemon, Called, new_udp, new_tcp, connect, send, send_to,
  set_on_conn_estab, session_of,
}
use velox_project.Messages.{
  SockAddr, Calling, socket_call, connect_call, close_call, recvfrom_call, sendto_call, poll_call,
  select_call, getpeername_call, getsockname_call, getsockopt_call, setsockopt_call, fcntl_call,
  atstart_action, calling_not_set, Request, ok, wait_next, ret, minus_one, not_set, socket_ret,
  connect_ret, close_ret, recvfrom_ret, sendto_ret, getpeername_ret, getsockname_ret,
  getsockopt_ret, fcntl_ret, atstart_ret, Response, Socket, Channel, Result, fails, answers,
  no_response, respond, unchanged, drain_skbuf_chain, af_inet, is_stream, is_dgram, is_nonblock,
  einprogress, eagain, after_call,
}

unfoldable pub socket_call_handler : Channel → Daemon → ℕ → ℕ → Result
unfolding new_endpoint new_udp new_tcp
socket_call_handler ch d domain type =
    if (domain == af_inet) && (is_stream type || is_dgram type)
    then (let s =
          (if is_stream type
            then record { endpoint = new_endpoint tcp (is_nonblock type); pcb = new_tcp d }
            else record { endpoint = new_endpoint udp (is_nonblock type); pcb = new_udp d }) in
        unchanged (record ch { socket = some s }) d (respond ok (socket_ret (ret 0))))
    else fails

-- What a handler does with the channel's socket.
pub with_socket : Option Socket → (Socket → Result) → Result
with_socket none k = fails
with_socket (some s) k = k s

-- The UDP part of `connectCall` sets no code. A nonblocking TCP socket is not connected, and its
-- answer is one of `recvfromCall`.
pub connect_on : EndpointType → Channel → Daemon → SockAddr → Socket → Result
connect_on udp ch d dest s =
    let c = connect s.pcb d dest.addr dest.port in
    after_call ch s.endpoint c (record {
      ret_code = none;
      returning =
          if c.ret == 0 then connect_ret (ret 0) none else connect_ret minus_one (some c.ret);
    })
connect_on tcp ch d dest s =
    if s.endpoint.nonblocking
    then unchanged ch d (respond ok (recvfrom_ret (ret einprogress) none none))
    else after_call ch s.endpoint (connect (set_on_conn_estab s.pcb) d dest.addr dest.port)
        (respond wait_next not_set)

unfoldable pub connect_call_handler : Channel → Daemon → SockAddr → Result
unfolding with_socket connect_on
connect_call_handler ch d dest = with_socket ch.socket λ s. connect_on s.endpoint.kind ch d dest s

-- What the callback of `setOnConnEstabCB` writes to the channel.
abbrev pub conn_estab_response : Response
conn_estab_response = respond ok (connect_ret (ret 0) none)

-- The address of a UDP request picks the `send` that has one; TCP ignores it.
pub sent : EndpointType → Pcb → Daemon → List ℕ → Option SockAddr → Called
sent udp (udp_pcb s) d buf (some dest) = send_to s d dest.addr dest.port buf
sent _ pcb d buf addr = send pcb d buf

unfoldable pub sendto_call_handler : Channel → Daemon → List ℕ → Option SockAddr → Result
unfolding with_socket sent
sendto_call_handler ch d buf addr = with_socket ch.socket λ s.
    let c = sent s.endpoint.kind s.pcb d buf addr in
    after_call ch s.endpoint c (respond ok (sendto_ret (ret c.ret)))

-- The happy path of `recvfromCall`, and `onAsyncNewUdpPacket`: what is answered for a packet.
abbrev pub recvfrom_response : Bool → Received → Response
recvfrom_response require_addr r =
    let buf = drain_skbuf_chain r.frames in
    respond ok (
      recvfrom_ret (ret (length buf)) (some buf) (
        if require_addr
        then some (record { family = af_inet; addr = r.peer_addr; port = r.peer_port })
        else none))

abbrev pub callback_of : EndpointType → Bool → Callback
callback_of udp require_addr = on_udp require_addr
callback_of tcp require_addr = on_tcp

-- What a callback writes to the channel for the packet it took.
abbrev pub async_response : Callback → Received → Response
async_response (on_udp require_addr) r = recvfrom_response require_addr r
async_response on_tcp r = recvfrom_response false r

-- The happy path, `e_again` and `wait_next`.
pub recvfrom_with : Channel → Daemon → Bool → Socket → Option (Endpoint × Received) → Result
unfolding set_waiting set_on_async_new_packet_cb
recvfrom_with ch d require_addr s (some (e, r)) =
    unchanged (record ch { socket = some (record s { endpoint = e }) }) d
      (recvfrom_response require_addr r)
recvfrom_with ch d require_addr s none =
    if s.endpoint.nonblocking
    then unchanged ch d (respond ok (recvfrom_ret (ret eagain) none none))
    else (let e =
          set_on_async_new_packet_cb s.endpoint (callback_of s.endpoint.kind require_addr) in
        unchanged (record ch { socket = some (record s { endpoint = set_waiting e true }) }) d
          (respond wait_next not_set))

unfoldable pub recvfrom_call_handler : Channel → Daemon → Bool → Result
unfolding with_socket recvfrom_with
recvfrom_call_handler ch d require_addr =
    with_socket ch.socket λ s. recvfrom_with ch d require_addr s (try_take_from_recv_q s.endpoint)

unfoldable pub getpeername_call_handler : Channel → Daemon → Result
unfolding with_socket
getpeername_call_handler ch d = with_socket ch.socket λ s.
    let pcb = session_of s.pcb in
    unchanged ch d (
      respond ok
        (getpeername_ret (ret 0) (record { family = af_inet; addr = pcb.faddr; port = pcb.fport })))

unfoldable pub getsockname_call_handler : Channel → Daemon → Result
unfolding with_socket
getsockname_call_handler ch d = with_socket ch.socket λ s.
    let pcb = session_of s.pcb in
    unchanged ch d (
      respond ok
        (getsockname_ret (ret 0) (record { family = af_inet; addr = pcb.laddr; port = pcb.lport })))

unfoldable pub atstart_action_handler : Channel → Daemon → List ℕ → ℕ → Result
atstart_action_handler ch d progname pid =
    unchanged (record ch { peer_name = progname; peer_pid = pid }) d
      (respond ok (atstart_ret 4096 1024))

-- The switch of `handleRequest`.
pub handle_calling : Channel → Daemon → ℕ → Calling → Result
unfolding socket_call_handler connect_call_handler sendto_call_handler recvfrom_call_handler
    getpeername_call_handler getsockname_call_handler atstart_action_handler
handle_calling ch d pid (socket_call domain type) = socket_call_handler ch d domain type
handle_calling ch d pid (connect_call dest) = connect_call_handler ch d dest
handle_calling ch d pid close_call = unchanged ch d (respond ok (close_ret (ret 0)))
handle_calling ch d pid (recvfrom_call require_addr) = recvfrom_call_handler ch d require_addr
handle_calling ch d pid (sendto_call buf addr) = sendto_call_handler ch d buf addr
handle_calling ch d pid poll_call = unchanged ch d no_response
handle_calling ch d pid select_call = unchanged ch d no_response
handle_calling ch d pid getpeername_call = getpeername_call_handler ch d
handle_calling ch d pid getsockname_call = getsockname_call_handler ch d
handle_calling ch d pid getsockopt_call = unchanged ch d (respond ok (getsockopt_ret (ret 0)))
handle_calling ch d pid setsockopt_call = unchanged ch d no_response
handle_calling ch d pid fcntl_call = unchanged ch d (respond ok (fcntl_ret (ret 0)))
handle_calling ch d pid (atstart_action progname) = atstart_action_handler ch d progname pid
handle_calling ch d pid calling_not_set = unchanged ch d no_response

-- `handleRequest`.
unfoldable pub handle_request : Channel → Daemon → Request → Result
unfolding handle_calling
handle_request ch d req = handle_calling ch d req.pid req.calling

-- `Response::IsInitialized`: the one required field that a handler can leave unset is the code.
abbrev pub is_initialized : Response → Bool
is_initialized resp = elim resp.ret_code [ none ↦ false | some c ↦ true ]

-- `AgentChannel::Impl::write` asserts that the Response is initialized. Its second assertion, that the
-- Response fits a message, is with Rpc/Sizes.
pub write : Result → Result
write fails = fails
write (answers a) = if is_initialized a.response then answers a else fails

-- `AgentChannel::Impl::onReadReady` behind the parser: the handler, then `write`.
unfoldable pub on_read_ready : Channel → Daemon → Request → Result
unfolding handle_request write
on_read_ready ch d req = write (handle_request ch d req)
