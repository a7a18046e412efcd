-- ===== src/Interceptor/Calls/Names.antt =====
-- src/interceptor/interceptor.c, `getpeername` and `getsockname`, over src/veloxd/arbiter/RpcDispatch.cpp: the names of a
-- socket, and those that `connect` gives it.
use velox_project.Prelude.{
  ℕ, arith, ◌+◌, ◌%◌, ◌^◌, ◌≡◌, refl, ap, ap₂, ◌∙◌, true, false, none, some, List, [], ◌==◌,
  if◌then◌else◌, swap16,
}
use velox_project.Session
use velox_project.Session.{Session}
use velox_project.Session.Ports.{connect_binds, send_binds}
use velox_project.Endpoint.{Endpoint, tcp}
use velox_project.Tcp
use velox_project.Tcp.{TcpSession, closed, set_on_conn_estab_cb}
use velox_project.Tcp.Handshake.{send_in-session}
use velox_project.Pcb.{Daemon, tcp_pcb, session_of}
use velox_project.Messages.{
  SockAddr, connect_call, Response, Socket, Channel, Answer, answers, af_inet,
}
use velox_project.Rpc.{on_read_ready}
use velox_project.Rpc.Answers.{getpeername_answers, getsockname_answers}
use velox_project.Rpc.Connecting.{connecting, connect_answers}
use velox_project.Interceptor.{FdPool, is_assigned_by_velox, chan_recv}
use velox_project.Interceptor.Ends.{Outcome, returns, after}
use velox_project.Rpc.Sizes.{Encoding}
use velox_project.Interceptor.Calls.Exchanges.{exchange-answers}
use velox_project.Interceptor.Calls.{exchange, received, getpeername, getsockname}

-- An IPv4 name that a call returns.
abbrev pub named : ℕ → ℕ → Outcome
named addr port = returns 0 (record {
  buf = [];
  peer = some (record { family = af_inet; addr = addr; port = port });
  optval = none;
})

module _ (B : Encoding) (p : FdPool) (fd : ℕ) (velox : is_assigned_by_velox p fd ≡ true)
    (ch : Channel) (d : Daemon) (pid : ℕ) (later : List Response) (s : Socket)
    (has : ch.socket ≡ some s) where
  pub getpeername-named :
      getpeername p (λ chan. exchange B ch d pid later) fd
      ≡ named (session_of s.pcb).faddr (session_of s.pcb).fport
  unfolding getpeername after received chan_recv
  getpeername-named =
      rw
        (
          velox,
          exchange-answers B ch d pid later _ _ (getpeername_answers ch d pid s has) (omega arith),
          after,
        )
        refl

  pub getsockname-named :
      getsockname p (λ chan. exchange B ch d pid later) fd
      ≡ named (session_of s.pcb).laddr (session_of s.pcb).lport
  unfolding getsockname after received chan_recv
  getsockname-named =
      rw
        (
          velox,
          exchange-answers B ch d pid later _ _ (getsockname_answers ch d pid s has) (omega arith),
          after,
        )
        refl

-- The number in an unbound session's port field behind a bind, and the shared counter behind it.
abbrev pub bound_port : ℕ → ℕ → ℕ
bound_port lport port = if lport == 0 then swap16 ((port + 1) % 2 ^ 16) else lport

abbrev pub counter_behind : ℕ → ℕ → ℕ
counter_behind lport port = if lport == 0 then (port + 1) % 2 ^ 16 else port

-- `connect` gives a session its names.
connect-session :
    (t : TcpSession) (c : Tcp.Counters) (faddr fport : ℕ)
    → let v = (Tcp.connect t c faddr fport).pcb.session in
      let l = t.session.lport in
      (v.faddr ≡ faddr)
      × (v.fport ≡ fport)
      × (v.laddr ≡ t.session.laddr)
      × (v.lport ≡ bound_port (bound_port l c.port) (counter_behind l c.port))
unfolding Tcp.connect Tcp.send
connect-session t c faddr fport =
    let b = Session.connect t.session faddr fport c.port in
    let (faddr1, fport1, laddr1, lport1, port1) = connect_binds t.session faddr fport c.port in
    let (faddr2, fport2, laddr2, lport2) = send_binds b.session b.port in
    let kept =
      send_in-session t.conn_state
        (record t { session = (Session.send b.session b.port).0.session }) _ [] in
    (
      ap (λ (s : Session). s.faddr) kept ∙ faddr2 ∙ faddr1,
      ap (λ (s : Session). s.fport) kept ∙ fport2 ∙ fport1,
      ap (λ (s : Session). s.laddr) kept ∙ laddr2 ∙ laddr1,
      ap (λ (s : Session). s.lport) kept ∙ lport2 ∙ ap₂ bound_port lport1 port1,
    )

-- After `connect` on a blocking TCP socket, `getpeername` of a descriptor of Velox returns 0 and the address and
-- port that were given to `connect`, and `getsockname` 0, the address of the socket and its port: the one it was bound
-- to, or else the next of the counter; the next but one, when the counter has just wrapped to 0, which counts as unbound.
pub connect-named :
    (B : Encoding) (p : FdPool) (fd : ℕ) (ch : Channel) (d d' : Daemon) (pid : ℕ)
    (later : List Response) (dest : SockAddr) (e : Endpoint) (t : TcpSession)
    → is_assigned_by_velox p fd ≡ true
    → ch.socket ≡ some (record { endpoint = e; pcb = tcp_pcb t })
    → e.kind ≡ tcp
    → e.nonblocking ≡ false
    → let l = t.session.lport in
      (a : Answer) × (on_read_ready ch d (record { calling = connect_call dest; pid = pid })
        ≡ answers a)
      × (getpeername p (λ chan. exchange B a.channel d' pid later) fd ≡ named dest.addr dest.port)
      × (getsockname p (λ chan. exchange B a.channel d' pid later) fd
          ≡ named t.session.laddr
              (bound_port (bound_port l d.tcp_port) (counter_behind l d.tcp_port)))
unfolding session_of set_on_conn_estab_cb
connect-named B p fd ch d d' pid later dest e t velox has kind blocking =
    let o = connecting d t dest in
    let s : Socket = record { endpoint = e; pcb = tcp_pcb o.pcb } in
    let (faddr, fport, laddr, lport) =
      connect-session (set_on_conn_estab_cb t) (record { port = d.tcp_port; last_id = d.last_id })
        dest.addr dest.port in
    let ch' : Channel = record ch { socket = some s } in
    (
      _,
      connect_answers ch d pid dest e t has kind blocking,
      getpeername-named B p fd velox ch' d' pid later s refl ∙ ap₂ named faddr fport,
      getsockname-named B p fd velox ch' d' pid later s refl ∙ ap₂ named laddr lport,
    )
