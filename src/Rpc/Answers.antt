-- ===== src/Rpc/Answers.antt =====
-- src/veloxd/arbiter/RpcDispatch.cpp, `connectCall`, `sendtoCall` and the calls for a socket's names: the answers by the
-- kind of socket.
use velox_project.Prelude.{ℕ, ◌≡◌, refl, ap, ap₂, ◌∙◌, List, [], ◌∷◌, true, false, none, some}
use velox_project.Endpoint.{udp, tcp}
use velox_project.Messages.{
  SockAddr, connect_call, sendto_call, sendto_ret, after_call, Request, ret, recvfrom_ret, Socket,
  Channel, Answer, fails, answers, unchanged, respond, ok, wait_next, not_set, einprogress,
  atstart_action, atstart_ret, getpeername_call, getsockname_call, getpeername_ret, getsockname_ret,
  af_inet,
}
use velox_project.Pcb.{Daemon, connect, send_to, after_udp, udp_pcb, set_on_conn_estab, session_of}
use velox_project.Session.{Session}
use velox_project.Udp
use velox_project.Tcp.{ip_tx}
use velox_project.Rpc.{
  on_read_ready, handle_request, handle_calling, connect_call_handler, with_socket, connect_on,
  sendto_call_handler, sent, write, getpeername_call_handler, getsockname_call_handler,
  atstart_action_handler,
}

module _ (ch : Channel) (d : Daemon) (pid : ℕ) (dest : SockAddr) (s : Socket)
    (has : ch.socket ≡ some s) where
  abbrev asked : Request
  asked = record { calling = connect_call dest; pid = pid }

  by_kind : on_read_ready ch d asked ≡ write (connect_on s.endpoint.kind ch d dest s)
  unfolding on_read_ready handle_request handle_calling connect_call_handler with_socket
  by_kind = ap (λ o. write (with_socket o λ s. connect_on s.endpoint.kind ch d dest s)) has

  pub connect_udp : s.endpoint.kind ≡ udp → on_read_ready ch d asked ≡ fails
  unfolding connect_on write
  connect_udp k = by_kind ∙ ap (λ k. write (connect_on k ch d dest s)) k

  pub connect_nonblocking :
      s.endpoint.kind ≡ tcp
      → s.endpoint.nonblocking ≡ true
      → on_read_ready ch d asked
        ≡ unchanged ch d (respond ok (recvfrom_ret (ret einprogress) none none))
  unfolding connect_on write
  connect_nonblocking k n = by_kind ∙ ap (λ k. write (connect_on k ch d dest s)) k ∙ rw n refl

  pub connect_blocking :
      s.endpoint.kind ≡ tcp
      → s.endpoint.nonblocking ≡ false
      → (a : Answer) × (on_read_ready ch d asked ≡ answers a)
        × (a.response ≡ respond wait_next not_set)
  unfolding connect_on write
  connect_blocking k n =
      let c = connect (set_on_conn_estab s.pcb) d dest.addr dest.port in
      let a : Answer = record {
        channel = record ch { socket = some (record { endpoint = s.endpoint; pcb = c.pcb }) };
        daemon = c.daemon;
        actions = c.actions;
        response = respond wait_next not_set;
      } in
      (a, by_kind ∙ ap (λ k. write (connect_on k ch d dest s)) k ∙ rw n refl, refl)

-- `getpeernameCall` and `getsocknameCall`.
pub getpeername_answers :
    (ch : Channel) (d : Daemon) (pid : ℕ) (s : Socket)
    → ch.socket ≡ some s
    → let v = session_of s.pcb in
      on_read_ready ch d (record { calling = getpeername_call; pid = pid })
      ≡ unchanged ch d (
          respond ok
            (getpeername_ret (ret 0) (record { family = af_inet; addr = v.faddr; port = v.fport })))
unfolding on_read_ready handle_request handle_calling getpeername_call_handler with_socket write
getpeername_answers ch d pid s has = rw has refl

pub getsockname_answers :
    (ch : Channel) (d : Daemon) (pid : ℕ) (s : Socket)
    → ch.socket ≡ some s
    → let v = session_of s.pcb in
      on_read_ready ch d (record { calling = getsockname_call; pid = pid })
      ≡ unchanged ch d (
          respond ok
            (getsockname_ret (ret 0) (record { family = af_inet; addr = v.laddr; port = v.lport })))
unfolding on_read_ready handle_request handle_calling getsockname_call_handler with_socket write
getsockname_answers ch d pid s has = rw has refl

-- `atstartAction`: the channel knows the program, and the range is the same for all.
pub atstart_answers :
    (ch : Channel) (d : Daemon) (pid : ℕ) (progname : List ℕ)
    → on_read_ready ch d (record { calling = atstart_action progname; pid = pid })
      ≡ unchanged
          (record ch { peer_name = progname; peer_pid = pid })
          d
          (respond ok (atstart_ret 4096 1024))
unfolding on_read_ready handle_request handle_calling atstart_action_handler write
atstart_answers ch d pid progname = refl

-- `sendtoCall` on a UDP socket, with an address.
pub sendto_udp :
    (ch : Channel) (d : Daemon) (pid : ℕ) (buf : List ℕ) (dest : SockAddr) (s : Socket)
    (u : Session)
    → ch.socket ≡ some s
    → s.endpoint.kind ≡ udp
    → s.pcb ≡ udp_pcb u
    → let sent =
        Udp.send_to u (record { port = d.udp_port; last_id = d.last_id }) dest.addr dest.port buf in
      (a : Answer) × (on_read_ready ch d
          (record { calling = sendto_call buf (some dest); pid = pid })
        ≡ answers a)
      × (a.actions ≡ ip_tx sent.packet ∷ [])
      × (a.response ≡ respond ok (sendto_ret (ret sent.ret)))
unfolding on_read_ready handle_request handle_calling sendto_call_handler with_socket sent send_to
    after_udp write
sendto_udp ch d pid buf dest s u has k pcb =
    let c = send_to u d dest.addr dest.port buf in
    let a : Answer = record {
      channel = record ch { socket = some (record { endpoint = s.endpoint; pcb = c.pcb }) };
      daemon = c.daemon;
      actions = c.actions;
      response = respond ok (sendto_ret (ret c.ret));
    } in
    (
      a,
      ap
            (λ o. write (
              with_socket o λ s.
                let c = sent s.endpoint.kind s.pcb d buf (some dest) in
                after_call ch s.endpoint c (respond ok (sendto_ret (ret c.ret)))))
            has
          ∙ ap₂
              (λ k pcb.
                let c = sent k pcb d buf (some dest) in
                write (after_call ch s.endpoint c (respond ok (sendto_ret (ret c.ret)))))
              k pcb,
      refl,
      refl,
    )
