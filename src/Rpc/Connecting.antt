-- ===== src/Rpc/Connecting.antt =====
-- The connection of a blocking TCP socket through src/veloxd/arbiter/RpcDispatch.cpp,
-- src/veloxd/tcp/TcpSession.cpp and `chan_recv` of src/interceptor/req-resp-channel.c.
use velox_project.Prelude.{
  ℕ, ◌+◌, u32, swap32, ◌≡◌, inl, inr, refl, ap, sym, subst, ◌∙◌, true, false, ◌&&◌, some, [], ◌∷◌,
  if◌then◌else◌,
}
use velox_project.Endpoint.{Endpoint, tcp}
use velox_project.Ip.{Packet}
use velox_project.Tcp
use velox_project.Tcp.{
  iss, TcpSession, closed, established, Counters, Outcome, Segment, ip_tx, on_conn_estab,
  set_on_conn_estab_cb, recv,
}
use velox_project.Tcp.Handshake.{
  Carries, connect_sends_syn, recv_in_syn_sent, connect-on_conn_estab_cb,
}
use velox_project.Pcb.{Daemon, tcp_pcb, connect, after_tcp, set_on_conn_estab}
use velox_project.Messages.{
  SockAddr, Channel, Answer, Result, after_call, connect_call, answers, respond, wait_next, not_set,
}
use velox_project.Interceptor.{chan_recv}
use velox_project.Interceptor.Polling.{chan_recv_skips}
use velox_project.Rpc.{
  on_read_ready, handle_request, handle_calling, write, with_socket, connect_on,
  connect_call_handler, conn_estab_response,
}

-- The session that `connectCall` leaves, with its neighbours.
abbrev pub connecting : Daemon → TcpSession → SockAddr → Outcome
connecting d t dest =
    Tcp.connect (set_on_conn_estab_cb t) (record { port = d.tcp_port; last_id = d.last_id })
      dest.addr dest.port

-- What the whole exchange comes to: the handler answers WAIT_NEXT and sends one packet, the SYN; the
-- segment is taken, acknowledged, and calls back; and the interceptor's receive returns what the callback writes. The
-- SYN has the initial number, no ACK and no data, and goes to the address and port of the call; the acknowledgement has the
-- ACK alone, the number behind the SYN, and acknowledges the number behind the segment's.
pub record Connects (ch : Channel) (d : Daemon) (dest : SockAddr) (e : Endpoint) (c : Counters)
    (seg : Segment) : Type 0 where
  pub answer : Answer
  pub session : TcpSession
  pub outcome : Outcome
  pub syn : Packet
  pub acknowledgement : Packet
  pub handled : connect_call_handler ch d dest ≡ answers answer
  pub waits : answer.response ≡ respond wait_next not_set
  pub sends_syn : answer.actions ≡ ip_tx syn ∷ []
  pub is_syn : Carries session.session iss true false 0 [] syn
  pub peer : (session.session.faddr ≡ dest.addr) × (session.session.fport ≡ dest.port)
  pub stored : answer.channel.socket ≡ some (record { endpoint = e; pcb = tcp_pcb session })
  pub received : recv session c seg ≡ some outcome
  pub connected : outcome.pcb.conn_state ≡ established
  pub calls_back : outcome.actions ≡ ip_tx acknowledgement ∷ on_conn_estab ∷ []
  pub acknowledges :
      Carries session.session (iss + 1) false true (u32 (swap32 seg.hdr.seq + 1)) [] acknowledgement
  pub waits_behind : outcome.pcb.recv_next ≡ u32 (swap32 seg.hdr.seq + 1)
  pub returns :
      chan_recv (answer.response ∷ conn_estab_response ∷ []) ≡ some (conn_estab_response, [])

handler_answers :
    (ch : Channel) (d : Daemon) (dest : SockAddr) (e : Endpoint) (t : TcpSession)
    → ch.socket ≡ some (record { endpoint = e; pcb = tcp_pcb t })
    → e.kind ≡ tcp
    → e.nonblocking ≡ false
    → let o = connecting d t dest in
      connect_call_handler ch d dest
      ≡ answers (record {
        channel = record ch { socket = some (record { endpoint = e; pcb = tcp_pcb o.pcb }) };
        daemon = (after_tcp d o).daemon;
        actions = o.actions;
        response = respond wait_next not_set;
      })
unfolding connect_call_handler with_socket connect_on connect after_tcp set_on_conn_estab
handler_answers ch d dest e t has kind blocking =
    subst (λ x. with_socket x (λ s. connect_on s.endpoint.kind ch d dest s) ≡ waiting) (sym has)
      (subst (λ k. connect_on k ch d dest (record { endpoint = e; pcb = tcp_pcb t }) ≡ waiting)
        (sym kind) (rw blocking refl))
  where
    waiting : Result
    waiting =
        after_call ch e (connect (set_on_conn_estab (tcp_pcb t)) d dest.addr dest.port)
          (respond wait_next not_set)

-- The same through the parser's end: `write` finds the answer initialized.
pub connect_answers :
    (ch : Channel) (d : Daemon) (pid : ℕ) (dest : SockAddr) (e : Endpoint) (t : TcpSession)
    → ch.socket ≡ some (record { endpoint = e; pcb = tcp_pcb t })
    → e.kind ≡ tcp
    → e.nonblocking ≡ false
    → let o = connecting d t dest in
      on_read_ready ch d (record { calling = connect_call dest; pid = pid })
      ≡ answers (record {
        channel = record ch { socket = some (record { endpoint = e; pcb = tcp_pcb o.pcb }) };
        daemon = (after_tcp d o).daemon;
        actions = o.actions;
        response = respond wait_next not_set;
      })
unfolding on_read_ready handle_request handle_calling write
connect_answers ch d pid dest e t has kind blocking =
    ap write (handler_answers ch d dest e t has kind blocking)

-- `connect` on a closed, blocking TCP socket sends one packet, the SYN with the initial number, to the address and port of
-- the call; when SYN and ACK arrive, the connection is established, the one packet that is sent has the ACK
-- alone and acknowledges the number behind the segment's, and the receive of the `connect` of the program
-- skips the WAIT_NEXT and returns the answer 0 of the callback.
pub connect_completes :
    (ch : Channel) (d : Daemon) (dest : SockAddr) (e : Endpoint) (t : TcpSession) (c : Counters)
    (seg : Segment)
    → ch.socket ≡ some (record { endpoint = e; pcb = tcp_pcb t })
    → e.kind ≡ tcp
    → e.nonblocking ≡ false
    → t.conn_state ≡ closed
    → (seg.hdr.syn && seg.hdr.ack) ≡ true
    → Connects ch d dest e c seg
unfolding set_on_conn_estab_cb
connect_completes ch d dest e t c seg has kind blocking start syn_ack =
    let o = connecting d t dest in
    let (sent, faddr, fport) =
      connect_sends_syn (set_on_conn_estab_cb t) _ dest.addr dest.port start in
    elim (recv_in_syn_sent o.pcb c seg sent.3) [
      | inl (neither, stops) ↦ cc
      | inr (_, o', r, w) ↦ record {
        answer = _;
        session = o.pcb;
        outcome = o';
        syn = sent.0;
        acknowledgement = w.0;
        handled = handler_answers ch d dest e t has kind blocking;
        waits = refl;
        sends_syn = sent.1;
        is_syn = sent.2;
        peer = (faddr, fport);
        stored = refl;
        received = r;
        connected = w.3;
        calls_back =
            w.1
            ∙ ap (λ b. ip_tx w.0 ∷ (if b then on_conn_estab ∷ [] else []))
                (connect-on_conn_estab_cb (set_on_conn_estab_cb t) _ dest.addr dest.port);
        acknowledges =
            subst (λ n. Carries o.pcb.session n false true (u32 (swap32 seg.hdr.seq + 1)) [] w.0)
              sent.5 w.2;
        waits_behind = w.4;
        returns =
            chan_recv_skips (respond wait_next not_set ∷ []) conn_estab_response [] (refl, tt) refl;
      }
    ]
