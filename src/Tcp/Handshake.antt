-- ===== src/Tcp/Handshake.antt =====
-- src/veloxd/tcp/TcpSession.cpp, `connect`, `send` and `recv`: the client's states.
use velox_project.Prelude.{
  ℕ, ◌+◌, ◌≡◌, ◌⊎◌, inl, inr, refl, Bool, true, false, ◌&&◌, none, some, List, [], ◌∷◌, u32, swap32,
  if◌then◌else◌, Bool-cases, subst, sym, ap, ◌∙◌,
}
use velox_project.Session.{Session}
use velox_project.Session
use velox_project.Session.Ports.{connect_binds, send_binds}
use velox_project.Ip.{Packet}
use velox_project.Ip
use velox_project.Tcp.{
  TcpState, closed, syn_sent, established, TcpHdr, TcpSession, Counters, ip_tx, on_conn_estab,
  Outcome, Segment, iss, tcp_bytes, socket_buffer_of_tcp_templ, prepare_before_ip_tx, transmit,
  send_segment, send_in, send, connect, ack2peer, recv_syn_ack, recv_in, recv,
}

-- A packet goes from the session's address to its peer's and carries the template's header with these numbers and flags, and this payload.
pub record Carries (s : Session) (seq : ℕ) (syn ack : Bool) (ack_seq : ℕ) (buf : List ℕ)
    (p : Packet) : Type 0 where
  pub hdr : TcpHdr
  pub addresses : (p.network.saddr ≡ s.laddr) × (p.network.daddr ≡ s.faddr)
  pub transport_eq : p.transport ≡ tcp_bytes hdr
  pub payload_eq : p.user_payload ≡ buf
  pub ports : (hdr.source ≡ s.lport) × (hdr.dest ≡ s.fport)
  pub seq_eq : hdr.seq ≡ swap32 seq
  pub flags : (hdr.syn ≡ syn) × (hdr.ack ≡ ack)
  pub ack_eq : hdr.ack_seq ≡ swap32 ack_seq
  pub doff_eq : hdr.doff ≡ 5

pub transmit-Carries :
    (s : Session) (last : ℕ) (seq : ℕ) (syn ack : Bool) (ack_seq : ℕ) (buf : List ℕ)
    → let t = socket_buffer_of_tcp_templ s in
      Carries s seq syn ack ack_seq buf
        (transmit s last
          (record t { seq = swap32 seq; ack_seq = swap32 ack_seq; syn = syn; ack = ack })
          buf).1
unfolding transmit prepare_before_ip_tx socket_buffer_of_tcp_templ Ip.tx
transmit-Carries s last seq syn ack ack_seq buf = record {
  hdr =
      (prepare_before_ip_tx s
        (record (socket_buffer_of_tcp_templ s) {
          seq = swap32 seq;
          ack_seq = swap32 ack_seq;
          syn = syn;
          ack = ack;
        })
        buf).0;
  addresses = (refl, refl);
  transport_eq = refl;
  payload_eq = refl;
  ports = (refl, refl);
  seq_eq = refl;
  flags = (refl, refl);
  ack_eq = refl;
  doff_eq = refl;
}

-- One SYN has left with the initial number, and that number alone is unacknowledged.
abbrev pub SynIsSent : Outcome → Type 0
SynIsSent o =
    (p : Packet) × (o.actions ≡ ip_tx p ∷ [])
    × Carries o.pcb.session iss true false 0 [] p
    × (o.pcb.conn_state ≡ syn_sent)
    × (o.pcb.send_unack ≡ iss)
    × (o.pcb.send_next ≡ iss + 1)

send_in_closed :
    (pcb : TcpSession) (c : Counters) → SynIsSent (record (send_in closed pcb c []) { ret = 0 })
unfolding send_in send_segment
send_in_closed pcb c =
    (_, refl, transmit-Carries pcb.session c.last_id iss true false 0 [], refl, refl, refl)

pub send_in-session :
    (st : TcpState) (pcb : TcpSession) (c : Counters) (buf : List ℕ)
    → (send_in st pcb c buf).pcb.session ≡ pcb.session
unfolding send_in send_segment
send_in-session closed pcb c buf = refl
send_in-session established pcb c buf = refl
send_in-session _ pcb c buf = refl

-- `connect` on a closed session sets the peer and sends one SYN with the initial sequence number and
-- no payload; the session waits in SYN_SENT with that one number unacknowledged.
pub connect_sends_syn :
    (pcb : TcpSession) (c : Counters) (faddr fport : ℕ)
    → pcb.conn_state ≡ closed
    → let o = connect pcb c faddr fport in
      SynIsSent o × (o.pcb.session.faddr ≡ faddr) × (o.pcb.session.fport ≡ fport)
unfolding connect send Session.connect Session.send
connect_sends_syn pcb c faddr fport e =
    let b = Session.connect pcb.session faddr fport c.port in
    let b' = (Session.send b.session b.port).0 in
    let sent = send_in_closed (record pcb { session = b'.session }) (record c { port = b'.port }) in
    (
      subst
          (λ st.
            SynIsSent
              (record (send_in st (record pcb { session = b'.session })
                (record c { port = b'.port }) []) { ret = 0 }))
          (sym e) sent,
      ap (λ (s : Session). s.faddr) (send_in-session pcb.conn_state _ _ [])
          ∙ ((send_binds b.session b.port).0 ∙ (connect_binds pcb.session faddr fport c.port).0),
      ap (λ (s : Session). s.fport) (send_in-session pcb.conn_state _ _ [])
          ∙ ((send_binds b.session b.port).1 ∙ (connect_binds pcb.session faddr fport c.port).1),
    )

send_in-on_conn_estab_cb :
    (st : TcpState) (pcb : TcpSession) (c : Counters) (buf : List ℕ)
    → (send_in st pcb c buf).pcb.on_conn_estab_cb ≡ pcb.on_conn_estab_cb
unfolding send_in send_segment
send_in-on_conn_estab_cb closed pcb c buf = refl
send_in-on_conn_estab_cb established pcb c buf = refl
send_in-on_conn_estab_cb _ pcb c buf = refl

pub connect-on_conn_estab_cb :
    (pcb : TcpSession) (c : Counters) (faddr fport : ℕ)
    → (connect pcb c faddr fport).pcb.on_conn_estab_cb ≡ pcb.on_conn_estab_cb
unfolding connect send
connect-on_conn_estab_cb pcb c faddr fport = send_in-on_conn_estab_cb pcb.conn_state _ _ []

-- What SYN and ACK from the peer do: the peer's number is taken, one acknowledgement of it is sent,
-- and then the callback is called if one is set.
abbrev pub IsEstablished : TcpSession → TcpHdr → Outcome → Type 0
IsEstablished pcb hdr o =
    (p : Packet) × (o.actions ≡ ip_tx p ∷ (if pcb.on_conn_estab_cb then on_conn_estab ∷ [] else []))
    × Carries pcb.session pcb.send_next false true (u32 (swap32 hdr.seq + 1)) [] p
    × (o.pcb.conn_state ≡ established)
    × (o.pcb.recv_next ≡ u32 (swap32 hdr.seq + 1))
    × (o.pcb.send_unack ≡ u32 (pcb.send_unack + 1))
    × (o.pcb.send_next ≡ pcb.send_next)

recv_syn_ack-IsEstablished :
    (pcb : TcpSession) (c : Counters) (hdr : TcpHdr)
    → IsEstablished pcb hdr (recv_syn_ack pcb c hdr)
unfolding recv_syn_ack ack2peer
recv_syn_ack-IsEstablished pcb c hdr =
    let number = u32 (swap32 hdr.seq + 1) in
    (
      _,
      refl,
      transmit-Carries pcb.session c.last_id pcb.send_next false true number [],
      refl,
      refl,
      refl,
      refl,
    )

-- In SYN_SENT a segment with SYN and ACK establishes the connection; any other segment fails the
-- assertion.
pub recv_in_syn_sent :
    (pcb : TcpSession) (c : Counters) (seg : Segment)
    → pcb.conn_state ≡ syn_sent
    → (((seg.hdr.syn && seg.hdr.ack) ≡ false) × (recv pcb c seg ≡ none))
      ⊎ (((seg.hdr.syn && seg.hdr.ack) ≡ true)
          × (o : Outcome) × (recv pcb c seg ≡ some o)
          × IsEstablished pcb seg.hdr o)
unfolding recv recv_in
recv_in_syn_sent pcb c seg e = elim (Bool-cases (seg.hdr.syn && seg.hdr.ack)) [
  | inl t ↦ inr (
    t,
    recv_syn_ack pcb c seg.hdr,
    rw (e, t, recv, recv_in),
    recv_syn_ack-IsEstablished pcb c seg.hdr,
  )
  | inr f ↦ inl (f, rw (e, f, recv, recv_in))
]
