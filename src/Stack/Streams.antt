-- ===== src/Stack/Streams.antt =====
-- src/veloxd/tcp/TcpSession.cpp, `send` and `recv` in ESTABLISHED, with ip/Ip.cpp and interface/TunIface.cpp
-- between them: the data of a connection from one host to another, and its acknowledgement.
use velox_project.Prelude.{
  ℕ, sym, ◌+◌, ◌^◌, ◌≤◌, ◌<◌, ◌≡◌, ◌≢◌, ◌⊎◌, inl, inr, refl, ap, subst, ◌∙◌, true, false, some,
  List, [], ◌∷◌, ◌++◌, length, arith, u32, swap32,
}
use velox_project.Session.{Flow}
use velox_project.Session.Find.{IsBestMatch, AllMatches}
use velox_project.Ip.{Packet}
use velox_project.Ip.Reassembler.{FrameBuf}
use velox_project.Interface
use velox_project.Interface.{receive}
use velox_project.Tcp
use velox_project.Tcp.{
  TcpHdr, TcpSession, Counters, Outcome, established, ip_tx, put_to_recv_q,
  socket_buffer_of_tcp_templ, send_in, send_segment, transmit, prepare_before_ip_tx,
}
use velox_project.Tcp.Wire.{IsTcpHdr, drop-tcp_bytes, length-tcp_bytes, swap32-swap32, swap32-lt}
use velox_project.Tcp.Demux.{locked}
use velox_project.Tcp.Handshake.{Carries}
use velox_project.Tcp.Stream.{send_bound, recv-recv_established, recv_established_data}
use velox_project.Endpoint
use velox_project.Endpoint.{Endpoint, Received}
use velox_project.Endpoint.Filling.{Takes, put_to_recv_q-Takes}
use velox_project.Stack.Sockets.{at_self}
use velox_project.Tcp.Transfer.{segment_entry}
use velox_project.Stack.{Stack, at, rx_turn, after_recv, act_all, act}
use velox_project.Stack.Segments.{SegmentArrives, sent_segment, with_check, transmit-SegmentArrives}

-- The header of a data segment.
abbrev pub data_hdr : TcpSession → TcpHdr
data_hdr pcb =
    let h = socket_buffer_of_tcp_templ pcb.session in
    record h { seq = swap32 pcb.send_next; ack = true; ack_seq = swap32 pcb.recv_next }

send-transmit :
    (pcb : TcpSession) (c : Counters) (buf : List ℕ)
    → pcb.conn_state ≡ established
    → pcb.session.lport ≢ 0
    → (Tcp.send pcb c buf).actions
      ≡ ip_tx (transmit pcb.session c.last_id (data_hdr pcb) buf).1 ∷ []
unfolding Tcp.send send_in send_segment
send-transmit pcb c buf e bound =
    rw (send_bound pcb.session c.port bound, e, Tcp.send, send_in) refl

-- The checksum apart, the header that arrives is the one that was sent.
data_segment :
    (pcb : TcpSession) (buf : List ℕ)
    → pcb.send_next < 2 ^ 32
    → let h = with_check pcb.session (data_hdr pcb) buf in
      (swap32 h.seq ≡ pcb.send_next) × (h.doff ≡ 5)
unfolding prepare_before_ip_tx socket_buffer_of_tcp_templ
data_segment pcb buf fits = (swap32-swap32 pcb.send_next fits, refl)

data_hdr_fits :
    (pcb : TcpSession)
    → pcb.session.lport < 2 ^ 16
    → pcb.session.fport < 2 ^ 16
    → IsTcpHdr (data_hdr pcb)
unfolding socket_buffer_of_tcp_templ
data_hdr_fits pcb lport fport = record {
  source_fits = lport;
  dest_fits = fport;
  seq_fits = swap32-lt pcb.send_next;
  ack_seq_fits = swap32-lt pcb.recv_next;
  doff_fits = omega arith;
  window_fits = omega arith;
  check_fits = omega arith;
}

data_hdr-ports :
    (pcb : TcpSession)
    → ((data_hdr pcb).source ≡ pcb.session.lport) × ((data_hdr pcb).dest ≡ pcb.session.fport)
unfolding socket_buffer_of_tcp_templ
data_hdr-ports pcb = (refl, refl)

module _ (size_approx : List Received → ℕ) (capacity : ℕ) where
  -- The stack behind a data segment: the session, its Endpoint, and the acknowledgement on the device.
  abbrev pub with_data : Stack → ℕ → Outcome → List ℕ → Packet → Stack
  with_data s i o buf ack = record s {
    tcp_sessions = at s.tcp_sessions i (some o.pcb);
    tcp_counters = o.counters;
    tcp_endpoints =
        at s.tcp_endpoints i
          (Endpoint.put_to_recv_q size_approx capacity (s.tcp_endpoints i) (segment_entry buf));
    written = s.written ++ (Interface.tx (ack ∷ []) ∷ []);
  }

  after_data :
      (s : Stack) (i : ℕ) (o : Outcome) (buf : List ℕ) (ack : Packet)
      → o.actions ≡ put_to_recv_q buf ∷ ip_tx ack ∷ []
      → after_recv size_approx capacity s [] i (some o) ≡ some (with_data s i o buf ack)
  unfolding after_recv act_all act
  after_data s i o buf ack e =
      ap
        (λ actions. some (
          act_all size_approx capacity i []
            (record s {
              tcp_sessions = at s.tcp_sessions i (some o.pcb);
              tcp_counters = o.counters;
            })
            actions))
        e

  -- What becomes of data with a first number at the host that it is for.
  abbrev pub StreamArrives : Stack → FrameBuf → Flow → ℕ → List ℕ → Type 0
  StreamArrives s f flow seq buf =
      ((rx_turn size_approx capacity s f ≡ some s)
        × AllMatches (locked s.tcp_sessions) flow (λ n. ⊥) s.tcp_pcbs)
      ⊎ ((i : ℕ) × (pcb : TcpSession) × (o : Outcome) × (ack : Packet) × (s.tcp_sessions i
            ≡ some pcb)
          × (rx_turn size_approx capacity s f ≡ some (with_data s i o buf ack))
          × Carries pcb.session pcb.send_next false true (u32 (seq + length buf)) [] ack
          × (o.pcb.conn_state ≡ established)
          × (o.pcb.recv_next ≡ u32 (seq + length buf))
          × Takes size_approx (s.tcp_endpoints i).recv_q (segment_entry buf)
              ((with_data s i o buf ack).tcp_endpoints i).recv_q
          × IsBestMatch (locked s.tcp_sessions) flow s.tcp_pcbs i)

  stream_of_segment :
      (s : Stack) (f : FrameBuf) (flow : Flow) (a : TcpSession) (buf : List ℕ)
      → ((i : ℕ) (t : TcpSession) → s.tcp_sessions i ≡ some t → t.conn_state ≡ established)
      → a.send_next < 2 ^ 32
      → 0 < length buf
      → length buf < 2 ^ 32
      → SegmentArrives size_approx capacity s f flow
          (sent_segment (with_check a.session (data_hdr a) buf) buf)
      → StreamArrives s f flow a.send_next buf
  stream_of_segment s f flow a buf all fits nonempty small (inl x) = inl x
  stream_of_segment s f flow a buf all fits nonempty small (inr (i, pcb, live, turn, best)) =
      let h = with_check a.session (data_hdr a) buf in
      let seg = sent_segment h buf in
      let (seq, doff) = data_segment a buf fits in
      let est = all i pcb live in
      let o = Tcp.recv_established pcb s.tcp_counters seg in
      let (ack, acts, carries, state, next, _, _) =
        recv_established_data pcb s.tcp_counters seg a.send_next buf est seq doff
          (drop-tcp_bytes h buf) (length-tcp_bytes h buf) nonempty small in
      inr (
        i,
        pcb,
        o,
        ack,
        live,
        turn
            ∙ ap (λ o. after_recv size_approx capacity s [] i o)
                (recv-recv_established pcb s.tcp_counters seg est)
            ∙ after_data s i o buf ack acts,
        carries,
        state,
        next,
        subst
            (λ (e : Endpoint).
              Takes size_approx (s.tcp_endpoints i).recv_q (segment_entry buf) e.recv_q)
            (sym (at_self s.tcp_endpoints i _))
            (put_to_recv_q-Takes size_approx capacity (s.tcp_endpoints i) (segment_entry buf)),
        best,
      )

  -- `send` of an established, bound session with 1 to 1478 bytes makes one packet, which one write to the device and one
  -- read from it turn into a frame; at a host whose live TCP sessions are established, the turn of the loop on it
  -- moves the number that the session that matches best waits for behind these bytes, and writes to the device a segment
  -- that acknowledges that number; exactly these bytes then stand at the end of its Endpoint's queue, behind what was there,
  -- if the approximate size of that was at most 128, and otherwise they are dropped and the queue is as before. With no such
  -- session the turn changes nothing. Addresses fit 32 bits and ports 16.
  pub send-StreamArrives :
      (s : Stack) (rx_q : List FrameBuf) (a : TcpSession) (c : Counters) (buf : List ℕ)
      → a.conn_state ≡ established
      → a.session.lport ≢ 0
      → a.send_next < 2 ^ 32
      → a.session.laddr < 2 ^ 32
      → a.session.faddr < 2 ^ 32
      → a.session.lport < 2 ^ 16
      → a.session.fport < 2 ^ 16
      → 0 < length buf
      → length buf ≤ 1478
      → ((i : ℕ) (t : TcpSession) → s.tcp_sessions i ≡ some t → t.conn_state ≡ established)
      → let v = a.session in
        (p : Packet) × (f : FrameBuf) × ((Tcp.send a c buf).actions ≡ ip_tx p ∷ [])
        × (receive rx_q (some (Interface.tx (p ∷ []))) ≡ some (rx_q ++ (f ∷ [])))
        × StreamArrives s f
            (record { faddr = v.laddr; fport = v.lport; laddr = v.faddr; lport = v.fport })
            a.send_next
            buf
  send-StreamArrives s rx_q a c buf est bound fits laddr faddr lport fport nonempty small all =
      let v = a.session in
      let (f, queued, arrives) =
        transmit-SegmentArrives size_approx capacity s rx_q v c.last_id (data_hdr a) buf laddr faddr
          (data_hdr_fits a lport fport) small in
      let (source, dest) = data_hdr-ports a in
      (
        _,
        f,
        send-transmit a c buf est bound,
        queued,
        stream_of_segment s f _ a buf all fits nonempty (omega arith) (
            subst
              (λ (x : ℕ).
                SegmentArrives size_approx capacity s f
                  (record { faddr = v.laddr; fport = x; laddr = v.faddr; lport = v.fport })
                  (sent_segment (with_check v (data_hdr a) buf) buf))
              source
              (subst
                (λ (x : ℕ).
                  SegmentArrives size_approx capacity s f
                    (record {
                      faddr = v.laddr;
                      fport = (data_hdr a).source;
                      laddr = v.faddr;
                      lport = x;
                    })
                    (sent_segment (with_check v (data_hdr a) buf) buf))
                dest arrives)),
      )
