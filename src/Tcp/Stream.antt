-- ===== src/Tcp/Stream.antt =====
-- src/veloxd/tcp/TcpSession.cpp, `send` and `recv` in ESTABLISHED: the byte stream.
use velox_project.Prelude.{
  ℕ, ◌+◌, ◌*◌, ◌^◌, ◌<◌, ◌≡◌, ◌≢◌, refl, sym, ap, ap₂, subst, ◌∙◌, true, false, some, List, [], ◌∷◌,
  ◌++◌, length, drop, arith, u32, swap32, ◌==◌, ltb, ◌&&◌, inl, inr, Bool-cases,
}
use velox_project.Session.{Session}
use velox_project.Session
use velox_project.Ip.{Packet}
use velox_project.Tcp.{
  established, TcpHdr, TcpSession, Counters, ip_tx, put_to_recv_q, Outcome, Segment, tcp_bytes,
  send_segment, send_in, send, ack2peer, recv_established, deliver, recv_in, recv, take_ack,
}
use velox_project.Tcp.Wire.{
  segment_of, read_fields, drop-tcp_bytes, length-tcp_bytes, swap32-swap32, swap32-lt,
}
use velox_project.Tcp.Handshake.{Carries, transmit-Carries}

-- One data segment in ESTABLISHED, sent and accounted for.
abbrev pub DataIsSent : TcpSession → List ℕ → Outcome → Type 0
DataIsSent pcb buf o =
    (p : Packet) × (o.actions ≡ ip_tx p ∷ [])
    × Carries pcb.session pcb.send_next false true pcb.recv_next buf p
    × (o.pcb ≡ record pcb { send_next = u32 (pcb.send_next + length buf) })
    × (o.ret ≡ length buf)

send_in_established :
    (pcb : TcpSession) (c : Counters) (buf : List ℕ)
    → DataIsSent pcb buf (send_in established pcb c buf)
unfolding send_in send_segment
send_in_established pcb c buf = (
  _,
  refl,
  transmit-Carries pcb.session c.last_id pcb.send_next false true pcb.recv_next buf,
  refl,
  refl,
)

pub send_bound :
    (s : Session) (port : ℕ)
    → s.lport ≢ 0
    → (Session.send s port).0 ≡ record { session = s; port = port }
unfolding Session.send
send_bound s port h = ground arith

-- A bound, established session sends what it is given as one segment with the next number, and
-- moves that number on by the length.
pub send_established :
    (pcb : TcpSession) (c : Counters) (buf : List ℕ)
    → pcb.conn_state ≡ established
    → pcb.session.lport ≢ 0
    → DataIsSent pcb buf (send pcb c buf)
unfolding send
send_established pcb c buf e bound =
    let same : send pcb c buf ≡ send_in established pcb c buf =
      rw (send_bound pcb.session c.port bound, e, send) refl in
    subst (DataIsSent pcb buf) (sym same) (send_in_established pcb c buf)

-- The answer to a segment with payload: the payload goes to the queue as it is, its end is
-- acknowledged.
abbrev pub DataIsTaken : TcpSession → ℕ → List ℕ → Outcome → Type 0
DataIsTaken pcb seq buf o =
    (p : Packet) × (o.actions ≡ put_to_recv_q buf ∷ ip_tx p ∷ [])
    × Carries pcb.session pcb.send_next false true (u32 (seq + length buf)) [] p
    × (o.pcb.conn_state ≡ established)
    × (o.pcb.recv_next ≡ u32 (seq + length buf))
    × (o.pcb.send_next ≡ pcb.send_next)
    × (o.pcb.session ≡ pcb.session)

take_ack_keeps :
    (pcb : TcpSession) (hdr : TcpHdr)
    → ((take_ack pcb hdr).session ≡ pcb.session)
      × ((take_ack pcb hdr).send_next ≡ pcb.send_next)
      × ((take_ack pcb hdr).conn_state ≡ pcb.conn_state)
unfolding take_ack
take_ack_keeps pcb hdr = elim (Bool-cases (hdr.ack && ltb pcb.send_unack (swap32 hdr.ack_seq))) [
  | inl t ↦ rw t (refl, refl, refl)
  | inr f ↦ rw f (refl, refl, refl)
]

deliver-DataIsTaken :
    (pcb : TcpSession) (c : Counters) (seq : ℕ) (buf : List ℕ)
    → pcb.conn_state ≡ established
    → DataIsTaken pcb seq buf (deliver pcb c buf (u32 (seq + length buf)))
unfolding deliver ack2peer
deliver-DataIsTaken pcb c seq buf e = (
  _,
  refl,
  transmit-Carries pcb.session c.last_id pcb.send_next false true (u32 (seq + length buf)) [],
  e,
  refl,
  refl,
  refl,
)

-- A segment with a header of five words and some payload.
pub recv_established_data :
    (pcb : TcpSession) (c : Counters) (seg : Segment) (seq : ℕ) (buf : List ℕ)
    → pcb.conn_state ≡ established
    → swap32 seg.hdr.seq ≡ seq
    → seg.hdr.doff ≡ 5
    → drop 20 seg.bytes ≡ buf
    → length seg.bytes ≡ 20 + length buf
    → 0 < length buf
    → length buf < 2 ^ 32
    → DataIsTaken pcb seq buf (recv_established pcb c seg)
unfolding recv_established
recv_established_data pcb c seg seq buf e s d rest len nonempty fits =
    let pcb' = take_ack pcb seg.hdr in
    let keeps = take_ack_keeps pcb seg.hdr in
    let taken = deliver-DataIsTaken pcb' c seq buf (keeps.2 ∙ e) in
    let goes : recv_established pcb c seg ≡ deliver pcb' c buf (u32 (seq + length buf)) =
      rw (not_empty, recv_established)
        (ap₂ (deliver pcb' c) (rw d rest) (rw (s, d) (omega arith))) in
    subst (DataIsTaken pcb seq buf) (sym goes) (
      taken.0,
      taken.1,
      subst (λ n. Carries pcb.session n false true (u32 (seq + length buf)) [] taken.0) keeps.1
          (subst (λ v. Carries v pcb'.send_next false true (u32 (seq + length buf)) [] taken.0)
            keeps.0 taken.2),
      taken.3,
      taken.4,
      taken.5 ∙ keeps.1,
      taken.6 ∙ keeps.0,
    )
  where
    not_empty : (length seg.bytes == seg.hdr.doff * 4) ≡ false
    not_empty = ground arith

pub recv-recv_established :
    (pcb : TcpSession) (c : Counters) (seg : Segment)
    → pcb.conn_state ≡ established
    → recv pcb c seg ≡ some (recv_established pcb c seg)
unfolding recv recv_in
recv-recv_established pcb c seg e = ap (λ st. recv_in st pcb c seg) e

-- A packet of another session's `send`, read by `recv` of an established one.
pub recv_data :
    (pcb : TcpSession) (c : Counters) (peer : Session) (seq ack_seq : ℕ) (buf : List ℕ) (p : Packet)
    → pcb.conn_state ≡ established
    → Carries peer seq false true ack_seq buf p
    → seq < 2 ^ 32
    → 0 < length buf
    → length buf < 2 ^ 32
    → (o : Outcome) × (recv pcb c (segment_of (p.transport ++ p.user_payload)) ≡ some o)
      × DataIsTaken pcb seq buf o
recv_data pcb c peer seq ack_seq buf p e sent s nonempty fits =
    let seg = segment_of (tcp_bytes sent.hdr ++ buf) in
    let fields =
      read_fields sent.hdr buf (rw sent.seq_eq (swap32-lt seq)) (rw sent.doff_eq (omega arith)) in
    rw (sent.transport_eq, sent.payload_eq)
      (
        recv_established pcb c seg,
        recv-recv_established pcb c seg e,
        recv_established_data pcb c seg seq buf e
            (ap (λ n. swap32 n) (fields.0 ∙ sent.seq_eq) ∙ swap32-swap32 seq s)
            (fields.1 ∙ sent.doff_eq) (drop-tcp_bytes sent.hdr buf) (length-tcp_bytes sent.hdr buf)
            nonempty fits,
      )
