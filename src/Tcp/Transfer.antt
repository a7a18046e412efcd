-- ===== src/Tcp/Transfer.antt =====
-- src/veloxd/tcp/TcpSession.cpp: two sessions of the code, one that sends and one that receives,
-- joined by a network that keeps packets and their order, with the receiver's Endpoint.
use velox_project.Prelude.{
  ℕ, ◌+◌, ◌≤◌, sym, map, length-append, ◌^◌, ◌<◌, ◌≡◌, ◌≢◌, refl, ap, ◌∙◌, Option, none, some, List,
  [], ◌∷◌, ◌++◌, length, arith, All,
}
use mathlib.Core.List.{append_assoc, append-nil}
use velox_project.Endpoint
use velox_project.Endpoint.{Endpoint, Received, recv_q_limit}
use velox_project.Endpoint.Filling.{put_to_recv_q-room}
use velox_project.Ip.{Packet}
use velox_project.Tcp.{
  established, TcpSession, Counters, Action, ip_tx, put_to_recv_q, on_conn_estab, Outcome, send,
  recv,
}
use velox_project.Tcp.Wire.{segment_of}
use velox_project.Tcp.Stream.{send_established, recv_data}

-- The packets among the actions.
abbrev pub packets : List Action → List Packet
packets [] = []
packets (ip_tx p ∷ acts) = p ∷ packets acts
packets (put_to_recv_q b ∷ acts) = packets acts
packets (on_conn_estab ∷ acts) = packets acts

pub record Sent : Type 0 where
  pub pcb : TcpSession
  pub packets : List Packet

-- A send for each buffer.
pub send_all : TcpSession → Counters → List (List ℕ) → Sent
send_all pcb c [] = record { pcb = pcb; packets = [] }
send_all pcb c (buf ∷ bufs) =
    let o = send pcb c buf in
    let rest = send_all o.pcb o.counters bufs in
    record rest { packets = packets o.actions ++ rest.packets }

-- The entry of the queue that holds the bytes of one packet; the peer's address is not written, here 0.
abbrev pub segment_entry : List ℕ → Received
segment_entry buf = record { peer_addr = 0; peer_port = 0; frames = buf ∷ [] }

-- The session that receives, and its Endpoint.
pub record Arrived : Type 0 where
  pub pcb : TcpSession
  pub endpoint : Endpoint

abbrev IsData : List ℕ → Type 0
IsData buf = (0 < length buf) × (length buf ≤ 1478)

module _ (size_approx : List Received → ℕ) (capacity : ℕ) where
  -- The actions of `recv` on the Endpoint, in order.
  abbrev pub put_all : Endpoint → List Action → Endpoint
  put_all e [] = e
  put_all e (ip_tx p ∷ acts) = put_all e acts
  put_all e (put_to_recv_q buf ∷ acts) =
      put_all (Endpoint.put_to_recv_q size_approx capacity e (segment_entry buf)) acts
  put_all e (on_conn_estab ∷ acts) = put_all e acts

  -- A `recv` for each packet; `none` is a failed assertion.
  pub recv_all : TcpSession → Counters → Endpoint → List Packet → Option Arrived
  recv_all pcb c e [] = some (record { pcb = pcb; endpoint = e })
  recv_all pcb c e (p ∷ ps) = elim (recv pcb c (segment_of (p.transport ++ p.user_payload))) [
    | none ↦ none
    | some o ↦ recv_all o.pcb o.counters (put_all e o.actions) ps
  ]

  recv_all-cons :
      (b : TcpSession) (c : Counters) (e e' : Endpoint) (p : Packet) (ps : List Packet)
      (o : Outcome)
      → recv b c (segment_of (p.transport ++ p.user_payload)) ≡ some o
      → put_all e o.actions ≡ e'
      → recv_all b c e (p ∷ ps) ≡ recv_all o.pcb o.counters e' ps
  unfolding recv_all
  recv_all-cons b c e e' p ps o runs puts =
      rw (runs, recv_all) (ap (λ x. recv_all o.pcb o.counters x ps) puts)

  -- A buffer that finds room.
  put_one :
      (e : Endpoint) (buf : List ℕ) (bufs : List (List ℕ))
      → ((q : List Received) → size_approx q ≡ length q)
      → length e.recv_q + length (buf ∷ bufs) ≤ recv_q_limit + 1
      → let e' = Endpoint.put_to_recv_q size_approx capacity e (segment_entry buf) in
        (e'.recv_q ≡ e.recv_q ++ (segment_entry buf ∷ []))
        × (length e'.recv_q + length bufs ≤ recv_q_limit + 1)
  put_one e buf bufs exact room =
      let fits : size_approx e.recv_q ≤ recv_q_limit = omega (arith, exact e.recv_q) in
      let q = put_to_recv_q-room size_approx capacity e (segment_entry buf) fits in
      (q, omega (arith, ap length q, length-append e.recv_q (segment_entry buf ∷ [])))

  -- What one established, bound session sends, at most as many buffers as the receive queue of another still takes up to 129
  -- entries, each of 1 to 1478 bytes, that other one takes in full when it has received all before: behind what the queue of
  -- its Endpoint held, it then holds these buffers, unchanged and in order, no assertion fails, and the next number
  -- that the session waits for is the next that the sender will use. The size that the queue's library answers is
  -- the right one.
  pub recv_all-send_all :
      (a b : TcpSession) (ca cb : Counters) (e : Endpoint) (bufs : List (List ℕ))
      → ((q : List Received) → size_approx q ≡ length q)
      → length e.recv_q + length bufs ≤ recv_q_limit + 1
      → a.conn_state ≡ established
      → a.session.lport ≢ 0
      → a.send_next < 2 ^ 32
      → b.conn_state ≡ established
      → b.recv_next ≡ a.send_next
      → All IsData bufs
      → (r : Arrived) × (recv_all b cb e (send_all a ca bufs).packets ≡ some r)
        × (r.endpoint.recv_q ≡ e.recv_q ++ map segment_entry bufs)
        × (r.pcb.recv_next ≡ (send_all a ca bufs).pcb.send_next)
  unfolding send_all recv_all
  recv_all-send_all a b ca cb e [] exact room ea bound fits eb sync h =
      (record { pcb = b; endpoint = e }, refl, sym (append-nil e.recv_q), sync)
  recv_all-send_all a b ca cb e (buf ∷ bufs) exact room ea bound fits eb sync h =
      let o = send a ca buf in
      let (p, acts, carries, pcb_eq, _) = send_established a ca buf ea bound in
      let (o', runs, taken) =
        recv_data b cb a.session a.send_next a.recv_next buf p eb carries fits h.0.0
          (omega (arith, h.0.1)) in
      let e' = Endpoint.put_to_recv_q size_approx capacity e (segment_entry buf) in
      let (puts, left) = put_one e buf bufs exact room in
      let (r, rest, q, final) =
        recv_all-send_all o.pcb o'.pcb o.counters o'.counters e' bufs exact left (rw pcb_eq ea)
          (rw pcb_eq bound) (rw pcb_eq (omega arith)) taken.3 (taken.4 ∙ rw pcb_eq refl) h.1 in
      (
        r,
        rw acts (recv_all-cons b cb e e' p _ o' runs (ap (put_all e) taken.1) ∙ rest),
        q
            ∙ (ap (λ x. x ++ map segment_entry bufs) puts
                ∙ append_assoc e.recv_q (segment_entry buf ∷ []) (map segment_entry bufs)),
        final,
      )
