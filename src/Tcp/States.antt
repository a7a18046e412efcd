-- ===== src/Tcp/States.antt =====
-- src/veloxd/tcp/TcpSession.cpp: the states that a session reaches, over any history of calls.
use velox_project.Prelude.{
  ℕ, ◌+◌, ◌≡◌, ◌⊎◌, inl, inr, refl, Bool, true, false, ◌&&◌, Option, none, some, List, [], ◌∷◌,
  arith, Option-cases, if◌then◌else◌, subst,
}
use velox_project.Session
use velox_project.Tcp.{
  TcpState, closed, syn_sent, established, TcpSession, Counters, Outcome, Segment, iss,
  send_segment, send_in, send, connect, recv_syn_ack, recv_established, recv_in, recv, take_ack,
  deliver, set_on_conn_estab_cb, new_tcp_session,
}
use mathlib.Core.Option.{some-injective}

pub data Event : Type 0 where
  connects : ℕ → ℕ → Event
  sets_callback : Event
  sends : List ℕ → Event
  receives : Segment → Event

unfoldable pub step : TcpSession → Counters → Event → Option Outcome
step pcb c (connects faddr fport) = some (connect pcb c faddr fport)
step pcb c sets_callback =
    some (record { pcb = set_on_conn_estab_cb pcb; counters = c; actions = []; ret = 0 })
step pcb c (sends buf) = some (send pcb c buf)
step pcb c (receives seg) = recv pcb c seg

-- A history of calls; `none` is a failed assertion.
unfoldable pub run : TcpSession → Counters → List Event → Option TcpSession
run pcb c [] = some pcb
run pcb c (e ∷ es) = elim (step pcb c e) [ none ↦ none | some o ↦ run o.pcb o.counters es ]

-- The states of a client: before the SYN, waiting for its answer with the SYN's number alone
-- unacknowledged, and connected.
abbrev pub IsClient : TcpSession → Type 0
IsClient pcb =
    (pcb.conn_state ≡ closed)
    ⊎ (((pcb.conn_state ≡ syn_sent) × (pcb.send_unack ≡ iss) × (pcb.send_next ≡ iss + 1))
        ⊎ (pcb.conn_state ≡ established))

send_in-IsClient :
    (st : TcpState) (pcb : TcpSession) (c : Counters) (buf : List ℕ)
    → pcb.conn_state ≡ st
    → IsClient pcb
    → IsClient (send_in st pcb c buf).pcb
unfolding send_in send_segment
send_in-IsClient closed pcb c buf e h = inr (inl (refl, refl, refl))
send_in-IsClient established pcb c buf e h = inr (inr e)
send_in-IsClient _ pcb c buf e h = h

send-IsClient :
    (pcb : TcpSession) (c : Counters) (buf : List ℕ) → IsClient pcb → IsClient (send pcb c buf).pcb
unfolding send
send-IsClient pcb c buf h =
    send_in-IsClient pcb.conn_state
      (record pcb { session = (Session.send pcb.session c.port).0.session }) _ buf refl h

connect-IsClient :
    (pcb : TcpSession) (c : Counters) (faddr fport : ℕ)
    → IsClient pcb
    → IsClient (connect pcb c faddr fport).pcb
unfolding connect
connect-IsClient pcb c faddr fport h =
    send-IsClient
      (record pcb { session = (Session.connect pcb.session faddr fport c.port).session }) _ [] h

recv_established-IsClient :
    (pcb : TcpSession) (c : Counters) (seg : Segment)
    → pcb.conn_state ≡ established
    → IsClient (recv_established pcb c seg).pcb
unfolding recv_established deliver take_ack
recv_established-IsClient pcb c seg e = inr (inr (ground arith))

some-IsClient : (x o : Outcome) → some x ≡ some o → IsClient x.pcb → IsClient o.pcb
some-IsClient x o r h = subst (λ (o : Outcome). IsClient o.pcb) (some-injective x o r) h

-- What an assertion lets pass is the outcome behind it.
past_assert :
    (b : Bool) (x o : Outcome)
    → (if b then some x else none) ≡ some o
    → IsClient x.pcb
    → IsClient o.pcb
past_assert true x o r h = some-IsClient _ o r h
past_assert false x o r h = cc

recv_in-IsClient :
    (st : TcpState) (pcb : TcpSession) (c : Counters) (seg : Segment) (o : Outcome)
    → pcb.conn_state ≡ st
    → IsClient pcb
    → recv_in st pcb c seg ≡ some o
    → IsClient o.pcb
unfolding recv_in recv_syn_ack
recv_in-IsClient syn_sent pcb c seg o e h r =
    past_assert (seg.hdr.syn && seg.hdr.ack) (recv_syn_ack pcb c seg.hdr) o r (inr (inr refl))
recv_in-IsClient established pcb c seg o e h r =
    some-IsClient _ o r (recv_established-IsClient pcb c seg e)
recv_in-IsClient _ pcb c seg o e h r = some-IsClient _ o r h

step-IsClient :
    (pcb : TcpSession) (c : Counters) (e : Event) (o : Outcome)
    → IsClient pcb
    → step pcb c e ≡ some o
    → IsClient o.pcb
unfolding step recv set_on_conn_estab_cb
step-IsClient pcb c (connects faddr fport) o h r =
    some-IsClient _ o r (connect-IsClient pcb c faddr fport h)
step-IsClient pcb c sets_callback o h r = some-IsClient _ o r h
step-IsClient pcb c (sends buf) o h r = some-IsClient _ o r (send-IsClient pcb c buf h)
step-IsClient pcb c (receives seg) o h r = recv_in-IsClient pcb.conn_state pcb c seg o refl h r

run-IsClient :
    (pcb last : TcpSession) (c : Counters) (es : List Event)
    → IsClient pcb
    → run pcb c es ≡ some last
    → IsClient last
unfolding run
run-IsClient pcb last c [] h r = subst IsClient (some-injective _ _ r) h
run-IsClient pcb last c (e ∷ es) h r = elim (Option-cases (step pcb c e)) [
  | inl stops ↦ cc (rw (stops, run) at r)
  | inr (o, goes) ↦
      run-IsClient o.pcb last o.counters es (step-IsClient pcb c e o h goes) (rw (goes, run) at r)
]

-- From its constructor on, whatever it is asked to do and whatever arrives, a session that fails no
-- assertion is closed, in SYN_SENT with the SYN's number alone unacknowledged, or established.
pub run-new_tcp_session :
    (addr : ℕ) (mem last : TcpSession) (c : Counters) (es : List Event)
    → run (new_tcp_session addr mem) c es ≡ some last
    → IsClient last
unfolding new_tcp_session
run-new_tcp_session addr mem last c es r =
    run-IsClient (new_tcp_session addr mem) last c es (inl refl) r
