-- ===== src/Tcp/Refusals.antt =====
-- src/veloxd/tcp/Tcp.cpp, `Tcp::rx`: the segments that fail the assertion of `TcpSession::recv`.
use velox_project.Prelude.{
  ℕ, ◌≡◌, ◌⊎◌, inl, inr, refl, ap, false, ◌&&◌, Option, none, some, List, [], Bool-cases,
  Option-cases,
}
use velox_project.Session
use velox_project.Session.{Flow}
use velox_project.Tcp.{
  TcpSession, TcpState, syn_sent, Counters, Segment, Outcome, recv, recv_in, recv_syn_ack,
  recv_established, closed, established, listen, syn_received, fin_wait_1, fin_wait_2, closing,
  time_wait, close_wait, last_ack,
}
use velox_project.Tcp.Demux
use velox_project.Tcp.Demux.{locked, flow_of, run_recv}

-- A session in SYN_SENT, with a segment that does not have both SYN and ACK.
abbrev pub IsRefusal : (ℕ → Option TcpSession) → List ℕ → ℕ → ℕ → Segment → Type 0
IsRefusal lock pcbs saddr daddr seg =
    (i : ℕ) × (pcb : TcpSession) × (Session.find (locked lock) (flow_of saddr daddr seg) pcbs
      ≡ some i)
    × (lock i ≡ some pcb)
    × (pcb.conn_state ≡ syn_sent)
    × ((seg.hdr.syn && seg.hdr.ack) ≡ false)

idle : TcpSession → Counters → Outcome
idle pcb c = record { pcb = pcb; counters = c; actions = []; ret = 0 }

recv_in-cases :
    (state : TcpState) (pcb : TcpSession) (c : Counters) (seg : Segment)
    → ((recv_in state pcb c seg ≡ none)
        × (state ≡ syn_sent)
        × ((seg.hdr.syn && seg.hdr.ack) ≡ false))
      ⊎ ((o : Outcome) × (recv_in state pcb c seg ≡ some o))
unfolding recv_in idle
recv_in-cases syn_sent pcb c seg = elim (Bool-cases (seg.hdr.syn && seg.hdr.ack)) [
  | inl t ↦ inr (recv_syn_ack pcb c seg.hdr, rw (recv_in, t) refl)
  | inr f ↦ inl (rw (recv_in, f) refl, refl, f)
]
recv_in-cases established pcb c seg = inr (recv_established pcb c seg, refl)
recv_in-cases closed pcb c seg = inr (idle pcb c, refl)
recv_in-cases listen pcb c seg = inr (idle pcb c, refl)
recv_in-cases syn_received pcb c seg = inr (idle pcb c, refl)
recv_in-cases fin_wait_1 pcb c seg = inr (idle pcb c, refl)
recv_in-cases fin_wait_2 pcb c seg = inr (idle pcb c, refl)
recv_in-cases closing pcb c seg = inr (idle pcb c, refl)
recv_in-cases time_wait pcb c seg = inr (idle pcb c, refl)
recv_in-cases close_wait pcb c seg = inr (idle pcb c, refl)
recv_in-cases last_ack pcb c seg = inr (idle pcb c, refl)

recv-cases :
    (pcb : TcpSession) (c : Counters) (seg : Segment)
    → ((recv pcb c seg ≡ none)
        × (pcb.conn_state ≡ syn_sent)
        × ((seg.hdr.syn && seg.hdr.ack) ≡ false))
      ⊎ ((o : Outcome) × (recv pcb c seg ≡ some o))
unfolding recv
recv-cases pcb c seg = recv_in-cases pcb.conn_state pcb c seg

pub run_recv-cases :
    (lock : ℕ → Option TcpSession) (pcbs : List ℕ) (c : Counters) (saddr daddr : ℕ) (seg : Segment)
    → (Demux.rx lock pcbs c saddr daddr seg ≡ none)
      ⊎ (((i : ℕ) × (o : Outcome) × (Demux.rx lock pcbs c saddr daddr seg ≡ some (i, some o)))
          ⊎ ((i : ℕ) × (Demux.rx lock pcbs c saddr daddr seg ≡ some (i, none))
              × IsRefusal lock pcbs saddr daddr seg))
unfolding Demux.rx run_recv
run_recv-cases lock pcbs c saddr daddr seg =
    elim (Option-cases (Session.find (locked lock) (flow_of saddr daddr seg) pcbs)) [
      | inl n ↦ inl (rw (Demux.rx, n) refl)
      | inr (i, f) ↦ elim (Option-cases (lock i)) [
        | inl n ↦ inl (rw (Demux.rx, f) (rw (run_recv, n) refl))
        | inr (pcb, l) ↦
            (let to : (r : Option Outcome)
                  → recv pcb c seg ≡ r
                  → Demux.rx lock pcbs c saddr daddr seg ≡ some (i, r) =
                λ r e. rw (Demux.rx, f) (rw (run_recv, l) (ap (λ r. some (i, r)) e)) in
              elim (recv-cases pcb c seg) [
                | inl (e, state, test) ↦ inr (inr (i, to none e, (i, pcb, f, l, state, test)))
                | inr (o, e) ↦ inr (inl (i, o, to (some o) e))
              ])
      ]
    ]
