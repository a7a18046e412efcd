-- ===== src/Tcp/Demux.antt =====
-- src/veloxd/tcp/Tcp.cpp, `Tcp::rx`: from the IP layer to the session that a segment is for.
use velox_project.Prelude.{ℕ, Option, none, some, List}
use velox_project.Session
use velox_project.Session.{Flow}
use velox_project.Tcp.{TcpSession, Counters, Segment, Outcome, recv}

-- The live sessions, as the search sees them.
abbrev pub locked : (ℕ → Option TcpSession) → ℕ → Option Session.Session
locked lock i = elim (lock i) [ none ↦ none | some pcb ↦ some pcb.session ]

abbrev pub flow_of : ℕ → ℕ → Segment → Flow
flow_of saddr daddr seg = record {
  faddr = saddr;
  fport = seg.hdr.source;
  laddr = daddr;
  lport = seg.hdr.dest;
}

-- The session that `Tcp::rx` finds, and what its `recv` does; `none` is a drop, the inner `none` the failed
-- `assert` of `recv`.
unfoldable pub run_recv :
    (ℕ → Option TcpSession) → Counters → Segment → ℕ → Option (ℕ × Option Outcome)
run_recv lock c seg i = elim (lock i) [ none ↦ none | some pcb ↦ some (i, recv pcb c seg) ]

unfoldable pub rx :
    (ℕ → Option TcpSession) → List ℕ → Counters → ℕ → ℕ → Segment → Option (ℕ × Option Outcome)
unfolding run_recv
rx lock pcbs c saddr daddr seg = elim (Session.find (locked lock) (flow_of saddr daddr seg) pcbs) [
  | none ↦ none
  | some i ↦ run_recv lock c seg i
]
