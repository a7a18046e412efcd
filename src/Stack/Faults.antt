-- ===== src/Stack/Faults.antt =====
-- src/veloxd/ip/Ip.cpp, the loop of `Ip::start`, down to tcp/TcpSession.cpp: when a run of frames ends the daemon.
use velox_project.Prelude.{
  ℕ, ◌<◌, ◌≡◌, ◌⊎◌, inl, inr, refl, ap, sym, subst, ◌∙◌, true, Option, none, some, List, [], ◌∷◌,
  ◌++◌, ◌+◌, drop, All, Option-cases,
}
use velox_project.Tcp.{Action, ip_tx, put_to_recv_q, on_conn_estab, Outcome}
use velox_project.Endpoint.{Received}
use velox_project.Ip.{is_frag}
use velox_project.Ip.Reassembler.{FrameBuf}
use velox_project.Ip.Reassembler.Groups.{IsSound}
use velox_project.Ip.Receiving.{Handed, nothing, to_udp, to_tcp, Turn, rx_body}
use velox_project.Ip.Receiving.Turns.{IsMisplaced, rx_body-Turns}
use velox_project.Udp
use velox_project.Udp.Wire.{read_udp_hdr}
use velox_project.Stack.{
  Stack, at, bytes_from, segment_at, udp_rx, act, act_all, after_recv, tcp_rx, take_handed, rx_turn,
  rx_loop,
}
use velox_project.Tcp.Refusals.{IsRefusal, run_recv-cases}

module _ (size_approx : List Received → ℕ) (capacity : ℕ) where
  act-groups :
      (i : ℕ) (next : List FrameBuf) (s : Stack) (a : Action)
      → (act size_approx capacity i next s a).groups ≡ s.groups
  unfolding act
  act-groups i next s (ip_tx p) = refl
  act-groups i next s (put_to_recv_q payload) = refl
  act-groups i next s on_conn_estab = refl

  act_all-groups :
      (i : ℕ) (next : List FrameBuf) (s : Stack) (actions : List Action)
      → (act_all size_approx capacity i next s actions).groups ≡ s.groups
  unfolding act_all
  act_all-groups i next s [] = refl
  act_all-groups i next s (a ∷ rest) =
      act_all-groups i next (act size_approx capacity i next s a) rest ∙ act-groups i next s a

  udp_rx-groups :
      (s : Stack) (f : FrameBuf) (next : List FrameBuf) (n : ℕ)
      → (udp_rx size_approx capacity s f next n).groups ≡ s.groups
  unfolding udp_rx
  udp_rx-groups s f next n =
      elim (Option-cases (
        Udp.rx s.udp_sessions s.udp_pcbs f.hdr.saddr f.hdr.daddr (read_udp_hdr (drop n f.raw_bytes))
          (bytes_from (n + 8) f))) [
            | inl e ↦ rw (udp_rx, e) refl
            | inr (r, e) ↦ rw (udp_rx, e) refl
          ]

  -- TCP refuses what is handed to it.
  abbrev pub IsRefused : Stack → Handed → Type 0
  IsRefused s (to_tcp f next n) =
      IsRefusal s.tcp_sessions s.tcp_pcbs f.hdr.saddr f.hdr.daddr (segment_at n f)
  IsRefused s _ = ⊥

  Takes : Stack → Option Stack → Type 0
  Takes s o = (s' : Stack) × (o ≡ some s') × (s'.groups ≡ s.groups)

  after_recv-Takes :
      (s : Stack) (next : List FrameBuf) (i : ℕ) (o : Outcome)
      → Takes s (after_recv size_approx capacity s next i (some o))
  unfolding Takes after_recv
  after_recv-Takes s next i o =
      let s' : Stack = record s {
        tcp_sessions = at s.tcp_sessions i (some o.pcb);
        tcp_counters = o.counters;
      } in
      (act_all size_approx capacity i next s' o.actions, refl, act_all-groups i next s' o.actions)

  take_handed-cases :
      (s : Stack) (h : Handed)
      → ((take_handed size_approx capacity s h ≡ none) × IsRefused s h)
        ⊎ Takes s (take_handed size_approx capacity s h)
  unfolding take_handed tcp_rx Takes
  take_handed-cases s nothing = inr (s, refl, refl)
  take_handed-cases s (to_udp f next n) =
      inr (udp_rx size_approx capacity s f next n, refl, udp_rx-groups s f next n)
  take_handed-cases s (to_tcp f next n) =
      elim (run_recv-cases s.tcp_sessions s.tcp_pcbs s.tcp_counters f.hdr.saddr f.hdr.daddr
        (segment_at n f)) [
          | inl e ↦ inr (s, rw (tcp_rx, e) refl, refl)
          | inr (inl (i, o, e)) ↦
              (let (s', e', same) = after_recv-Takes s next i o in
                inr (s', rw (tcp_rx, e) e', same))
          | inr (inr (i, e, refusal)) ↦ inl (rw (tcp_rx, e) refl, refusal)
        ]

  -- A frame whose header is there, and whose protocol is in the table.
  abbrev pub IsReadable : FrameBuf → Type 0
  IsReadable f = (f.has_network_hdr ≡ true) × (f.hdr.protocol < 255)

  -- The two faults: a fragment that is misplaced in its group, and a segment that the TCP session refuses.
  abbrev pub IsFatal : Stack → FrameBuf → Type 0
  IsFatal s f =
      ((is_frag f.hdr ≡ true) × IsMisplaced s.groups f)
      ⊎ ((t : Turn) × (rx_body s.groups f ≡ some t)
          × IsRefused (record s { groups = t.groups }) t.handed)

  rx_turn-cases :
      (s : Stack) (f : FrameBuf)
      → IsSound s.groups
      → IsReadable f
      → ((rx_turn size_approx capacity s f ≡ none) × IsFatal s f)
        ⊎ ((s' : Stack) × (rx_turn size_approx capacity s f ≡ some s') × IsSound s'.groups)
  unfolding rx_turn Takes
  rx_turn-cases s f v (h, small) = elim (rx_body-Turns s.groups f v h small) [
    | inl (frag, misplaced, e) ↦ inl (rw (rx_turn, e) refl, inl (frag, misplaced))
    | inr (t, e, sound, handed) ↦
        elim (take_handed-cases (record s { groups = t.groups }) t.handed) [
          | inl (n, refused) ↦ inl (rw (rx_turn, e) n, inr (t, e, refused))
          | inr (s', e', same) ↦ inr (s', rw (rx_turn, e) e', subst IsSound (sym same) sound)
        ]
  ]

  -- The frame of the queue at which the loop faults, behind a run of turns.
  abbrev pub Faults : Stack → List FrameBuf → Type 0
  Faults s rx_q =
      (before : List FrameBuf) × (f : FrameBuf) × (behind : List FrameBuf) × (s' : Stack) × (rx_q
        ≡ before ++ (f ∷ behind))
      × (rx_loop size_approx capacity s before ≡ some s')
      × IsFatal s' f

  -- Frames whose headers are there, and whose protocols are not 255, on a list of groups in which each has fragments,
  -- all of its own packet and not a complete one, and no two are for the same packet. Either the loop works them all
  -- off, and the list of groups is again such a list; or it faults, at a frame behind a run of turns that did not: a
  -- fragment that is misplaced in its group, or a segment without both SYN and ACK for a session in
  -- SYN_SENT. There is no third way.
  pub rx_loop-Faults :
      (s : Stack) (rx_q : List FrameBuf)
      → IsSound s.groups
      → All IsReadable rx_q
      → ((rx_loop size_approx capacity s rx_q ≡ none) × Faults s rx_q)
        ⊎ ((s' : Stack) × (rx_loop size_approx capacity s rx_q ≡ some s') × IsSound s'.groups)
  unfolding rx_loop
  rx_loop-Faults s [] v readable = inr (s, refl, v)
  rx_loop-Faults s (f ∷ rx_q) v (here, there) = elim (rx_turn-cases s f v here) [
    | inl (e, fatal) ↦ inl (rw (rx_loop, e) refl, ([], f, rx_q, s, refl, refl, fatal))
    | inr (s', e, v') ↦ elim (rx_loop-Faults s' rx_q v' there) [
      | inl (n, (before, f', behind, s'', split, e', fatal)) ↦ inl (
        rw (rx_loop, e) n,
        (f ∷ before, f', behind, s'', ap (λ q. f ∷ q) split, rw (rx_loop, e) e', fatal),
      )
      | inr (s'', e', v'') ↦ inr (s'', rw (rx_loop, e) e', v'')
    ]
  ]
