-- ===== src/Stack/Segments.antt =====
-- src/veloxd/tcp/TcpSession.cpp, ip/Ip.cpp, interface/TunIface.cpp and tcp/Tcp.cpp together: from a
-- session that sends a segment to the session that receives it.
use velox_project.Prelude.{
  ℕ, ◌+◌, ◌-◌, ◌^◌, ◌≤◌, ◌<◌, ◌≡◌, ◌⊎◌, inl, inr, refl, ap, ap₂, subst, ◌∙◌, Option, none, some,
  List, [], ◌∷◌, ◌++◌, length, take, take-length, arith, u16, swap16-lt,
}
use mathlib.Core.List.{append_assoc}
use velox_project.Session
use velox_project.Session.{Session, Flow}
use velox_project.Session.Find.{IsBestMatch, AllMatches, find-IsBestMatch}
use velox_project.Ip
use velox_project.Ip.{IpHdr, Packet}
use velox_project.Ip.Wire.{Fits}
use velox_project.Ip.Sending.{tx_verifies, tx-Fits}
use velox_project.Ip.Reassembler.{FrameBuf}
use velox_project.Interface
use velox_project.Interface.{receive}
use velox_project.Tcp
use velox_project.Tcp.{
  TcpHdr, TcpSession, Segment, Counters, tcp_bytes, prepare_before_ip_tx, pseudo_hdr, transmit,
}
use velox_project.Tcp.Wire.{read_tcp_hdr, IsTcpHdr, read_tcp_hdr-tcp_bytes, length-tcp_bytes}
use velox_project.Tcp.Demux
use velox_project.Tcp.Demux.{locked}
use velox_project.Endpoint.{Received}
use velox_project.Stack.{Stack, tcp_rx, rx_turn, take_handed, segment_at, after_recv}
use velox_project.Stack.Frames.{
  frame_of, data_of, zeros_behind, receive-frame_of, rx_body-to_tcp, drop-frame_of,
}

-- A segment as it was sent.
abbrev pub sent_segment : TcpHdr → List ℕ → Segment
sent_segment h buf = record { hdr = h; bytes = tcp_bytes h ++ buf }

-- The header with its checksum.
abbrev pub with_check : Session → TcpHdr → List ℕ → TcpHdr
with_check s h buf = (prepare_before_ip_tx s h buf).0

-- What a receiver reads at the transport header of a frame.
segment_at-frame_of :
    (p : Packet) (h : TcpHdr) (buf : List ℕ)
    → data_of p ≡ tcp_bytes h ++ buf
    → IsTcpHdr h
    → segment_at 20 (frame_of p) ≡ sent_segment h buf
segment_at-frame_of p h buf e v =
    let hdr =
      ap read_tcp_hdr (
        drop-frame_of p
        ∙ ap (λ l. l ++ zeros_behind p) e
        ∙ append_assoc (tcp_bytes h) buf (zeros_behind p))
      ∙ read_tcp_hdr-tcp_bytes h (buf ++ zeros_behind p) v in
    let n : 20 + length (data_of p) - 20 ≡ length (data_of p) = omega arith in
    let bytes =
      ap₂ (λ n l. take n l) n (drop-frame_of p) ∙ (take-length (data_of p) (zeros_behind p) ∙ e) in
    ap₂ (λ h b. record { hdr = h; bytes = b }) hdr bytes

-- The packet that `transmit` makes.
record CarriesSegment (s : Session) (h : TcpHdr) (buf : List ℕ) (p : Packet) : Type 0 where
  source : p.network.saddr ≡ s.laddr
  dest : p.network.daddr ≡ s.faddr
  protocol : p.network.protocol ≡ 6
  version : p.network.version ≡ 4
  ihl : p.network.ihl ≡ 5
  whole : p.network.frag_off ≡ 0
  carried : data_of p ≡ tcp_bytes (with_check s h buf) ++ buf
  fits : s.laddr < 2 ^ 32 → s.faddr < 2 ^ 32 → Fits p.network

transmit-CarriesSegment :
    (s : Session) (last_id : ℕ) (h : TcpHdr) (buf : List ℕ)
    → CarriesSegment s h buf (transmit s last_id h buf).1
unfolding transmit prepare_before_ip_tx Ip.tx pseudo_hdr
transmit-CarriesSegment s last_id h buf =
    let ip = (prepare_before_ip_tx s h buf).1 in
    let t = tcp_bytes (with_check s h buf) in
    let v =
      tx_verifies last_id ip t buf
        (record {
          version_fits = omega arith;
          ihl_fits = omega arith;
          tos_fits = omega arith;
          ttl_fits = omega arith;
          protocol_fits = omega arith;
        })
        refl in
    record {
      source = ap (λ h. h.saddr) v.1;
      dest = ap (λ h. h.daddr) v.1;
      protocol = ap (λ h. h.protocol) v.1;
      version = ap (λ h. h.version) v.1;
      ihl = ap (λ h. h.ihl) v.1;
      whole = ap (λ h. h.frag_off) v.1;
      carried = refl;
      fits = λ laddr faddr.
          tx-Fits last_id ip t buf (omega arith) (swap16-lt (u16 (length buf + 40))) refl
            (omega arith) (omega arith) laddr faddr;
    }

rx_found :
    (lock : ℕ → Option TcpSession) (pcbs : List ℕ) (c : Counters) (saddr daddr : ℕ) (seg : Segment)
    (i : ℕ) (pcb : TcpSession)
    → lock i ≡ some pcb
    → Session.find (locked lock) (Demux.flow_of saddr daddr seg) pcbs ≡ some i
    → Demux.rx lock pcbs c saddr daddr seg ≡ some (i, Tcp.recv pcb c seg)
unfolding Demux.rx Demux.run_recv
rx_found lock pcbs c saddr daddr seg i pcb live e = rw (e, Demux.rx, live, Demux.run_recv) refl

pcb_of_locked :
    (pcb : Option TcpSession) (s : Session)
    → (elim pcb [ none ↦ none | some t ↦ some t.session ]) ≡ some s
    → (t : TcpSession) × (pcb ≡ some t)
pcb_of_locked none s e = grind arith
pcb_of_locked (some t) s e = (t, refl)

module _ (size_approx : List Received → ℕ) (capacity : ℕ) where
  -- The receiver's answer to a segment: the session that matches best runs its `recv` on it, and with no such
  -- session nothing changes.
  abbrev pub SegmentArrives : Stack → FrameBuf → Flow → Segment → Type 0
  SegmentArrives s f flow seg =
      ((rx_turn size_approx capacity s f ≡ some s)
        × AllMatches (locked s.tcp_sessions) flow (λ n. ⊥) s.tcp_pcbs)
      ⊎ ((i : ℕ) × (pcb : TcpSession) × (s.tcp_sessions i ≡ some pcb)
          × (rx_turn size_approx capacity s f
              ≡ after_recv size_approx capacity s [] i (Tcp.recv pcb s.tcp_counters seg))
          × IsBestMatch (locked s.tcp_sessions) flow s.tcp_pcbs i)

  turn_of :
      (s : Stack) (p : Packet)
      → p.network.frag_off ≡ 0
      → p.network.ihl ≡ 5
      → p.network.protocol ≡ 6
      → rx_turn size_approx capacity s (frame_of p)
        ≡ tcp_rx size_approx capacity s (frame_of p) [] 20
  unfolding rx_turn take_handed
  turn_of s p off ihl proto = rw (rx_body-to_tcp p s.groups off ihl proto, rx_turn) refl

  tcp_rx-none :
      (s : Stack) (f : FrameBuf) (seg : Segment)
      → segment_at 20 f ≡ seg
      → Session.find (locked s.tcp_sessions) (Demux.flow_of f.hdr.saddr f.hdr.daddr seg) s.tcp_pcbs
        ≡ none
      → tcp_rx size_approx capacity s f [] 20 ≡ some s
  unfolding tcp_rx Demux.rx
  tcp_rx-none s f seg es e =
      rw
        (
          ap
                (λ g.
                  Session.find (locked s.tcp_sessions) (Demux.flow_of f.hdr.saddr f.hdr.daddr g)
                    s.tcp_pcbs)
                es
              ∙ e,
          Demux.rx,
          tcp_rx,
        )
        refl

  tcp_rx-some :
      (s : Stack) (f : FrameBuf) (seg : Segment) (i : ℕ) (pcb : TcpSession)
      → segment_at 20 f ≡ seg
      → s.tcp_sessions i ≡ some pcb
      → Session.find (locked s.tcp_sessions) (Demux.flow_of f.hdr.saddr f.hdr.daddr seg) s.tcp_pcbs
        ≡ some i
      → tcp_rx size_approx capacity s f [] 20
        ≡ after_recv size_approx capacity s [] i (Tcp.recv pcb s.tcp_counters seg)
  unfolding tcp_rx
  tcp_rx-some s f seg i pcb es live e =
      rw
        (
          ap (λ g. Demux.rx s.tcp_sessions s.tcp_pcbs s.tcp_counters f.hdr.saddr f.hdr.daddr g) es
              ∙ rx_found s.tcp_sessions s.tcp_pcbs s.tcp_counters f.hdr.saddr f.hdr.daddr seg i pcb
                  live e,
          tcp_rx,
        )
        refl

  segment_arrives :
      (s : Stack) (f : FrameBuf) (seg : Segment)
      → segment_at 20 f ≡ seg
      → rx_turn size_approx capacity s f ≡ tcp_rx size_approx capacity s f [] 20
      → SegmentArrives s f (Demux.flow_of f.hdr.saddr f.hdr.daddr seg) seg
  segment_arrives s f seg es turn =
      elim (find-IsBestMatch (locked s.tcp_sessions) (Demux.flow_of f.hdr.saddr f.hdr.daddr seg)
        s.tcp_pcbs) [
          | inl (e, nothing) ↦ inl (turn ∙ tcp_rx-none s f seg es e, nothing)
          | inr (i, e, best) ↦
              (let (pcb, live) = pcb_of_locked (s.tcp_sessions i) best.session best.alive in
                inr (i, pcb, live, turn ∙ tcp_rx-some s f seg i pcb es live e, best))
        ]

  -- A segment of at most 1478 bytes that a session transmits makes a packet that one write to the device and
  -- one read from it turn into a frame at the end of the IP layer's queue; on that frame the receiver's
  -- loop runs `recv` of the live TCP session that matches best on exactly the header, checksum included, and the
  -- bytes that were sent, or changes nothing when none matches. The addresses and the header's fields fit their widths.
  pub transmit-SegmentArrives :
      (s : Stack) (rx_q : List FrameBuf) (from : Session) (last_id : ℕ) (h : TcpHdr) (buf : List ℕ)
      → from.laddr < 2 ^ 32
      → from.faddr < 2 ^ 32
      → IsTcpHdr h
      → length buf ≤ 1478
      → let p = (transmit from last_id h buf).1 in
        let h' = with_check from h buf in
        (f : FrameBuf) × (receive rx_q (some (Interface.tx (p ∷ []))) ≡ some (rx_q ++ (f ∷ [])))
        × SegmentArrives s f
            (record { faddr = from.laddr; fport = h.source; laddr = from.faddr; lport = h.dest })
            (sent_segment h' buf)
  unfolding prepare_before_ip_tx
  transmit-SegmentArrives s rx_q from last_id h buf laddr_fits faddr_fits v small =
      let p = (transmit from last_id h buf).1 in
      let h' = with_check from h buf in
      let w = transmit-CarriesSegment from last_id h buf in
      let v' : IsTcpHdr h' = omega arith in
      let seg = sent_segment h' buf in
      let n : length (data_of p) ≡ 20 + length buf =
        ap length w.carried ∙ length-tcp_bytes h' buf in
      (
        frame_of p,
        receive-frame_of p rx_q (w.fits laddr_fits faddr_fits) w.version (omega arith),
        subst (λ (a : ℕ). SegmentArrives s (frame_of p) (Demux.flow_of a from.faddr seg) seg)
            w.source
            (subst
              (λ (a : ℕ). SegmentArrives s (frame_of p) (Demux.flow_of p.network.saddr a seg) seg)
              w.dest
              (segment_arrives s (frame_of p) seg (segment_at-frame_of p h' buf w.carried v')
                (turn_of s p w.whole w.ihl w.protocol))),
      )
