-- ===== src/Stack/Delivery.antt =====
-- src/veloxd/udp/UdpSession.cpp, ip/Ip.cpp, interface/TunIface.cpp and udp/Udp.cpp together: from the
-- socket that sends a datagram to the socket that receives it.
use velox_project.Prelude.{
  ℕ, ◌+◌, ◌-◌, ◌^◌, ◌≤◌, ◌<◌, ◌≡◌, ◌≢◌, ◌⊎◌, inl, inr, refl, ap, ap₂, subst, ◌∙◌, none, some, List,
  [], ◌∷◌, ◌++◌, length, take, drop, take-length, arith, u16, swap16, swap16-lt,
}
use mathlib.Core.List.{append_assoc}
use velox_project.Session
use velox_project.Session.{Session, Flow}
use velox_project.Session.Find.{IsBestMatch, AllMatches}
use velox_project.Ip.{Packet}
use velox_project.Ip.Reassembler.{FrameBuf}
use velox_project.Interface
use velox_project.Interface.{receive}
use velox_project.Tcp.{Counters}
use velox_project.Udp
use velox_project.Udp.{UdpHdr, udp_bytes, Datagram}
use velox_project.Udp.Wire.{read_udp_hdr, read_udp_hdr-udp_bytes, length-udp_bytes, drop-udp_bytes}
use velox_project.Udp.Delivery.{send_to-carries, flow_of, rx-IsBestMatch}
use velox_project.Endpoint
use velox_project.Endpoint.{Received}
use velox_project.Stack.{Stack, at, udp_rx, rx_turn, take_handed, bytes_from}
use velox_project.Stack.Frames.{
  drop_28-frame_of, frame_of, data_of, zeros_behind, receive-frame_of, rx_body-to_udp,
  drop-frame_of,
}

module _ (p : Packet) (u : UdpHdr) (buf : List ℕ) (e : data_of p ≡ udp_bytes u ++ buf) where
  at_transport : drop 20 (frame_of p).raw_bytes ≡ udp_bytes u ++ (buf ++ zeros_behind p)
  at_transport =
      drop-frame_of p
      ∙ ap (λ l. l ++ zeros_behind p) e
      ∙ append_assoc (udp_bytes u) buf (zeros_behind p)

  read_at : Udp.Wire.Fits u → read_udp_hdr (drop 20 (frame_of p).raw_bytes) ≡ u
  read_at v = ap read_udp_hdr at_transport ∙ read_udp_hdr-udp_bytes u (buf ++ zeros_behind p) v

  at_payload : drop 28 (frame_of p).raw_bytes ≡ buf ++ zeros_behind p
  at_payload =
      drop_28-frame_of p
      ∙ ap (λ l. drop 8 (l ++ zeros_behind p)) e
      ∙ ap (λ l. drop 8 l) (append_assoc (udp_bytes u) buf (zeros_behind p))
      ∙ drop-udp_bytes u (buf ++ zeros_behind p)

  payload_at : bytes_from 28 (frame_of p) ≡ buf
  payload_at =
      let n : 20 + length (data_of p) - 28 ≡ length buf =
        ap (λ l. 20 + length l - 28) e ∙ omega (arith, length-udp_bytes u buf) in
      ap₂ (λ n l. take n l) n at_payload ∙ take-length buf (zeros_behind p)

bind-lport_fits :
    (s : Session) (port : ℕ) → s.lport < 2 ^ 16 → (Session.bind s port).session.lport < 2 ^ 16
unfolding Session.bind
bind-lport_fits s port h = ground arith

-- A datagram in one frame, at the sockets of the receiver.
module _ (size_approx : List Received → ℕ) (capacity : ℕ) where
  -- The stack after the datagram has gone to a session.
  abbrev pub with_datagram : Stack → ℕ → ℕ → ℕ → List ℕ → Stack
  with_datagram s i peer_addr peer_port buf =
      let r : Received = record {
        peer_addr = peer_addr;
        peer_port = peer_port;
        frames = buf ∷ [];
      } in
      record s {
        udp_endpoints =
            at s.udp_endpoints i
              (Endpoint.put_to_recv_q size_approx capacity (s.udp_endpoints i) r);
      }

  turn_of :
      (s : Stack) (p : Packet)
      → p.network.frag_off ≡ 0
      → p.network.ihl ≡ 5
      → p.network.protocol ≡ 17
      → rx_turn size_approx capacity s (frame_of p)
        ≡ some (udp_rx size_approx capacity s (frame_of p) [] 20)
  unfolding rx_turn take_handed
  turn_of s p off ihl proto = rw (rx_body-to_udp p s.groups off ihl proto, rx_turn) refl

  udp_rx-none :
      (s : Stack) (f : FrameBuf) (h : UdpHdr) (buf : List ℕ)
      → read_udp_hdr (drop 20 f.raw_bytes) ≡ h
      → bytes_from 28 f ≡ buf
      → Udp.rx s.udp_sessions s.udp_pcbs f.hdr.saddr f.hdr.daddr h buf ≡ none
      → udp_rx size_approx capacity s f [] 20 ≡ s
  unfolding udp_rx
  udp_rx-none s f h buf eh eb e =
      rw
        (
          ap₂ (λ h b. Udp.rx s.udp_sessions s.udp_pcbs f.hdr.saddr f.hdr.daddr h b) eh eb ∙ e,
          udp_rx,
        )
        refl

  udp_rx-some :
      (s : Stack) (f : FrameBuf) (h : UdpHdr) (buf : List ℕ) (i : ℕ) (d : Datagram)
      → read_udp_hdr (drop 20 f.raw_bytes) ≡ h
      → bytes_from 28 f ≡ buf
      → Udp.rx s.udp_sessions s.udp_pcbs f.hdr.saddr f.hdr.daddr h buf ≡ some (i, d)
      → udp_rx size_approx capacity s f [] 20
        ≡ with_datagram s i d.peer_addr d.peer_port d.user_payload
  unfolding udp_rx
  udp_rx-some s f h buf i d eh eb e =
      rw
        (
          ap₂ (λ h b. Udp.rx s.udp_sessions s.udp_pcbs f.hdr.saddr f.hdr.daddr h b) eh eb ∙ e,
          udp_rx,
        )
        refl

  -- The receiver's answer to a datagram: a turn of the loop leaves the stack as it is when no live
  -- session matches, and otherwise puts the datagram into the Endpoint of the best match.
  abbrev pub Arrives : Stack → FrameBuf → Flow → List ℕ → Type 0
  Arrives s f flow buf =
      ((rx_turn size_approx capacity s f ≡ some s)
        × AllMatches s.udp_sessions flow (λ n. ⊥) s.udp_pcbs)
      ⊎ ((i : ℕ) × (rx_turn size_approx capacity s f
            ≡ some (with_datagram s i flow.faddr flow.fport buf))
          × IsBestMatch s.udp_sessions flow s.udp_pcbs i)

  datagram-Arrives :
      (s : Stack) (p : Packet) (u : UdpHdr) (buf : List ℕ)
      → p.network.frag_off ≡ 0
      → p.network.ihl ≡ 5
      → p.network.protocol ≡ 17
      → data_of p ≡ udp_bytes u ++ buf
      → Udp.Wire.Fits u
      → Arrives s (frame_of p) (flow_of p.network.saddr p.network.daddr u) buf
  datagram-Arrives s p u buf off ihl proto e v =
      let eh = read_at p u buf e v in
      let eb = payload_at p u buf e in
      elim (rx-IsBestMatch s.udp_sessions s.udp_pcbs p.network.saddr p.network.daddr u buf) [
        | inl (n, nothing) ↦ inl (
          turn_of s p off ihl proto ∙ ap (λ t. some t) (udp_rx-none s (frame_of p) u buf eh eb n),
          nothing,
        )
        | inr (i, m, best) ↦ inr (
          i,
          turn_of s p off ihl proto
              ∙ ap (λ t. some t) (udp_rx-some s (frame_of p) u buf i _ eh eb m),
          best,
        )
      ]

  -- `sendto` on a session that has a port or gets one other than 0, with at most 1490 bytes, makes a
  -- packet that one write to the device and one read from it turn into a frame at the end of the IP
  -- layer's queue; the turn of the receiver's loop on that frame puts exactly the bytes, under the
  -- sender's address and port, into the Endpoint of the live UDP session that matches best, or, when
  -- none matches, changes nothing. Addresses fit 32 bits, ports 16.
  pub send_to-Arrives :
      (s : Stack) (rx_q : List FrameBuf) (pcb : Session) (c : Counters) (faddr fport : ℕ)
      (buf : List ℕ)
      → (Session.bind pcb c.port).session.lport ≢ 0
      → pcb.laddr < 2 ^ 32
      → pcb.lport < 2 ^ 16
      → faddr < 2 ^ 32
      → fport < 2 ^ 16
      → length buf ≤ 1490
      → let p = (Udp.send_to pcb c faddr fport buf).packet in
        let lport = (Session.bind pcb c.port).session.lport in
        (f : FrameBuf) × (receive rx_q (some (Interface.tx (p ∷ []))) ≡ some (rx_q ++ (f ∷ [])))
        × Arrives s f
            (record { faddr = pcb.laddr; fport = lport; laddr = faddr; lport = fport })
            buf
  send_to-Arrives s rx_q pcb c faddr fport buf bound laddr_fits lport_fits faddr_fits fport_fits
        small =
      let p = (Udp.send_to pcb c faddr fport buf).packet in
      let lport = (Session.bind pcb c.port).session.lport in
      let w = (send_to-carries pcb c faddr fport buf bound).0 in
      let u : UdpHdr = record {
        source = lport;
        dest = fport;
        len = swap16 (u16 (length buf + 8));
        check = 0;
      } in
      let e : data_of p ≡ udp_bytes u ++ buf = ap₂ (λ t b. t ++ b) w.header w.payload in
      let n : length (data_of p) ≡ 8 + length buf = ap length e ∙ length-udp_bytes u buf in
      let fits : Udp.Wire.Fits u = record {
        source_fits = bind-lport_fits pcb c.port lport_fits;
        dest_fits = fport_fits;
        len_fits = swap16-lt (u16 (length buf + 8));
        check_fits = omega arith;
      } in
      (
        frame_of p,
        receive-frame_of p rx_q (w.fits laddr_fits faddr_fits) w.version (omega arith),
        subst (λ (a : ℕ). Arrives s (frame_of p) (flow_of a faddr u) buf) w.source
            (subst (λ (a : ℕ). Arrives s (frame_of p) (flow_of p.network.saddr a u) buf) w.dest
              (datagram-Arrives s p u buf w.whole w.ihl w.protocol e fits)),
      )
