-- ===== src/Udp/Delivery.antt =====
-- src/veloxd/udp/UdpSession.cpp, `send`, and udp/Udp.cpp, `rx`.
use velox_project.Prelude.{
  ℕ, ◌≡◌, ◌≢◌, ◌⊎◌, inl, inr, refl, ap, subst, ◌∙◌, Option, none, some, List, length, arith, u16,
  swap16, swap16-lt, ◌+◌, ◌^◌, ◌<◌, ◌==◌, Bool-cases,
}
use velox_project.Csum16.{checksum}
use velox_project.Session
use velox_project.Session.{Session, Bound, Flow}
use velox_project.Session.Find.{find-IsBestMatch, IsBestMatch, AllMatches}
use velox_project.Ip
use velox_project.Ip.{IpHdr, ip_bytes}
use velox_project.Ip.Sending.{tx_verifies, tx-Fits}
use velox_project.Ip.Wire.{Fits}
use velox_project.Tcp.{Counters}
use velox_project.Udp.{UdpHdr, udp_bytes, udp_hdr, ip_hdr, Sent, send, send_to, rx}

-- The packet that carries a datagram from one address and port to another.
pub record CarriesDatagram (laddr lport faddr fport : ℕ) (buf : List ℕ) (sent : Sent) : Type 0 where
  pub source : sent.packet.network.saddr ≡ laddr
  pub dest : sent.packet.network.daddr ≡ faddr
  pub protocol : sent.packet.network.protocol ≡ 17
  pub verifies : u16 (checksum (ip_bytes sent.packet.network) 0) ≡ 0
  pub total : sent.packet.network.tot_len ≡ swap16 (u16 (length buf + 28))
  pub header :
      sent.packet.transport
      ≡ udp_bytes
          (record { source = lport; dest = fport; len = swap16 (u16 (length buf + 8)); check = 0 })
  pub payload : sent.packet.user_payload ≡ buf
  pub all_sent : sent.ret ≡ length buf
  pub version : sent.packet.network.version ≡ 4
  pub ihl : sent.packet.network.ihl ≡ 5
  pub whole : sent.packet.network.frag_off ≡ 0
  pub fits : laddr < 2 ^ 32 → faddr < 2 ^ 32 → Fits sent.packet.network

send-carries :
    (pcb : Session) (c : Counters) (buf : List ℕ)
    → let sent = send pcb c buf in
      CarriesDatagram sent.session.laddr sent.session.lport sent.session.faddr sent.session.fport
        buf sent
unfolding send ip_hdr udp_hdr Ip.tx
send-carries pcb c buf =
    let s = (Session.send pcb c.port).0.session in
    let v =
      tx_verifies c.last_id (ip_hdr s (length buf)) (udp_bytes (udp_hdr s (length buf))) buf
        (record {
          version_fits = omega arith;
          ihl_fits = omega arith;
          tos_fits = omega arith;
          ttl_fits = omega arith;
          protocol_fits = omega arith;
        })
        refl in
    record {
      source = ap (λ h. h.saddr) v.1;
      dest = ap (λ h. h.daddr) v.1;
      protocol = ap (λ h. h.protocol) v.1;
      verifies = v.0;
      total = ap (λ h. h.tot_len) v.1;
      header = refl;
      payload = refl;
      all_sent = refl;
      version = ap (λ h. h.version) v.1;
      ihl = ap (λ h. h.ihl) v.1;
      whole = ap (λ h. h.frag_off) v.1;
      fits = λ laddr faddr.
          tx-Fits c.last_id (ip_hdr s (length buf)) (udp_bytes (udp_hdr s (length buf))) buf
            (omega arith) (swap16-lt (u16 (length buf + 28))) refl (omega arith) (omega arith) laddr
            faddr;
    }

send_to_binds :
    (s : Session) (fport port : ℕ) → (Session.send_to s fport port).0 ≡ Session.bind s port
unfolding Session.send_to Session.bind
send_to_binds s fport port = elim (Bool-cases (s.lport == 0)) [
  | inl t ↦ rw t refl
  | inr n ↦ rw n refl
]

connect_bound :
    (s : Session) (faddr fport port : ℕ)
    → s.lport ≢ 0
    → Session.connect s faddr fport port
      ≡ record { session = record s { faddr = faddr; fport = fport }; port = port }
unfolding Session.connect
connect_bound s faddr fport port h = ground arith

send_bound :
    (s : Session) (port : ℕ)
    → s.lport ≢ 0
    → (Session.send s port).0 ≡ record { session = s; port = port }
unfolding Session.send
send_bound s port h = ground arith

bind-laddr :
    (s : Session) (port : ℕ)
    → (Session.bind s port).session ≡ record s { lport = (Session.bind s port).session.lport }
unfolding Session.bind
bind-laddr s port = elim (Bool-cases (s.lport == 0)) [ inl t ↦ rw t refl | inr n ↦ rw n refl ]

-- The session at the time the datagram of `sendto` leaves, computed from the two earlier steps.
abbrev connected : Session → ℕ → ℕ → ℕ → Bound
connected s faddr fport port =
    let b = (Session.send_to s fport port).0 in Session.connect b.session faddr fport b.port

session_at_send :
    (s : Session) (faddr fport port : ℕ)
    → (Session.bind s port).session.lport ≢ 0
    → (let x = connected s faddr fport port in (Session.send x.session x.port).0.session) ≡ record {
      faddr = faddr;
      fport = fport;
      laddr = s.laddr;
      lport = (Session.bind s port).session.lport;
    }
session_at_send s faddr fport port h =
    let b = Session.bind s port in
    ap (λ (x : Bound). (Session.send x.session x.port).0.session)
      (ap (λ (b : Bound). Session.connect b.session faddr fport b.port) (send_to_binds s fport port)
        ∙ connect_bound b.session faddr fport b.port h)
    ∙ (ap (λ (x : Bound). x.session)
          (send_bound (record b.session { faddr = faddr; fport = fport }) b.port h)
        ∙ ap (λ (x : Session). record x { faddr = faddr; fport = fport }) (bind-laddr s port))

-- `sendto` with an address, on a session that has a port or gets one other than 0, sends the
-- datagram from the session's address and that port to the address; afterwards the session keeps
-- the port and has no peer, whatever peer it had.
pub send_to-carries :
    (pcb : Session) (c : Counters) (faddr fport : ℕ) (buf : List ℕ)
    → (Session.bind pcb c.port).session.lport ≢ 0
    → let sent = send_to pcb c faddr fport buf in
      let lport = (Session.bind pcb c.port).session.lport in
      CarriesDatagram pcb.laddr lport faddr fport buf sent
      × (sent.session ≡ record { faddr = 0; fport = 0; laddr = pcb.laddr; lport = lport })
unfolding send_to send Session.disconnect
send_to-carries pcb c faddr fport buf h =
    let x = connected pcb faddr fport c.port in
    let e = session_at_send pcb faddr fport c.port h in
    let sent = send x.session (record c { port = x.port }) buf in
    let w =
      subst (λ (s : Session). CarriesDatagram s.laddr s.lport s.faddr s.fport buf sent) e
        (send-carries x.session (record c { port = x.port }) buf) in
    (
      record {
        source = w.source;
        dest = w.dest;
        protocol = w.protocol;
        verifies = w.verifies;
        total = w.total;
        header = w.header;
        payload = w.payload;
        all_sent = w.all_sent;
        version = w.version;
        ihl = w.ihl;
        whole = w.whole;
        fits = w.fits;
      },
      ap Session.disconnect e,
    )

-- The search key of an arriving datagram.
abbrev pub flow_of : ℕ → ℕ → UdpHdr → Flow
flow_of saddr daddr h = record { faddr = saddr; fport = h.source; laddr = daddr; lport = h.dest }

-- What `Udp::rx` does with a datagram: it drops it when no live session of the list matches, and
-- otherwise the session that matches best gets the payload with the sender's address and port.
pub rx-IsBestMatch :
    (lock : ℕ → Option Session) (pcbs : List ℕ) (saddr daddr : ℕ) (h : UdpHdr) (payload : List ℕ)
    → let f = flow_of saddr daddr h in
      ((rx lock pcbs saddr daddr h payload ≡ none) × AllMatches lock f (λ n. ⊥) pcbs)
      ⊎ ((i : ℕ) × (rx lock pcbs saddr daddr h payload
            ≡ some (i, record { peer_addr = saddr; peer_port = h.source; user_payload = payload }))
          × IsBestMatch lock f pcbs i)
unfolding rx
rx-IsBestMatch lock pcbs saddr daddr h payload =
    elim (find-IsBestMatch lock (flow_of saddr daddr h) pcbs) [
      | inl (e, nothing) ↦ inl (rw (e, rx) refl, nothing)
      | inr (i, e, best) ↦ inr (i, rw (e, rx) refl, best)
    ]
