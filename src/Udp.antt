-- ===== src/Udp.antt =====
-- src/veloxd/udp/UdpSession.cpp and udp/Udp.cpp: datagrams out of a session, and from the IP layer
-- to the session that they are for. The weak pointer to the Endpoint is taken to be alive.
pub mod Delivery
pub mod Wire
use velox_project.Prelude.{ℕ, ◌+◌, Option, none, some, List, ◌++◌, length, u16, swap16, le16}
use velox_project.Session
use velox_project.Session.{Session, Flow}
use velox_project.Ip
use velox_project.Ip.{IpHdr, Packet}
use velox_project.Tcp.{Counters}

-- `struct udphdr`, as the host reads it.
pub record UdpHdr : Type 0 where
  pub source : ℕ
  pub dest : ℕ
  pub len : ℕ
  pub check : ℕ

unfoldable pub udp_bytes : UdpHdr → List ℕ
udp_bytes h = le16 h.source ++ (le16 h.dest ++ (le16 h.len ++ le16 h.check))

-- The header of a datagram of the session; the checksum is left out.
pub udp_hdr : Session → ℕ → UdpHdr
udp_hdr s buf_len = record {
  source = s.lport;
  dest = s.fport;
  len = swap16 (u16 (buf_len + 8));
  check = 0;
}

-- The IP header that `send` hands down.
pub ip_hdr : Session → ℕ → IpHdr
ip_hdr s buf_len = record {
  version = 0;
  ihl = 0;
  tos = 0;
  tot_len = swap16 (u16 (buf_len + 28));
  id = 0;
  frag_off = 0;
  ttl = 64;
  protocol = 17;
  check = 0;
  saddr = s.laddr;
  daddr = s.faddr;
}

pub record Sent : Type 0 where
  pub session : Session
  pub counters : Counters
  pub packet : Packet
  pub ret : ℕ

-- `UdpSession::send(buf)`. The result of `Session::send` is dropped: a session without a peer
-- sends all the same.
unfoldable pub send : Session → Counters → List ℕ → Sent
unfolding udp_hdr ip_hdr
send pcb c buf =
    let b = (Session.send pcb c.port).0 in
    let s = b.session in
    let (last', p) =
      Ip.tx c.last_id (ip_hdr s (length buf)) (udp_bytes (udp_hdr s (length buf))) buf in
    record {
      session = s;
      counters = record { port = b.port; last_id = last' };
      packet = p;
      ret = length buf;
    }

-- `UdpSession::send(faddr, fport, buf)`: connected for the one datagram.
unfoldable pub send_to : Session → Counters → ℕ → ℕ → List ℕ → Sent
unfolding send
send_to pcb c faddr fport buf =
    let b0 = (Session.send_to pcb fport c.port).0 in
    let b = Session.connect b0.session faddr fport b0.port in
    let sent = send b.session (record c { port = b.port }) buf in
    record sent { session = Session.disconnect sent.session }

-- What `UdpSession::recv` puts into the Endpoint's queue.
pub record Datagram : Type 0 where
  pub peer_addr : ℕ
  pub peer_port : ℕ
  pub user_payload : List ℕ

-- `Udp::rx` with `UdpSession::recv`: the session and what it is given; `none` is a drop. The bytes
-- of the header are skipped, so the payload is what stands behind them.
unfoldable pub rx : (ℕ → Option Session) → List ℕ → ℕ → ℕ → UdpHdr → List ℕ → Option (ℕ × Datagram)
rx lock pcbs saddr daddr udphdr user_payload =
    elim (Session.find lock
      (record { faddr = saddr; fport = udphdr.source; laddr = daddr; lport = udphdr.dest }) pcbs) [
        | none ↦ none
        | some pcb ↦ some (
          pcb,
          record { peer_addr = saddr; peer_port = udphdr.source; user_payload = user_payload },
        )
      ]
