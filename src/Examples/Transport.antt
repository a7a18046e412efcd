-- ===== src/Examples/Transport.antt =====
-- Concrete sessions, for src/veloxd's Session.h, tcp/TcpSession.cpp and udp/UdpSession.cpp.
use velox_project.Prelude.{
  ℕ, zero, suc, ◌+◌, ◌%◌, ◌^◌, ◌-◌, ◌≡◌, ◌≢◌, ◌↔◌, ◌⊎◌, refl, true, false, ◌&&◌, Option, none, some,
  List, map, [], ◌∷◌, ◌++◌, arith, length, u16, swap16, ◌==◌, if◌then◌else◌,
}
use velox_project.Csum16.{checksum}
use velox_project.Session
use velox_project.Session.{Session, Flow, find}
use velox_project.Session.Find.{IsBestMatch, AllMatches, find-IsBestMatch}
use velox_project.Session.Ports.{nth_port, nth_port-ne, nth_port_period, connect_binds}
use velox_project.Ip.{ip_bytes}
use velox_project.Tcp
use velox_project.Tcp.{
  TcpHdr, TcpSession, closed, syn_sent, established, Counters, Outcome, Segment, new_tcp_session,
  tcp_bytes, transmit, recv,
}
use velox_project.Tcp.Segments.{rfc793_pseudo, transmit_verifies}
use velox_project.Tcp.Wire.{read_tcp_hdr, read_tcp_hdr-tcp_bytes}
use velox_project.Tcp.Handshake.{SynIsSent, connect_sends_syn, IsEstablished, recv_in_syn_sent}
use velox_project.Tcp.Stream.{DataIsSent, send_established}
use velox_project.Tcp.Transfer.{send_all, recv_all, segment_entry, Arrived, recv_all-send_all}
use velox_project.Tcp.States.{connects, step, run, IsClient, run-new_tcp_session}
use velox_project.Examples.Daemon.{endpoint}
use velox_project.Udp.{UdpHdr, Datagram}
use velox_project.Udp
use velox_project.Udp.Delivery.{CarriesDatagram, send_to-carries, flow_of, rx-IsBestMatch}

-- Sessions 0 and 1 are live: one listens to anybody, one is connected to port 80 of a host.
abbrev lock : ℕ → Option Session
lock zero = some (record { faddr = 0; fport = 0; laddr = 9; lport = 53 })
lock (suc zero) = some (record { faddr = 7; fport = 80; laddr = 9; lport = 53 })
lock (suc (suc i)) = none

abbrev flow : Flow
flow = record { faddr = 7; fport = 80; laddr = 9; lport = 53 }

find-IsBestMatch_example :
    ((find lock flow (0 ∷ 1 ∷ []) ≡ none) × AllMatches lock flow (λ n. ⊥) (0 ∷ 1 ∷ []))
    ⊎ ((i : ℕ) × (find lock flow (0 ∷ 1 ∷ []) ≡ some i) × IsBestMatch lock flow (0 ∷ 1 ∷ []) i)
find-IsBestMatch_example = find-IsBestMatch lock flow (0 ∷ 1 ∷ [])

ports_differ : (nth_port 0 ≢ nth_port 9) × (nth_port 0 ≢ 0) × (nth_port 9 ≢ 0)
ports_differ = nth_port-ne 0 9 (omega arith) (omega arith)

nth_port_period_example :
    (nth_port (64511 + 2 ^ 16) ≡ nth_port 64511) × ((nth_port 64511 ≡ 0) ↔ (64511 % 2 ^ 16 ≡ 64511))
nth_port_period_example = nth_port_period 64511

abbrev fresh : Session
fresh = record { faddr = 0; fport = 0; laddr = 9; lport = 0 }

bound_on_connect :
    let b = Session.connect fresh 7 80 1024 in
    (b.session.faddr ≡ 7)
    × (b.session.fport ≡ 80)
    × (b.session.laddr ≡ 9)
    × (b.session.lport ≡ (if fresh.lport == 0 then swap16 ((1024 + 1) % 2 ^ 16) else fresh.lport))
    × (b.port ≡ (if fresh.lport == 0 then (1024 + 1) % 2 ^ 16 else 1024))
bound_on_connect = connect_binds fresh 7 80 1024

-- A client's session, closed and established, and the counters beside it.
abbrev closed_pcb : TcpSession
closed_pcb = record {
  session = fresh;
  conn_state = closed;
  on_conn_estab_cb = true;
  send_unack = 0;
  send_next = 0;
  irs = 0;
  recv_next = 0;
}

abbrev established_pcb : TcpSession
established_pcb = record {
  session = record { faddr = 7; fport = 80; laddr = 9; lport = 260 };
  conn_state = established;
  on_conn_estab_cb = true;
  send_unack = 2;
  send_next = 2 ^ 32 - 2;
  irs = 41;
  recv_next = 42;
}

abbrev peer_pcb : TcpSession
peer_pcb = record established_pcb { recv_next = 2 ^ 32 - 2 }

abbrev counters : Counters
counters = record { port = 1024; last_id = 0 }

abbrev buffers : List (List ℕ)
buffers = (1 ∷ 2 ∷ 3 ∷ []) ∷ (4 ∷ []) ∷ []

-- The numbers wrap between the two buffers.
recv_all-send_all_example :
    (r : Arrived) × (recv_all length 65536 peer_pcb counters endpoint
        (send_all established_pcb counters buffers).packets
      ≡ some r)
    × (r.endpoint.recv_q ≡ [] ++ map segment_entry buffers)
    × (r.pcb.recv_next ≡ (send_all established_pcb counters buffers).pcb.send_next)
recv_all-send_all_example =
    recv_all-send_all length 65536 established_pcb peer_pcb counters counters endpoint buffers
      (λ q. refl) (omega arith) refl (λ e. cc) (omega arith) refl refl
      ((omega arith, omega arith), ((omega arith, omega arith), tt))

abbrev tcphdr : TcpHdr
tcphdr = record {
  source = 260;
  dest = 80;
  seq = 16777216;
  ack_seq = 0;
  doff = 5;
  syn = true;
  ack = false;
  window = 16;
  check = 0;
}

transmit_verifies_example :
    let p = (transmit fresh 0 tcphdr (1 ∷ 2 ∷ 3 ∷ [])).1 in
    (u16 (checksum (rfc793_pseudo p.network ++ (p.transport ++ p.user_payload)) 0) ≡ 0)
    × (u16 (checksum (ip_bytes p.network) 0) ≡ 0)
    × (swap16 p.network.tot_len ≡ length (ip_bytes p.network ++ (p.transport ++ p.user_payload)))
transmit_verifies_example =
    transmit_verifies fresh 0 tcphdr (1 ∷ 2 ∷ 3 ∷ [])
      (record { doff_fits = omega arith; check_zero = refl })
      (omega arith, (omega arith, (omega arith, tt))) (omega arith)

tcp_hdr_read_back : read_tcp_hdr (tcp_bytes tcphdr ++ (1 ∷ [])) ≡ tcphdr
tcp_hdr_read_back = read_tcp_hdr-tcp_bytes tcphdr (1 ∷ []) (record {
  source_fits = omega arith;
  dest_fits = omega arith;
  seq_fits = omega arith;
  ack_seq_fits = omega arith;
  doff_fits = omega arith;
  window_fits = omega arith;
  check_fits = omega arith;
})

syn_on_connect :
    let o = Tcp.connect closed_pcb counters 7 80 in
    SynIsSent o × (o.pcb.session.faddr ≡ 7) × (o.pcb.session.fport ≡ 80)
syn_on_connect = connect_sends_syn closed_pcb counters 7 80 refl

abbrev waiting_pcb : TcpSession
waiting_pcb = record established_pcb { conn_state = syn_sent; send_unack = 1; send_next = 2 }

abbrev syn_ack : Segment
syn_ack = record {
  hdr = record tcphdr { ack = true };
  bytes = tcp_bytes (record tcphdr { ack = true });
}

recv_in_syn_sent_example :
    (((syn_ack.hdr.syn && syn_ack.hdr.ack) ≡ false) × (recv waiting_pcb counters syn_ack ≡ none))
    ⊎ (((syn_ack.hdr.syn && syn_ack.hdr.ack) ≡ true)
        × (o : Outcome) × (recv waiting_pcb counters syn_ack ≡ some o)
        × IsEstablished waiting_pcb syn_ack.hdr o)
recv_in_syn_sent_example = recv_in_syn_sent waiting_pcb counters syn_ack refl

segment_on_send :
    DataIsSent established_pcb (1 ∷ 2 ∷ 3 ∷ []) (Tcp.send established_pcb counters (1 ∷ 2 ∷ 3 ∷ []))
segment_on_send = send_established established_pcb counters (1 ∷ 2 ∷ 3 ∷ []) refl (λ e. cc)

-- A session after `connect`.
abbrev connecting : TcpSession
connecting = (Tcp.connect (new_tcp_session 9 established_pcb) counters 7 80).pcb

connecting-run :
    run (new_tcp_session 9 established_pcb) counters (connects 7 80 ∷ []) ≡ some connecting
unfolding run step
connecting-run = refl

run-new_tcp_session_example : IsClient connecting
run-new_tcp_session_example =
    run-new_tcp_session 9 established_pcb connecting counters (connects 7 80 ∷ []) connecting-run

bound : (Session.bind fresh 1024).session.lport ≢ 0
unfolding Session.bind Session.next_avail_port
bound e = cc

send_to-carries_example :
    let sent = Udp.send_to fresh counters 7 53 (1 ∷ 2 ∷ []) in
    let lport = (Session.bind fresh 1024).session.lport in
    CarriesDatagram 9 lport 7 53 (1 ∷ 2 ∷ []) sent
    × (sent.session ≡ record { faddr = 0; fport = 0; laddr = 9; lport = lport })
send_to-carries_example = send_to-carries fresh counters 7 53 (1 ∷ 2 ∷ []) bound

abbrev udphdr : UdpHdr
udphdr = record { source = 80; dest = 53; len = swap16 9; check = 0 }

datagram_matched :
    let f = flow_of 7 9 udphdr in
    ((Udp.rx lock (0 ∷ 1 ∷ []) 7 9 udphdr (5 ∷ []) ≡ none)
      × AllMatches lock f (λ n. ⊥) (0 ∷ 1 ∷ []))
    ⊎ ((i : ℕ) × (Udp.rx lock (0 ∷ 1 ∷ []) 7 9 udphdr (5 ∷ [])
          ≡ some (i, record { peer_addr = 7; peer_port = 80; user_payload = 5 ∷ [] }))
        × IsBestMatch lock f (0 ∷ 1 ∷ []) i)
datagram_matched = rx-IsBestMatch lock (0 ∷ 1 ∷ []) 7 9 udphdr (5 ∷ [])
