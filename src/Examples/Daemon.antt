-- ===== src/Examples/Daemon.antt =====
-- Concrete requests and interleavings, for src/veloxd/arbiter's Endpoint.cpp and RpcDispatch.cpp.
use velox_project.Prelude.{
  ◌≤◌, ◌≡◌, ◌↔◌, ◌⊎◌, ◌+◌, inr, refl, true, false, none, some, [], ◌∷◌, arith, length,
}
use velox_project.Endpoint.{
  Endpoint, udp, tcp, Received, new_endpoint, set_waiting, set_on_async_new_packet_cb, on_udp,
  put_to_recv_q, calls_back, s_channel_read_cb, try_take_from_recv_q, enqueue, take_front,
}
use velox_project.Endpoint.Threads.{
  State, at_rest, start, arrive, arrives, finds_nothing, waits, Reach, here, next,
}
use velox_project.Endpoint.Wakeup.{IsAwake, Reach-IsAwake}
use velox_project.Endpoint.Order.{IsFifo, Reach-IsFifo, Reach-length}
use velox_project.Tcp.{closed, Segment}
use velox_project.Pcb.{Daemon, udp_pcb, tcp_pcb}
use velox_project.Messages.{
  Request, connect_call, Channel, Socket, fails, unchanged, respond, wait_next, not_set,
}
use velox_project.Rpc.{
  on_read_ready, recvfrom_call_handler, async_response, callback_of, recvfrom_response,
}
use velox_project.Rpc.Sizes.{Encoding, buf_of, on_message, IsTooLarge}
use velox_project.Rpc.Sizes.Failing.{on_message-fails_iff}
use velox_project.Rpc.Assertions.{Ends, on_read_ready-fails_iff}
use velox_project.Rpc.Connecting.{Connects, connect_completes}
use velox_project.Rpc.Receiving.{waiting_endpoint, recvfrom_waits}

abbrev pub endpoint : Endpoint
endpoint = record {
  kind = udp;
  nonblocking = false;
  new_packet_notify_pipe = 0;
  waiting = false;
  on_async_new_packet = none;
  recv_q = [];
}

abbrev socket : Socket
socket = record {
  endpoint = endpoint;
  pcb = udp_pcb (record { faddr = 0; fport = 0; laddr = 9; lport = 0 });
}

abbrev channel : Channel
channel = record { peer_name = []; peer_pid = 4; socket = some socket }

abbrev pub daemon : Daemon
daemon = record {
  stack_addr = 9;
  udp_port = 1024;
  tcp_port = 1024;
  last_id = 0;
  mem = record {
    session = record { faddr = 0; fport = 0; laddr = 0; lport = 0 };
    conn_state = closed;
    on_conn_estab_cb = false;
    send_unack = 0;
    send_next = 0;
    irs = 0;
    recv_next = 0;
  };
}

abbrev connects_udp : Request
connects_udp = record {
  calling = connect_call (record { family = 2; addr = 7; port = 53 });
  pid = 4;
}

abbrev pub encoding : Encoding
encoding = record {
  byte_size = λ resp. length (buf_of resp.returning) + 100;
  carries = λ resp. omega arith;
  overhead = λ resp. omega arith;
}

on_message-fails_iff_example :
    (on_message encoding channel daemon connects_udp ≡ fails)
    ↔ (Ends channel connects_udp.calling ⊎ IsTooLarge encoding channel connects_udp.calling)
on_message-fails_iff_example = on_message-fails_iff encoding channel daemon connects_udp

-- The connection of a UDP socket ends the daemon.
connect_ends : on_read_ready channel daemon connects_udp ≡ fails
connect_ends = (on_read_ready-fails_iff channel daemon connects_udp).1 (inr (socket, refl, refl))

abbrev received : Received
received = record { peer_addr = 7; peer_port = 53; frames = (1 ∷ 2 ∷ []) ∷ (3 ∷ []) ∷ [] }

recvfrom_waits_example :
    let e = waiting_endpoint endpoint true in
    let cb = callback_of udp true in
    (recvfrom_call_handler channel daemon true
      ≡ unchanged
          (record channel { socket = some (record socket { endpoint = e }) })
          daemon
          (respond wait_next not_set))
    × (s_channel_read_cb (put_to_recv_q length 65536 e received)
        ≡ calls_back (record e { new_packet_notify_pipe = 0; waiting = false }) cb received)
    × (udp ≡ udp → async_response cb received ≡ recvfrom_response true received)
recvfrom_waits_example =
    recvfrom_waits length 65536 channel daemon true socket received (omega arith) refl refl refl

-- A receive waits, and a packet arrives that has not written its byte yet.
abbrev waiting_state : State
waiting_state = record {
  endpoint = record endpoint {
    waiting = true;
    on_async_new_packet = some (on_udp true);
    recv_q = received ∷ [];
  };
  marks = 1;
  phase = at_rest;
  accepted = received ∷ [];
  delivered = [];
}

waiting_state-Reach : Reach length 65536 (start udp false) waiting_state
unfolding start new_endpoint arrive enqueue set_waiting set_on_async_new_packet_cb
    try_take_from_recv_q take_front
waiting_state-Reach =
    next (next (next here (finds_nothing (start udp false) refl refl)) (waits _ (on_udp true) refl))
      (arrives _ received)

Reach-IsAwake_example : IsAwake length 65536 waiting_state
Reach-IsAwake_example = Reach-IsAwake length 65536 (omega arith) udp false waiting_state-Reach

Reach-IsFifo_example : IsFifo length 65536 waiting_state
Reach-IsFifo_example = Reach-IsFifo length 65536 udp false waiting_state-Reach

queue_is_bounded : length waiting_state.endpoint.recv_q ≤ 129
queue_is_bounded = Reach-length length 65536 (λ q. omega arith) udp false waiting_state-Reach

-- A blocking TCP socket that is not connected yet, and the peer's answer to its SYN.
abbrev tcp_endpoint : Endpoint
tcp_endpoint = record endpoint { kind = tcp }

abbrev tcp_channel : Channel
tcp_channel = record channel {
  socket = some (record { endpoint = tcp_endpoint; pcb = tcp_pcb daemon.mem });
}

abbrev syn_ack : Segment
syn_ack = record {
  hdr = record {
    source = 80;
    dest = 260;
    seq = 16777216;
    ack_seq = 33554432;
    doff = 5;
    syn = true;
    ack = true;
    window = 16;
    check = 0;
  };
  bytes = [];
}

connect_completes_example :
    Connects tcp_channel daemon
      (record { family = 2; addr = 7; port = 80 })
      tcp_endpoint
      (record { port = 1025; last_id = 1 })
      syn_ack
connect_completes_example =
    connect_completes tcp_channel daemon (record { family = 2; addr = 7; port = 80 }) tcp_endpoint
      daemon.mem (record { port = 1025; last_id = 1 }) syn_ack refl refl refl refl refl
