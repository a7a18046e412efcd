-- ===== src/Examples/Delivery.antt =====
-- Concrete packets between two hosts, for src/veloxd/ip/Ip.cpp, interface/TunIface.cpp, udp/Udp.cpp and
-- tcp/Tcp.cpp, and the calls of src/interceptor/interceptor.c.
use velox_project.Prelude.{
  ap, ◌∙◌, if◌then◌else◌, ◌≡◌, ◌≢◌, ◌⊎◌, refl, true, false, none, some, [], ◌∷◌, arith, length,
}
use velox_project.Session
use velox_project.Session.{Session}
use velox_project.Tcp
use velox_project.Tcp.{TcpHdr, TcpSession, closed, established}
use velox_project.Endpoint.{tcp, Received}
use velox_project.Pcb.{udp_pcb, tcp_pcb}
use velox_project.Messages.{
  SockAddr, Socket, Channel, Answer, answers, connect_call, recvfrom_call, respond, ok, connect_ret,
  ret,
}
use velox_project.Interceptor.{FdPool, is_assigned_by_velox}
use velox_project.Rpc.{on_read_ready, recvfrom_response}
use velox_project.Rpc.Sizes.{fits_message-small}
use velox_project.Rpc.Typing.{IsNonblockingConnect}
use velox_project.Interceptor.Calls.Typed.{Fits, exchange-Fits}
use velox_project.Interceptor.Calls.Names.{named, bound_port, counter_behind, connect-named}
use velox_project.Interceptor.Ends.{answered, peer_gone, sizeof_sockaddr_in}
use velox_project.Interceptor.Calls.{getpeername, getsockname, exchange, connect}
use velox_project.Interceptor.Calls.Sockets.{connect_outcome, connect-by_kind}
use velox_project.Interceptor.Calls.Exchanges.{recvfrom_asks}
use velox_project.Interceptor.Calls.Delivery.{Sender, Receiver, Carried, sendto-recvfrom}
use velox_project.Interface
use velox_project.Interface.{receive}
use velox_project.Ip.Reassembler.{FrameBuf}
use velox_project.Examples.Daemon.{endpoint, daemon, encoding}
use velox_project.Stack.{Stack}
use velox_project.Stack.Segments.{SegmentArrives, sent_segment, with_check, transmit-SegmentArrives}

abbrev fresh : Session
fresh = record { faddr = 0; fport = 0; laddr = 9; lport = 0 }

abbrev pub udp_channel : Channel
udp_channel = record {
  peer_name = [];
  peer_pid = 4;
  socket = some (record { endpoint = endpoint; pcb = udp_pcb fresh });
}

-- The other host: a UDP session on port 53 and an established TCP session.
abbrev pub stack : Stack
stack = record {
  groups = [];
  udp_pcbs = 0 ∷ [];
  udp_sessions = λ i. some (record { faddr = 0; fport = 0; laddr = 7; lport = 13568 });
  udp_endpoints = λ i. endpoint;
  tcp_pcbs = 0 ∷ [];
  tcp_sessions = λ i. some (record {
    session = record { faddr = 9; fport = 260; laddr = 7; lport = 20480 };
    conn_state = established;
    on_conn_estab_cb = false;
    send_unack = 2;
    send_next = 2;
    irs = 1;
    recv_next = 2;
  });
  tcp_endpoints = λ i. record endpoint { kind = tcp };
  tcp_counters = record { port = 1024; last_id = 0 };
  written = [];
}

abbrev pool : FdPool
pool = record { start_fd = 4096; fd_count = 2; next_fd = 4097; chan_table = 5 ∷ 0 ∷ [] }

abbrev receiver : Receiver
receiver = record {
  pool = pool;
  fd = 4096;
  len = 16;
  src_addr = true;
  channel = record udp_channel { socket = none };
  pcb = udp_pcb (record { faddr = 0; fport = 0; laddr = 7; lport = 13568 });
  daemon = daemon;
  pid = 5;
  later = [];
}

abbrev udp_sender : Sender
udp_sender = record {
  pool = pool;
  fd = 4096;
  channel = udp_channel;
  daemon = daemon;
  pid = 4;
  later = [];
}

assigned : is_assigned_by_velox pool 4096 ≡ true
unfolding is_assigned_by_velox
assigned = refl

bound : (Session.bind fresh 1024).session.lport ≢ 0
unfolding Session.bind Session.next_avail_port
bound e = cc

abbrev dest : SockAddr
dest = record { family = 2; addr = 7; port = 13568 }

sendto-recvfrom_example :
    Carried encoding length 65536 udp_sender fresh dest (1 ∷ 2 ∷ 3 ∷ []) stack [] receiver
sendto-recvfrom_example =
    sendto-recvfrom encoding length 65536 udp_sender fresh dest (1 ∷ 2 ∷ 3 ∷ []) stack [] receiver
      assigned
      (record {
        socket = record { endpoint = endpoint; pcb = udp_pcb fresh };
        has = refl;
        is_udp = refl;
        session = refl;
      })
      bound (omega arith) (omega arith) (omega arith) (omega arith) (omega arith) (omega arith)
      (λ i. refl) (omega arith) assigned (omega arith)

abbrev tcphdr : TcpHdr
tcphdr = record {
  source = 260;
  dest = 20480;
  seq = 33554432;
  ack_seq = 33554432;
  doff = 5;
  syn = false;
  ack = true;
  window = 16;
  check = 0;
}

abbrev pub connected : Session
connected = record { faddr = 7; fport = 20480; laddr = 9; lport = 260 }

transmit-SegmentArrives_example :
    let p = (Tcp.transmit connected 0 tcphdr (1 ∷ 2 ∷ [])).1 in
    (f : FrameBuf) × (receive [] (some (Interface.tx (p ∷ []))) ≡ some (f ∷ []))
    × SegmentArrives length 65536 stack f
        (record { faddr = 9; fport = 260; laddr = 7; lport = 20480 })
        (sent_segment (with_check connected tcphdr (1 ∷ 2 ∷ [])) (1 ∷ 2 ∷ []))
transmit-SegmentArrives_example =
    transmit-SegmentArrives length 65536 stack [] connected 0 tcphdr (1 ∷ 2 ∷ []) (omega arith)
      (omega arith) (omega arith) (omega arith)

-- A packet of three bytes is waiting.
abbrev packet : Received
packet = record { peer_addr = 7; peer_port = 53; frames = (1 ∷ 2 ∷ []) ∷ (3 ∷ []) ∷ [] }

abbrev full_socket : Socket
full_socket = record { endpoint = record endpoint { recv_q = packet ∷ [] }; pcb = udp_pcb fresh }

abbrev full_channel : Channel
full_channel = record udp_channel { socket = some full_socket }

abbrev tcp_socket : Socket
tcp_socket = record { endpoint = record endpoint { kind = tcp }; pcb = tcp_pcb daemon.mem }

abbrev tcp_channel : Channel
tcp_channel = record udp_channel { socket = some tcp_socket }

-- The daemon's own WAIT_NEXT is followed by the answer that the connection is established.
connect-by_kind_example :
    connect pool
      (λ chan. exchange encoding tcp_channel daemon 5 (respond ok (connect_ret (ret 0) none) ∷ []))
      4096
      dest
      sizeof_sockaddr_in
    ≡ connect_outcome tcp false (respond ok (connect_ret (ret 0) none) ∷ [])
connect-by_kind_example =
    connect-by_kind encoding pool 4096 dest tcp_channel daemon 5
      (respond ok (connect_ret (ret 0) none) ∷ []) tcp_socket assigned refl

connect-named_example :
    let t = daemon.mem in
    let l = t.session.lport in
    (a : Answer) × (on_read_ready tcp_channel daemon
        (record { calling = connect_call dest; pid = 5 })
      ≡ answers a)
    × (getpeername pool (λ chan. exchange encoding a.channel daemon 5 []) 4096
        ≡ named dest.addr dest.port)
    × (getsockname pool (λ chan. exchange encoding a.channel daemon 5 []) 4096
        ≡ named t.session.laddr
            (bound_port (bound_port l daemon.tcp_port) (counter_behind l daemon.tcp_port)))
connect-named_example =
    connect-named encoding pool 4096 tcp_channel daemon daemon 5 [] dest
      (record endpoint { kind = tcp }) daemon.mem assigned refl refl refl

packet_answered :
    exchange encoding full_channel daemon 5 [] (recvfrom_call true)
    ≡ answered (recvfrom_response true packet)
packet_answered =
    recvfrom_asks encoding full_channel daemon 5 [] true full_socket packet [] refl refl
    ∙ ap (λ b. if b then answered (recvfrom_response true packet) else peer_gone)
        (fits_message-small encoding (recvfrom_response true packet) (omega arith))

exchange-Fits_example :
    Fits (recvfrom_call true) (recvfrom_response true packet).returning
    ⊎ IsNonblockingConnect full_channel (recvfrom_call true)
exchange-Fits_example =
    exchange-Fits encoding full_channel daemon 5 [] (recvfrom_call true)
      (recvfrom_response true packet) tt packet_answered
