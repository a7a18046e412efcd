-- ===== src/Stack.antt =====
-- The receiving path of the daemon as a whole: the frames that src/veloxd/ip/Ip.cpp hands to udp/Udp.cpp
-- and tcp/Tcp.cpp, and from there into the sockets' queues of arbiter/Endpoint.cpp or out to the
-- TUN device of interface/TunIface.cpp. A session's Endpoint is found under the session's number.
pub mod Frames
pub mod Delivery
pub mod Segments
pub mod Streams
pub mod Sockets
pub mod Fragments
pub mod Faults
use velox_project.Prelude.{
  ℕ, ◌+◌, ◌-◌, Option, none, some, List, [], ◌∷◌, ◌++◌, map, take, drop, ◌==◌, if◌then◌else◌,
}
use velox_project.Session.{Session}
use velox_project.Udp
use velox_project.Udp.{Datagram}
use velox_project.Udp.Wire.{read_udp_hdr}
use velox_project.Tcp
use velox_project.Tcp.{
  TcpSession, Counters, Segment, Action, ip_tx, put_to_recv_q, on_conn_estab, Outcome,
}
use velox_project.Tcp.Wire.{read_tcp_hdr}
use velox_project.Tcp.Demux
use velox_project.Endpoint
use velox_project.Endpoint.{Endpoint, Received}
use velox_project.Ip.Reassembler.{FrameBuf, FragGroup}
use velox_project.Ip.Receiving.{Handed, nothing, to_udp, to_tcp, Turn, rx_body}
use velox_project.Interface

-- The bytes from an offset to the packet's end.
abbrev pub bytes_from : ℕ → FrameBuf → List ℕ
bytes_from begin f = take (f.user_payload_end - begin) (drop begin f.raw_bytes)

abbrev pub user_payload : FrameBuf → List ℕ
user_payload f = bytes_from f.user_payload_begin f

-- A segment as `TcpSession::recv` finds it at `transport_hdr`.
abbrev pub segment_at : ℕ → FrameBuf → Segment
segment_at transport_hdr f = record {
  hdr = read_tcp_hdr (drop transport_hdr f.raw_bytes);
  bytes = bytes_from transport_hdr f;
}

-- The lists of the two layers, the sessions that live, and the Endpoints.
pub record Stack : Type 0 where
  pub groups : List FragGroup
  pub udp_pcbs : List ℕ
  pub udp_sessions : ℕ → Option Session
  pub udp_endpoints : ℕ → Endpoint
  pub tcp_pcbs : List ℕ
  pub tcp_sessions : ℕ → Option TcpSession
  pub tcp_endpoints : ℕ → Endpoint
  pub tcp_counters : Counters
  -- The packets that have been written to the TUN device.
  pub written : List (List ℕ)

abbrev pub at {ℓ} : {A : Type ℓ} → (ℕ → A) → ℕ → A → ℕ → A
at f i a j = if j == i then a else f j

module _ (size_approx : List Received → ℕ) (capacity : ℕ) where
  -- `Udp::rx` with `UdpSession::recv`: the whole chain goes into the queue.
  unfoldable pub udp_rx : Stack → FrameBuf → List FrameBuf → ℕ → Stack
  udp_rx s f next transport_hdr =
      elim (Udp.rx s.udp_sessions s.udp_pcbs f.hdr.saddr f.hdr.daddr
        (read_udp_hdr (drop transport_hdr f.raw_bytes)) (bytes_from (transport_hdr + 8) f)) [
          | none ↦ s
          | some (i, d) ↦
              (let r : Received = record {
                peer_addr = d.peer_addr;
                peer_port = d.peer_port;
                frames = d.user_payload ∷ map user_payload next;
              } in
                record s {
                  udp_endpoints =
                      at s.udp_endpoints i
                        (Endpoint.put_to_recv_q size_approx capacity (s.udp_endpoints i) r);
                })
        ]

  -- What `TcpSession::recv` does outside its session. The peer's address in the queue is not
  -- written, here 0; the callback for an established connection belongs to the daemon's requests.
  unfoldable pub act : ℕ → List FrameBuf → Stack → Action → Stack
  act i next s (ip_tx p) = record s { written = s.written ++ (Interface.tx (p ∷ []) ∷ []) }
  act i next s (put_to_recv_q payload) =
      let r : Received = record {
        peer_addr = 0;
        peer_port = 0;
        frames = payload ∷ map user_payload next;
      } in
      record s {
        tcp_endpoints =
            at s.tcp_endpoints i
              (Endpoint.put_to_recv_q size_approx capacity (s.tcp_endpoints i) r);
      }
  act i next s on_conn_estab = s

  unfoldable pub act_all : ℕ → List FrameBuf → Stack → List Action → Stack
  unfolding act
  act_all i next s [] = s
  act_all i next s (a ∷ rest) = act_all i next (act i next s a) rest

  pub after_recv : Stack → List FrameBuf → ℕ → Option Outcome → Option Stack
  after_recv s next i none = none
  after_recv s next i (some o) = some (
      act_all i next
        (record s { tcp_sessions = at s.tcp_sessions i (some o.pcb); tcp_counters = o.counters })
        o.actions)

  -- `Tcp::rx`; `none` is the failed `assert` of `TcpSession::recv`.
  unfoldable pub tcp_rx : Stack → FrameBuf → List FrameBuf → ℕ → Option Stack
  unfolding after_recv act_all
  tcp_rx s f next transport_hdr =
      elim (Demux.rx s.tcp_sessions s.tcp_pcbs s.tcp_counters f.hdr.saddr f.hdr.daddr
        (segment_at transport_hdr f)) [ none ↦ some s | some (i, o) ↦ after_recv s next i o ]

  unfoldable pub take_handed : Stack → Handed → Option Stack
  unfolding udp_rx tcp_rx
  take_handed s nothing = some s
  take_handed s (to_udp f next transport_hdr) = some (udp_rx s f next transport_hdr)
  take_handed s (to_tcp f next transport_hdr) = tcp_rx s f next transport_hdr

  -- A turn of the loop of `Ip::start`, with all that it calls.
  unfoldable pub rx_turn : Stack → FrameBuf → Option Stack
  unfolding take_handed
  rx_turn s skbuf = elim (rx_body s.groups skbuf) [
    | none ↦ none
    | some t ↦ take_handed (record s { groups = t.groups }) t.handed
  ]

  unfoldable pub rx_loop : Stack → List FrameBuf → Option Stack
  unfolding rx_turn
  rx_loop s [] = some s
  rx_loop s (skbuf ∷ rx_q) = elim (rx_turn s skbuf) [ none ↦ none | some s' ↦ rx_loop s' rx_q ]
