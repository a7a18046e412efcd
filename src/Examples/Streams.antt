-- ===== src/Examples/Streams.antt =====
-- A TCP connection and a fragmented datagram at a concrete host, for src/veloxd/tcp/TcpSession.cpp and ip/Ip.cpp.
use velox_project.Prelude.{
  ◌*◌, ◌≡◌, ◌⊎◌, true, none, refl, sym, ap, false, some, List, [], ◌∷◌, All, length, arith,
}
use mathlib.Core.Option.{some-injective}
use velox_project.Ip.Reassembler.Groups.{IsSound}
use velox_project.Ip.Receiving.Turns.{IsMisplaced, Turns, rx_body-Turns}
use velox_project.Ip.{Packet, is_frag}
use velox_project.Ip.Receiving.{rx_body}
use velox_project.Ip.Reassembler.{
  FrameBuf, FragGroup, last_of, complete, contiguous, is_last, frag_offset,
}
use velox_project.Interface
use velox_project.Interface.{receive}
use velox_project.Tcp
use velox_project.Tcp.{TcpSession, TcpState, established, ip_tx}
use velox_project.Stack.{Stack, udp_rx, rx_loop}
use velox_project.Stack.Faults.{Faults, rx_loop-Faults}
use velox_project.Stack.Streams.{StreamArrives, send-StreamArrives}
use velox_project.Ip.Reassembler.Complete.{IsPacketOf}
use velox_project.Stack.Fragments.{IsFragment, rx_loop-InOrder}
use velox_project.Examples.Network.{
  first_fragment, last_fragment, fragments-InOrder, fragments-OursBehind, fragments-Follows,
  fragments-is_last,
}
use velox_project.Examples.Delivery.{stack, connected}

abbrev sender : TcpSession
sender = record {
  session = connected;
  conn_state = established;
  on_conn_estab_cb = false;
  send_unack = 2;
  send_next = 2;
  irs = 1;
  recv_next = 2;
}

send-StreamArrives_example :
    (p : Packet) × (f : FrameBuf) × ((Tcp.send sender
        (record { port = 1024; last_id = 0 })
        (1 ∷ 2 ∷ [])).actions
      ≡ ip_tx p ∷ [])
    × (receive [] (some (Interface.tx (p ∷ []))) ≡ some (f ∷ []))
    × StreamArrives length 65536 stack f
        (record { faddr = 9; fport = 260; laddr = 7; lport = 20480 })
        2
        (1 ∷ 2 ∷ [])
send-StreamArrives_example =
    send-StreamArrives length 65536 stack [] sender (record { port = 1024; last_id = 0 })
      (1 ∷ 2 ∷ []) refl (λ e. cc) (omega arith) (omega arith) (omega arith) (omega arith)
      (omega arith) (omega arith) (omega arith)
      (λ i t e. sym (ap (λ (t : TcpSession). t.conn_state) (some-injective _ t e)))

fragments-IsFragment : All IsFragment (first_fragment ∷ last_fragment ∷ [])
unfolding is_frag
fragments-IsFragment = ((refl, omega arith, refl), ((refl, omega arith, refl), tt))

fragments_of_udp : (last_of first_fragment (last_fragment ∷ [])).hdr.protocol ≡ 17
unfolding last_of
fragments_of_udp = refl

rx_loop-InOrder_example :
    (head : FrameBuf) × (tail : List FrameBuf) × (rx_loop length 65536 stack
        (first_fragment ∷ last_fragment ∷ [])
      ≡ some (
          udp_rx length 65536 stack head tail
            ((last_of first_fragment (last_fragment ∷ [])).hdr.ihl * 4)))
    × IsPacketOf first_fragment (last_fragment ∷ []) head tail
rx_loop-InOrder_example =
    rx_loop-InOrder length 65536 stack first_fragment (last_fragment ∷ []) (tt, (tt, tt))
      fragments-IsFragment fragments_of_udp fragments-InOrder fragments-OursBehind
      (omega arith, (omega arith, tt)) fragments-Follows fragments-is_last (omega arith)

-- A group with the first fragment of a packet, when the last one comes.
abbrev begun_groups : List FragGroup
begun_groups =
    (record {
      ip_id = first_fragment.hdr.id;
      ip_protocol = first_fragment.hdr.protocol;
      ip_saddr = first_fragment.hdr.saddr;
      ip_daddr = first_fragment.hdr.daddr;
      first = first_fragment ∷ [];
    })
    ∷ []

begun_groups-IsSound : IsSound begun_groups
unfolding complete contiguous last_of is_last frag_offset
begun_groups-IsSound = record {
  each = (record { members = ((refl, refl), tt); begun = λ e. cc; incomplete = refl }, tt);
  apart = (tt, tt);
}

rx_body-Turns_example :
    ((is_frag last_fragment.hdr ≡ true)
      × IsMisplaced begun_groups last_fragment
      × (rx_body begun_groups last_fragment ≡ none))
    ⊎ Turns last_fragment (rx_body begun_groups last_fragment)
rx_body-Turns_example =
    rx_body-Turns begun_groups last_fragment begun_groups-IsSound refl (omega arith)

-- The two fragments at a host without groups.
rx_loop-Faults_example :
    ((rx_loop length 65536 stack (first_fragment ∷ last_fragment ∷ []) ≡ none)
      × Faults length 65536 stack (first_fragment ∷ last_fragment ∷ []))
    ⊎ ((s' : Stack) × (rx_loop length 65536 stack (first_fragment ∷ last_fragment ∷ []) ≡ some s')
        × IsSound s'.groups)
rx_loop-Faults_example =
    rx_loop-Faults length 65536 stack (first_fragment ∷ last_fragment ∷ [])
      (record { each = tt; apart = tt }) ((refl, omega arith), ((refl, omega arith), tt))
