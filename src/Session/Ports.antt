-- ===== src/Session/Ports.antt =====
-- src/veloxd/tcp/TcpSession.cpp and udp/UdpSession.cpp, `nextAvailPort`, and `Session::bind`: which
-- local ports are handed out.
use velox_project.Prelude.{
  ℕ, zero, suc, ◌+◌, ◌%◌, ◌^◌, ◌<◌, ◌≡◌, ◌≢◌, ◌↔◌, refl, arith, swap16, ◌==◌, if◌then◌else◌,
}
use velox_project.Session.{Session, next_avail_port, connect, send}

abbrev pub first_counter : ℕ
first_counter = 1024

-- The counter after n calls, from its initial value.
pub counter_after : ℕ → ℕ
counter_after zero = first_counter
counter_after (suc n) = (next_avail_port (counter_after n)).0

-- The port that call n + 1 hands out.
pub nth_port : ℕ → ℕ
unfolding counter_after
nth_port n = (next_avail_port (counter_after n)).1

counter_after_lem : (n : ℕ) → counter_after n ≡ (first_counter + n) % 2 ^ 16
unfolding counter_after next_avail_port
counter_after_lem zero = refl
counter_after_lem (suc n) = omega (arith, counter_after_lem n)

-- The first 64511 calls hand out distinct ports, none of which is 0, so each binds its session.
pub nth_port-ne :
    (i j : ℕ) → i < j → j < 64511 → (nth_port i ≢ nth_port j) × (nth_port i ≢ 0) × (nth_port j ≢ 0)
unfolding nth_port next_avail_port
nth_port-ne i j lt bound = omega (arith, counter_after_lem i, counter_after_lem j)

-- The counter wraps: every 65536 calls one hands out port 0, which leaves its session unbound,
-- and every call repeats the port of the call 65536 before it.
pub nth_port_period :
    (n : ℕ) → (nth_port (n + 2 ^ 16) ≡ nth_port n) × ((nth_port n ≡ 0) ↔ (n % 2 ^ 16 ≡ 64511))
unfolding nth_port next_avail_port
nth_port_period n = (
  omega (arith, counter_after_lem (n + 2 ^ 16), counter_after_lem n),
  ground (arith, counter_after_lem n),
)

-- `connect` sets the peer, keeps the local address, and binds an unbound session to the counter's
-- next port; a bound session keeps its port and leaves the counter alone.
pub connect_binds :
    (s : Session) (faddr fport port : ℕ)
    → let b = connect s faddr fport port in
      (b.session.faddr ≡ faddr)
      × (b.session.fport ≡ fport)
      × (b.session.laddr ≡ s.laddr)
      × (b.session.lport ≡ (if s.lport == 0 then swap16 ((port + 1) % 2 ^ 16) else s.lport))
      × (b.port ≡ (if s.lport == 0 then (port + 1) % 2 ^ 16 else port))
unfolding connect
connect_binds s faddr fport port = ground arith

-- `send` of the base class binds an unbound session, and changes nothing but its local port.
pub send_binds :
    (s : Session) (port : ℕ)
    → let b = (send s port).0 in
      (b.session.faddr ≡ s.faddr)
      × (b.session.fport ≡ s.fport)
      × (b.session.laddr ≡ s.laddr)
      × (b.session.lport ≡ (if s.lport == 0 then swap16 ((port + 1) % 2 ^ 16) else s.lport))
unfolding send
send_binds s port = ground arith
