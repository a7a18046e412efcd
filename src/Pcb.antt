-- ===== src/Pcb.antt =====
-- The virtual methods of src/veloxd/Session.h, as the daemon's requests call them: on a UdpSession or
-- on a TcpSession.
use velox_project.Prelude.{ℕ, List, [], ◌∷◌}
use velox_project.Session
use velox_project.Session.{Session, new_session}
use velox_project.Tcp
use velox_project.Tcp.{TcpSession, Action, ip_tx, new_tcp_session}
use velox_project.Udp

-- What the sessions share: the configured stack address, the port counters of the two protocols, and the last IP
-- identifier. `mem` is the memory that a TcpSession's constructor does not write.
pub record Daemon : Type 0 where
  pub stack_addr : ℕ
  pub udp_port : ℕ
  pub tcp_port : ℕ
  pub last_id : ℕ
  pub mem : TcpSession

pub data Pcb : Type 0 where
  udp_pcb : Session → Pcb
  tcp_pcb : TcpSession → Pcb

pub record Called : Type 0 where
  pub pcb : Pcb
  pub daemon : Daemon
  pub actions : List Action
  pub ret : ℕ

-- `Udp::newSession`, `Tcp::newSession`.
unfoldable pub new_udp : Daemon → Pcb
new_udp d = udp_pcb (new_session d.stack_addr)

unfoldable pub new_tcp : Daemon → Pcb
new_tcp d = tcp_pcb (new_tcp_session d.stack_addr d.mem)

unfoldable pub session_of : Pcb → Session
session_of (udp_pcb s) = s
session_of (tcp_pcb t) = t.session

unfoldable pub after_tcp : Daemon → Tcp.Outcome → Called
after_tcp d o = record {
  pcb = tcp_pcb o.pcb;
  daemon = record d { tcp_port = o.counters.port; last_id = o.counters.last_id };
  actions = o.actions;
  ret = o.ret;
}

unfoldable pub after_udp : Daemon → Udp.Sent → Called
after_udp d o = record {
  pcb = udp_pcb o.session;
  daemon = record d { udp_port = o.counters.port; last_id = o.counters.last_id };
  actions = ip_tx o.packet ∷ [];
  ret = o.ret;
}

unfoldable pub connect : Pcb → Daemon → ℕ → ℕ → Called
unfolding after_tcp
connect (udp_pcb s) d faddr fport =
    let b = Session.connect s faddr fport d.udp_port in
    record {
      pcb = udp_pcb b.session;
      daemon = record d { udp_port = b.port };
      actions = [];
      ret = 0;
    }
connect (tcp_pcb t) d faddr fport =
    after_tcp d (Tcp.connect t (record { port = d.tcp_port; last_id = d.last_id }) faddr fport)

unfoldable pub send : Pcb → Daemon → List ℕ → Called
unfolding after_tcp after_udp
send (udp_pcb s) d buf =
    after_udp d (Udp.send s (record { port = d.udp_port; last_id = d.last_id }) buf)
send (tcp_pcb t) d buf =
    after_tcp d (Tcp.send t (record { port = d.tcp_port; last_id = d.last_id }) buf)

-- Only a UDP Endpoint calls it.
unfoldable pub send_to : Session → Daemon → ℕ → ℕ → List ℕ → Called
unfolding after_udp
send_to s d faddr fport buf =
    after_udp d (Udp.send_to s (record { port = d.udp_port; last_id = d.last_id }) faddr fport buf)

-- `setOnConnEstabCB`; the one of Session.h does nothing.
unfoldable pub set_on_conn_estab : Pcb → Pcb
set_on_conn_estab (udp_pcb s) = udp_pcb s
set_on_conn_estab (tcp_pcb t) = tcp_pcb (Tcp.set_on_conn_estab_cb t)
