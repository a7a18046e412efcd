-- ===== src/Tcp.antt =====
-- src/veloxd/tcp/TcpSession.h and TcpSession.cpp: a client connection. A method returns
-- the session, the counters that it shares with the others, and what it does to its neighbours. The
-- weak pointer to the Endpoint is taken to be alive.
pub mod Header
pub mod Segments
pub mod Wire
pub mod Handshake
pub mod Stream
pub mod Transfer
pub mod States
pub mod Demux
pub mod Refusals
pub use velox_project.Tcp.Header.{TcpHdr, bit, tcp_bytes}
unfoldable pub use velox_project.Tcp.Header.{
  tcp_front, socket_buffer_of_tcp_templ, pseudo_hdr, prepare_before_ip_tx, transmit,
}
use velox_project.Prelude.{
  ℕ, ◌+◌, ◌-◌, ◌*◌, ◌/◌, ◌%◌, ◌^◌, Bool, true, false, not, ◌&&◌, Option, none, some, List, [], ◌∷◌,
  ◌++◌, ltb, ◌==◌, if◌then◌else◌, length, drop, u16, u32, sub32, swap16, swap32, le16, le32,
}
use velox_project.Csum16.{add_words, checksum}
use velox_project.Session
use velox_project.Session.{Session, Bound, new_session}
use velox_project.Ip
use velox_project.Ip.{IpHdr, Packet, ip_bytes}

pub data TcpState : Type 0 where
  closed listen : TcpState
  syn_sent syn_received established : TcpState
  fin_wait_1 fin_wait_2 closing time_wait : TcpState
  close_wait last_ack : TcpState

pub record TcpSession : Type 0 where
  pub session : Session
  pub conn_state : TcpState
  pub on_conn_estab_cb : Bool
  pub send_unack : ℕ
  pub send_next : ℕ
  pub irs : ℕ
  pub recv_next : ℕ

-- `iss`, the initial send sequence number.
abbrev pub iss : ℕ
iss = 1

-- The port counter of `nextAvailPort`, and `last` of the generator of IP identifiers.
pub record Counters : Type 0 where
  pub port : ℕ
  pub last_id : ℕ

-- The constructor leaves the sequence numbers as the memory `mem` held them.
unfoldable pub new_tcp_session : ℕ → TcpSession → TcpSession
unfolding new_session
new_tcp_session addr mem = record mem {
  session = new_session addr;
  conn_state = closed;
  on_conn_estab_cb = false;
}

-- `setOnConnEstabCB`.
unfoldable pub set_on_conn_estab_cb : TcpSession → TcpSession
set_on_conn_estab_cb pcb = record pcb { on_conn_estab_cb = true }

-- What a method does to the layers below and above, in order.
pub data Action : Type 0 where
  ip_tx : Packet → Action
  put_to_recv_q : List ℕ → Action
  on_conn_estab : Action

pub record Outcome : Type 0 where
  pub pcb : TcpSession
  pub counters : Counters
  pub actions : List Action
  pub ret : ℕ

-- The end of `send`, once the header is filled in.
unfoldable pub send_segment : TcpSession → Counters → TcpHdr → List ℕ → Outcome
unfolding transmit
send_segment pcb c tcphdr buf =
    let (last', p) = transmit pcb.session c.last_id tcphdr buf in
    record {
      pcb = pcb;
      counters = record c { last_id = last' };
      actions = ip_tx p ∷ [];
      ret = length buf;
    }

-- The switch of `send`; the session is bound by now.
unfoldable pub send_in : TcpState → TcpSession → Counters → List ℕ → Outcome
unfolding send_segment socket_buffer_of_tcp_templ
send_in closed pcb c buf =
    let tcphdr = socket_buffer_of_tcp_templ pcb.session in
    send_segment (record pcb { send_unack = iss; send_next = u32 (iss + 1); conn_state = syn_sent })
      c (record tcphdr { seq = swap32 iss; syn = true }) buf
send_in established pcb c buf =
    let tcphdr = socket_buffer_of_tcp_templ pcb.session in
    send_segment (record pcb { send_next = u32 (pcb.send_next + length buf) }) c
      (record tcphdr { seq = swap32 pcb.send_next; ack = true; ack_seq = swap32 pcb.recv_next }) buf
send_in _ pcb c buf = record { pcb = pcb; counters = c; actions = []; ret = 0 }

-- `TcpSession::send`. The result of `Session::send` is dropped.
unfoldable pub send : TcpSession → Counters → List ℕ → Outcome
unfolding send_in
send pcb c buf =
    let b = (Session.send pcb.session c.port).0 in
    send_in pcb.conn_state (record pcb { session = b.session }) (record c { port = b.port }) buf

-- `TcpSession::connect`: the super class, then the first SYN.
unfoldable pub connect : TcpSession → Counters → ℕ → ℕ → Outcome
unfolding send
connect pcb c faddr fport =
    let b = Session.connect pcb.session faddr fport c.port in
    record (send (record pcb { session = b.session }) (record c { port = b.port }) []) { ret = 0 }

-- `ack2peer`.
unfoldable pub ack2peer : TcpSession → ℕ → ℕ → ℕ × Packet
unfolding transmit socket_buffer_of_tcp_templ
ack2peer pcb last_id value =
    let tcphdr = socket_buffer_of_tcp_templ pcb.session in
    transmit pcb.session last_id
      (record tcphdr { ack = true; ack_seq = swap32 value; seq = swap32 pcb.send_next }) []

-- An arriving segment: its header, and all bytes from the header's first to the packet's last.
pub record Segment : Type 0 where
  pub hdr : TcpHdr
  pub bytes : List ℕ

-- SYN and ACK have arrived in SYN_SENT.
unfoldable pub recv_syn_ack : TcpSession → Counters → TcpHdr → Outcome
unfolding ack2peer
recv_syn_ack pcb c tcphdr =
    let irs = swap32 tcphdr.seq in
    let pcb' = record pcb {
      irs = irs;
      recv_next = u32 (irs + 1);
      send_unack = u32 (pcb.send_unack + 1);
      conn_state = established;
    } in
    let (last', p) = ack2peer pcb' c.last_id (u32 (irs + 1)) in
    record {
      pcb = pcb';
      counters = record c { last_id = last' };
      actions = ip_tx p ∷ (if pcb.on_conn_estab_cb then on_conn_estab ∷ [] else []);
      ret = 0;
    }

-- `send_unack` moves forward only, by the numbers as they are.
unfoldable pub take_ack : TcpSession → TcpHdr → TcpSession
take_ack pcb tcphdr =
    if tcphdr.ack && ltb pcb.send_unack (swap32 tcphdr.ack_seq)
    then record pcb { send_unack = swap32 tcphdr.ack_seq }
    else pcb

-- The branch for a payload: into the queue, then the acknowledgement of its end.
unfoldable pub deliver : TcpSession → Counters → List ℕ → ℕ → Outcome
deliver pcb c payload next =
    let pcb' = record pcb { recv_next = next } in
    let (last', p) = ack2peer pcb' c.last_id next in
    record {
      pcb = pcb';
      counters = record c { last_id = last' };
      actions = put_to_recv_q payload ∷ ip_tx p ∷ [];
      ret = 0;
    }

-- A segment in ESTABLISHED. Its payload is what follows the header; a header length beyond the
-- packet makes the length negative, an empty payload for the queue.
unfoldable pub recv_established : TcpSession → Counters → Segment → Outcome
recv_established pcb c seg =
    let pcb' = take_ack pcb seg.hdr in
    let begin = seg.hdr.doff * 4 in
    if length seg.bytes == begin
    then record { pcb = pcb'; counters = c; actions = []; ret = 0 }
    else deliver pcb' c (drop begin seg.bytes)
        (u32 (swap32 seg.hdr.seq + sub32 (length seg.bytes) begin))

-- The switch of `recv`. `none` is the failed `assert`.
unfoldable pub recv_in : TcpState → TcpSession → Counters → Segment → Option Outcome
unfolding recv_syn_ack recv_established
recv_in syn_sent pcb c seg =
    if seg.hdr.syn && seg.hdr.ack then some (recv_syn_ack pcb c seg.hdr) else none
recv_in established pcb c seg = some (recv_established pcb c seg)
recv_in _ pcb c seg = some (record { pcb = pcb; counters = c; actions = []; ret = 0 })

-- `TcpSession::recv`.
unfoldable pub recv : TcpSession → Counters → Segment → Option Outcome
unfolding recv_in
recv pcb c seg = recv_in pcb.conn_state pcb c seg
