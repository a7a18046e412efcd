-- ===== src/Interceptor/Calls/Delivery.antt =====
-- From one program to another: src/interceptor/interceptor.c and src/veloxd/arbiter/RpcDispatch.cpp at both
-- ends, and src/veloxd/udp, ip and interface between them.
use velox_project.Prelude.{
  ℕ, ◌+◌, Option, sym, subst, arith, ◌^◌, ◌≤◌, ◌<◌, ◌≡◌, ◌≢◌, ◌⊎◌, inl, inr, refl, ap, ◌∙◌, Bool,
  true, some, List, [], ◌∷◌, ◌++◌, length,
}
use velox_project.Session
use velox_project.Session.{Session, Flow}
use velox_project.Session.Find.{IsBestMatch, AllMatches}
use velox_project.Ip.{Packet}
use velox_project.Ip.Reassembler.{FrameBuf}
use velox_project.Interface
use velox_project.Interface.{receive}
use velox_project.Tcp.{ip_tx, Counters}
use velox_project.Udp.Delivery.{send_to-carries}
use velox_project.Endpoint.{Endpoint, udp, Received, recv_q_limit}
use velox_project.Stack.{Stack, rx_turn}
use velox_project.Stack.Delivery.{send_to-Arrives}
use velox_project.Messages.{
  SockAddr, Calling, sendto_call, sendto_ret, Response, Socket, Channel, Answer, answers, af_inet,
  ret, respond, ok,
}
use velox_project.Pcb.{Pcb, Daemon, udp_pcb}
use velox_project.Rpc.Answers.{sendto_udp}
use velox_project.Interceptor.{FdPool, is_assigned_by_velox, fd_chanmap, chan_recv}
use velox_project.Rpc.Sizes.{Encoding, rpc_message_max_size, buf_of, on_message, on_message-answers}
use velox_project.Interceptor.Ends.{Asked, nothing, returns, after, sendto_end, sizeof_sockaddr_in}
use velox_project.Interceptor.Calls.{exchange, received, sendto, recvfrom}
use velox_project.Interceptor.Calls.Exchanges.{exchange-answers}
use velox_project.Interceptor.Calls.Sockets.{delivered, recvfrom-with_datagram}

-- The program that sends: its pool, its descriptor, its channel at its daemon, and what the daemon writes later.
pub record Sender : Type 0 where
  pub pool : FdPool
  pub fd : ℕ
  pub channel : Channel
  pub daemon : Daemon
  pub pid : ℕ
  pub later : List Response

-- The UDP socket of its channel with its session.
pub record IsUdpSender (ch : Channel) (u : Session) : Type 0 where
  pub socket : Socket
  pub has : ch.socket ≡ some socket
  pub is_udp : socket.endpoint.kind ≡ udp
  pub session : socket.pcb ≡ udp_pcb u

-- `sendto` makes this one request on the descriptor's channel, whatever answers it, and returns by its answer.
abbrev pub Requests : FdPool → ℕ → List ℕ → SockAddr → Type 0
Requests p fd buf dest =
    (ask : Option ℕ → Calling → Asked)
    → sendto p ask fd (some buf) (some (dest, sizeof_sockaddr_in))
      ≡ after (ask (fd_chanmap p fd) (sendto_call buf (some dest)))
          (λ resp. sendto_end resp.returning)

sent_end :
    (n : ℕ) (later : List Response)
    → after
        (received (chan_recv (respond ok (sendto_ret (ret n)) ∷ later)))
        (λ resp. sendto_end resp.returning)
      ≡ returns n nothing
unfolding after received chan_recv sendto_end
sent_end n later = refl

sendto-Requests :
    (p : FdPool) (fd : ℕ) (buf : List ℕ) (dest : SockAddr)
    → is_assigned_by_velox p fd ≡ true
    → 0 < length buf
    → Requests p fd buf dest
unfolding sendto
sendto-Requests p fd [] dest own nonempty ask = absurd (omega arith)
sendto-Requests p fd (b ∷ bs) dest own nonempty ask = rw own refl

-- The program that receives: its pool, its descriptor, its buffer's length, and whether it asks for the
-- sender's address.
pub record Receiver : Type 0 where
  pub pool : FdPool
  pub fd : ℕ
  pub len : ℕ
  pub src_addr : Bool
  pub channel : Channel
  pub pcb : Pcb
  pub daemon : Daemon
  pub pid : ℕ
  pub later : List Response

-- The channel of a program whose socket has an Endpoint.
abbrev pub channel_with : Receiver → Endpoint → Channel
channel_with to e =
    let ch = to.channel in record ch { socket = some (record { endpoint = e; pcb = to.pcb }) }

module _ (B : Encoding) (size_approx : List Received → ℕ) (capacity : ℕ) where
  -- What a `sendto` with an address comes to: what it returns and the request that it makes, the daemon's
  -- answer `a` to it, the packet `p`, its frame `f` at the other host, and there either no session or the one that matches
  -- best and the `recvfrom` on its socket.
  abbrev pub Carried :
      Sender → Session → SockAddr → List ℕ → Stack → List FrameBuf → Receiver → Type 0
  Carried from u dest buf st rx_q to =
      let lport = (Session.bind u from.daemon.udp_port).session.lport in
      let flow : Flow = record {
        faddr = u.laddr;
        fport = lport;
        laddr = dest.addr;
        lport = dest.port;
      } in
      (a : Answer) × (p : Packet) × (f : FrameBuf) × (sendto from.pool
          (λ chan. exchange B from.channel from.daemon from.pid from.later) from.fd (some buf)
          (some (dest, sizeof_sockaddr_in))
        ≡ returns (length buf) nothing)
      × Requests from.pool from.fd buf dest
      × (on_message B from.channel from.daemon
            (record { calling = sendto_call buf (some dest); pid = from.pid })
          ≡ answers a)
      × (a.response ≡ respond ok (sendto_ret (ret (length buf))))
      × (a.actions ≡ ip_tx p ∷ [])
      × (receive rx_q (some (Interface.tx (p ∷ []))) ≡ some (rx_q ++ (f ∷ [])))
      × (((rx_turn size_approx capacity st f ≡ some st)
            × AllMatches st.udp_sessions flow (λ n. ⊥) st.udp_pcbs)
          ⊎ ((i : ℕ) × (st' : Stack) × (rx_turn size_approx capacity st f ≡ some st')
              × IsBestMatch st.udp_sessions flow st.udp_pcbs i
              × (recvfrom to.pool
                    (λ chan.
                      exchange B (channel_with to (st'.udp_endpoints i)) to.daemon to.pid to.later)
                    to.fd true to.len to.src_addr
                  ≡ delivered to.len to.src_addr buf
                      (record { family = af_inet; addr = u.laddr; port = lport }))))

  -- A program's `sendto` on a UDP socket, a descriptor of Velox, with an address and 1 to 1490 bytes: it makes one request, with
  -- these bytes and this address, and returns their number; the daemon, on that request, hands one packet to the
  -- IP layer. On another host whose UDP sockets have empty queues, which count as at most 128 entries, that packet, written to
  -- the device and read there, becomes the last frame of the IP layer's queue; its turn of the loop either finds no
  -- live session that matches and changes nothing, or leaves in the socket of the best match what `recvfrom` of a
  -- program with that socket, on a descriptor of Velox and with a buffer that is not empty, then returns: those bytes and
  -- their number, with the sender's address and port if it asks for them; bytes that are more than the buffer's are written
  -- behind its end. Addresses fit 32 bits and ports 16, and the sender's socket has or gets a port other than 0.
  pub sendto-recvfrom :
      (from : Sender) (u : Session) (dest : SockAddr) (buf : List ℕ) (st : Stack)
      (rx_q : List FrameBuf) (to : Receiver)
      → is_assigned_by_velox from.pool from.fd ≡ true
      → IsUdpSender from.channel u
      → (Session.bind u from.daemon.udp_port).session.lport ≢ 0
      → u.laddr < 2 ^ 32
      → u.lport < 2 ^ 16
      → dest.addr < 2 ^ 32
      → dest.port < 2 ^ 16
      → 0 < length buf
      → length buf ≤ 1490
      → ((i : ℕ) → (st.udp_endpoints i).recv_q ≡ [])
      → size_approx [] ≤ recv_q_limit
      → is_assigned_by_velox to.pool to.fd ≡ true
      → 0 < to.len
      → Carried from u dest buf st rx_q to
  sendto-recvfrom from u dest buf st rx_q to own sock bound laddr lport daddr dport nonempty small
        empty fits velox room =
      let d = from.daemon in
      let c : Counters = record { port = d.udp_port; last_id = d.last_id } in
      let (a, answered, actions, response) =
        sendto_udp from.channel d from.pid buf dest sock.socket u sock.has sock.is_udp
          sock.session in
      let (f, queued, turn) =
        send_to-Arrives size_approx capacity st rx_q u c dest.addr dest.port buf bound laddr lport
          daddr dport small in
      let all_sent = (send_to-carries u c dest.addr dest.port buf bound).0.all_sent in
      let whole = response ∙ ap (λ n. respond ok (sendto_ret (ret n))) all_sent in
      let few : length (buf_of a.response.returning) + 128 ≤ rpc_message_max_size =
        subst (λ (x : Response). length (buf_of x.returning) + 128 ≤ rpc_message_max_size)
          (sym whole) (omega arith) in
      let requests = sendto-Requests from.pool from.fd buf dest own nonempty in
      (
        a,
        _,
        f,
        requests (λ chan. exchange B from.channel d from.pid from.later)
            ∙ ap (λ asked. after asked (λ resp. sendto_end resp.returning))
                (exchange-answers B from.channel d from.pid from.later _ a answered few)
            ∙ ap
                (λ (x : Response).
                  after (received (chan_recv (x ∷ from.later))) (λ resp. sendto_end resp.returning))
                whole
            ∙ sent_end (length buf) from.later,
        requests,
        on_message-answers B from.channel d _ a answered few,
        whole,
        actions,
        queued,
        elim turn [
          | inl x ↦ inl x
          | inr (i, e, best) ↦ inr (
            i,
            _,
            e,
            best,
            recvfrom-with_datagram B size_approx capacity st i u.laddr
                (Session.bind u d.udp_port).session.lport buf to.pool to.fd to.len to.src_addr _
                to.daemon to.pid to.later _ (empty i) fits velox room (omega arith) refl refl,
          )
        ],
      )
