-- ===== src/Interceptor/Calls/Sockets.antt =====
-- src/interceptor/interceptor.c over src/veloxd/arbiter/RpcDispatch.cpp: what a program's call comes to
-- through the daemon.
use velox_project.Prelude.{
  ℕ, ◌+◌, subst, ◌≤◌, ◌<◌, ◌≡◌, ◌⊎◌, inl, inr, refl, sym, ap, ap₂, ◌∙◌, Bool, true, false, none,
  some, List, [], ◌∷◌, ◌++◌, ltb, ◌==◌, if◌then◌else◌, length, arith, Bool-cases,
}
use mathlib.Core.List.{append-nil}
use velox_project.Endpoint.{Endpoint, EndpointType, udp, tcp, Received, put_to_recv_q, recv_q_limit}
use velox_project.Endpoint.Filling.{put_to_recv_q-room}
use velox_project.Stack.{Stack}
use velox_project.Stack.Sockets.{at_self}
use velox_project.Stack.Delivery.{with_datagram}
use velox_project.Messages.{SockAddr, Response, Socket, Channel, drain_skbuf_chain, af_inet}
use velox_project.Pcb.{Daemon}
use velox_project.Rpc.{recvfrom_response}
use velox_project.Interceptor.{FdPool, is_assigned_by_velox, chan_recv}
use velox_project.Rpc.Answers.{connect_udp, connect_nonblocking, connect_blocking}
use velox_project.Interceptor.Ends.{
  Asked, nothing, Outcome, aborts, overruns, returns, after, recvfrom_end, recvfrom_ret_end,
  connect_end, sizeof_sockaddr_in,
}
use velox_project.Rpc.Sizes.{
  Encoding, rpc_message_max_size, buf_of, fits_message, fits_message-small,
}
use velox_project.Interceptor.Calls.Exchanges.{exchange-fails, exchange-answers, recvfrom_asks}
use velox_project.Interceptor.Calls.{exchange, received, recvfrom, connect}

put-recv_q :
    (size_approx : List Received → ℕ) (capacity : ℕ) (e : Endpoint) (r : Received)
    → e.recv_q ≡ []
    → size_approx [] ≤ recv_q_limit
    → (put_to_recv_q size_approx capacity e r).recv_q ≡ r ∷ []
put-recv_q size_approx capacity e r empty fits =
    put_to_recv_q-room size_approx capacity e r
      (subst (λ q. size_approx q ≤ recv_q_limit) (sym empty) fits)
    ∙ ap (λ q. q ++ (r ∷ [])) empty

-- What `recvfrom` makes of the bytes and the sender that the daemon answers.
abbrev pub delivered : ℕ → Bool → List ℕ → SockAddr → Outcome
delivered len src_addr buf from =
    if ltb 0 (length buf)
    then (if ltb len (length buf)
        then overruns
        else returns (length buf)
            (record { buf = buf; peer = if src_addr then some from else none; optval = none }))
    else returns (length buf) nothing

recvfrom_end-delivered :
    (len : ℕ) (src_addr : Bool) (r : Received)
    → recvfrom_end len src_addr (recvfrom_response src_addr r).returning
      ≡ delivered len src_addr
          (drain_skbuf_chain r.frames)
          (record { family = af_inet; addr = r.peer_addr; port = r.peer_port })
unfolding recvfrom_end recvfrom_ret_end
recvfrom_end-delivered len true r = refl
recvfrom_end-delivered len false r = refl

pub recvfrom-delivered :
    (B : Encoding) (p : FdPool) (fd len : ℕ) (src_addr : Bool) (ch : Channel) (d : Daemon) (pid : ℕ)
    (later : List Response) (s : Socket) (r : Received) (rest : List Received)
    → is_assigned_by_velox p fd ≡ true
    → 0 < len
    → ch.socket ≡ some s
    → s.endpoint.recv_q ≡ r ∷ rest
    → recvfrom p (λ chan. exchange B ch d pid later) fd true len src_addr ≡ (
        if fits_message B (recvfrom_response src_addr r)
        then delivered len src_addr
            (drain_skbuf_chain r.frames)
            (record { family = af_inet; addr = r.peer_addr; port = r.peer_port })
        else aborts)
unfolding recvfrom after
recvfrom-delivered B p fd len src_addr ch d pid later s r rest velox room has q =
    let nonempty : (len == 0) ≡ false = ground arith in
    let asked = recvfrom_asks B ch d pid later src_addr s r rest has q in
    elim (Bool-cases (fits_message B (recvfrom_response src_addr r))) [
      | inl t ↦ rw (velox, nonempty, asked) (rw (t, after) (recvfrom_end-delivered len src_addr r))
      | inr n ↦ rw (velox, nonempty, asked) (rw (n, after) refl)
    ]

whole_buf :
    (src_addr : Bool) (r : Received)
    → buf_of (recvfrom_response src_addr r).returning ≡ drain_skbuf_chain r.frames
whole_buf true r = refl
whole_buf false r = refl

-- The same for what the receiving path has put into a socket's empty queue: the program gets the datagram.
pub recvfrom-with_datagram :
    (B : Encoding) (size_approx : List Received → ℕ) (capacity : ℕ) (st : Stack)
    (i peer_addr peer_port : ℕ) (buf : List ℕ) (p : FdPool) (fd len : ℕ) (src_addr : Bool)
    (ch : Channel) (d : Daemon) (pid : ℕ) (later : List Response) (s : Socket)
    → (st.udp_endpoints i).recv_q ≡ []
    → size_approx [] ≤ recv_q_limit
    → is_assigned_by_velox p fd ≡ true
    → 0 < len
    → length buf + 128 ≤ rpc_message_max_size
    → ch.socket ≡ some s
    → s.endpoint ≡ (with_datagram size_approx capacity st i peer_addr peer_port buf).udp_endpoints i
    → recvfrom p (λ chan. exchange B ch d pid later) fd true len src_addr
      ≡ delivered len src_addr buf (record { family = af_inet; addr = peer_addr; port = peer_port })
recvfrom-with_datagram B size_approx capacity st i peer_addr peer_port buf p fd len src_addr ch d
      pid later s empty fits velox room small has e =
    let r : Received = record { peer_addr = peer_addr; peer_port = peer_port; frames = buf ∷ [] } in
    let q =
      ap (λ (e : Endpoint). e.recv_q) (e ∙ at_self st.udp_endpoints i _)
      ∙ put-recv_q size_approx capacity (st.udp_endpoints i) r empty fits in
    let whole = append-nil buf in
    let fits_one : fits_message B (recvfrom_response src_addr r) ≡ true =
      fits_message-small B (recvfrom_response src_addr r) (
        subst (λ b. length b + 128 ≤ rpc_message_max_size) (sym (whole_buf src_addr r ∙ whole))
          small) in
    recvfrom-delivered B p fd len src_addr ch d pid later s r [] velox room has q
    ∙ rw fits_one (
        ap
          (λ b.
            delivered len src_addr b
              (record { family = af_inet; addr = peer_addr; port = peer_port }))
          whole)

-- How `connect` ends, by the kind of socket.
abbrev pub connect_outcome : EndpointType → Bool → List Response → Outcome
connect_outcome udp nonblocking later = aborts
connect_outcome tcp true later = aborts
connect_outcome tcp false later =
    after (received (chan_recv later)) (λ resp. connect_end resp.returning)

kind-cases : (k : EndpointType) → (k ≡ udp) ⊎ (k ≡ tcp)
kind-cases udp = inl refl
kind-cases tcp = inr refl

-- `connect` of a descriptor of Velox whose channel has a socket: on a UDP socket and on a nonblocking TCP
-- socket the program ends in an assertion, on the first because the daemon has ended; on a blocking TCP socket it
-- is decided by the first answer that is not WAIT_NEXT behind the daemon's own, and waits while there
-- is none.
pub connect-by_kind :
    (B : Encoding) (p : FdPool) (fd : ℕ) (dest : SockAddr) (ch : Channel) (d : Daemon) (pid : ℕ)
    (later : List Response) (s : Socket)
    → is_assigned_by_velox p fd ≡ true
    → ch.socket ≡ some s
    → connect p (λ chan. exchange B ch d pid later) fd dest sizeof_sockaddr_in
      ≡ connect_outcome s.endpoint.kind s.endpoint.nonblocking later
unfolding connect after connect_end received chan_recv
connect-by_kind B p fd dest ch d pid later s velox has =
    let ends : Asked → Outcome = λ asked. after asked (λ resp. connect_end resp.returning) in
    rw velox (elim (kind-cases s.endpoint.kind) [
      | inl k ↦
          ap ends (exchange-fails B ch d pid later _ (connect_udp ch d pid dest s has k))
          ∙ ap (λ k. connect_outcome k s.endpoint.nonblocking later) (sym k)
      | inr k ↦ elim (Bool-cases s.endpoint.nonblocking) [
        | inl n ↦
            ap ends (
              exchange-answers B ch d pid later _ _ (connect_nonblocking ch d pid dest s has k n)
                (omega arith))
            ∙ ap₂ (λ k n. connect_outcome k n later) (sym k) (sym n)
        | inr n ↦
            (let (a, e, w) = connect_blocking ch d pid dest s has k n in
              ap ends (
                exchange-answers B ch d pid later _ a e (
                  subst (λ (x : Response). length (buf_of x.returning) + 128 ≤ rpc_message_max_size)
                    (sym w) (omega arith)))
              ∙ ap (λ resp. ends (received (chan_recv (resp ∷ later)))) w
              ∙ ap₂ (λ k n. connect_outcome k n later) (sym k) (sym n))
      ]
    ])
