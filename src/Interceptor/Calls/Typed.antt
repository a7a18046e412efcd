-- ===== src/Interceptor/Calls/Typed.antt =====
-- src/interceptor/interceptor.c over src/veloxd/arbiter/RpcDispatch.cpp: the assertions of the wrappers on the kind of
-- answer that they get.
use velox_project.Prelude.{
  ℕ, ◌≡◌, ◌≢◌, ◌⊎◌, inl, inr, refl, sym, ap, ◌∙◌, Bool, false, Option, none, List, [], ◌∷◌, All,
  arith, subst,
}
use velox_project.Endpoint.{EndpointType, udp, tcp, Received}
use velox_project.Pcb.{Daemon}
use velox_project.Messages.{
  SockAddr, Calling, socket_call, connect_call, close_call, recvfrom_call, sendto_call, poll_call,
  select_call, getpeername_call, getsockname_call, getsockopt_call, setsockopt_call, fcntl_call,
  atstart_action, calling_not_set, Channel, Result, fails, answers, Returning, respond, ok,
  Response, eagain,
}
use velox_project.Rpc.Typing.{Returns, IsNonblockingConnect, IsTyped, on_read_ready-IsTyped}
use velox_project.Rpc.{recvfrom_response, callback_of, async_response, conn_estab_response}
use velox_project.Rpc.Sizes.{Encoding, on_message, on_message-answered}
use velox_project.Interceptor.{chan_recv}
use velox_project.Interceptor.Ends.{
  Asked, answered, peer_gone, aborts, connect_end, close_end, sendto_end, socket_end, recvfrom_end,
  recvfrom_ret_end, getpeername_end, getsockname_end,
}
use velox_project.Interceptor.Calls.{exchange, received}

-- The wrapper of a call does not abort on what is returned.
abbrev pub Fits : Calling → Returning → Type 0
Fits (socket_call domain type) r = (connfd : ℕ) → socket_end connfd r ≢ aborts
Fits (connect_call dest) r = connect_end r ≢ aborts
Fits close_call r = close_end r ≢ aborts
Fits (recvfrom_call src_addr) r = (len : ℕ) → recvfrom_end len src_addr r ≢ aborts
Fits (sendto_call buf addr) r = sendto_end r ≢ aborts
Fits getpeername_call r = getpeername_end r ≢ aborts
Fits getsockname_call r = getsockname_end r ≢ aborts
Fits _ r = Unit

-- What the daemon writes for a call behind a WAIT_NEXT, from the callbacks that the call has set.
abbrev pub IsLater : Calling → Response → Type 0
IsLater (connect_call dest) resp = resp ≡ conn_estab_response
IsLater (recvfrom_call src_addr) resp =
    (k : EndpointType) × (r : Received) × (resp ≡ async_response (callback_of k src_addr) r)
IsLater _ resp = ⊥

recvfrom_ret_end-ne-aborts :
    (len : ℕ) (src_addr : Bool) (n : ℕ) (buf : List ℕ) (addr : Option SockAddr)
    → recvfrom_ret_end len src_addr n buf addr ≢ aborts
unfolding recvfrom_ret_end
recvfrom_ret_end-ne-aborts len src_addr n buf addr h = ground arith

recvfrom_response-Fits :
    (src_addr asked : Bool) (q : Received)
    → Fits (recvfrom_call src_addr) (recvfrom_response asked q).returning
unfolding recvfrom_end
recvfrom_response-Fits src_addr asked q len = recvfrom_ret_end-ne-aborts len src_addr _ _ _

Returns-Fits : (c : Calling) (r : Returning) → Returns c r → Fits c r
unfolding socket_end close_end sendto_end getpeername_end getsockname_end recvfrom_end
Returns-Fits (socket_call domain type) r e = rw e (λ connfd h. cc)
Returns-Fits (connect_call dest) r h = absurd h
Returns-Fits close_call r e = rw e (λ h. cc)
Returns-Fits (recvfrom_call src_addr) r (inl e) =
    rw e (λ len. recvfrom_ret_end-ne-aborts len src_addr eagain [] none)
Returns-Fits (recvfrom_call src_addr) r (inr (q, e)) =
    rw e (recvfrom_response-Fits src_addr src_addr q)
Returns-Fits (sendto_call buf addr) r (n, e) = rw e (λ h. cc)
Returns-Fits getpeername_call r (a, e) = rw e (λ h. cc)
Returns-Fits getsockname_call r (a, e) = rw e (λ h. cc)
Returns-Fits poll_call r h = tt
Returns-Fits select_call r h = tt
Returns-Fits setsockopt_call r h = tt
Returns-Fits getsockopt_call r h = tt
Returns-Fits fcntl_call r h = tt
Returns-Fits (atstart_action progname) r h = tt
Returns-Fits calling_not_set r h = tt

async_response-Fits :
    (k : EndpointType) (src_addr : Bool) (q : Received)
    → Fits (recvfrom_call src_addr) (async_response (callback_of k src_addr) q).returning
async_response-Fits udp src_addr q = recvfrom_response-Fits src_addr src_addr q
async_response-Fits tcp src_addr q = recvfrom_response-Fits src_addr false q

-- What comes later has the code OK and fits.
later_ok :
    (c : Calling) (x : Response) → IsLater c x → (r : Returning) × (x ≡ respond ok r) × Fits c r
unfolding connect_end
later_ok (connect_call dest) x e = (_, e, λ h. cc)
later_ok (recvfrom_call src_addr) x (udp, q, e) = (_, e, async_response-Fits udp src_addr q)
later_ok (recvfrom_call src_addr) x (tcp, q, e) = (_, e, async_response-Fits tcp src_addr q)
later_ok (socket_call domain type) x h = absurd h
later_ok close_call x h = absurd h
later_ok (sendto_call buf addr) x h = absurd h
later_ok poll_call x h = absurd h
later_ok select_call x h = absurd h
later_ok getpeername_call x h = absurd h
later_ok getsockname_call x h = absurd h
later_ok getsockopt_call x h = absurd h
later_ok setsockopt_call x h = absurd h
later_ok fcntl_call x h = absurd h
later_ok (atstart_action progname) x h = absurd h
later_ok calling_not_set x h = absurd h

-- The answer with the code OK is the one that is received.
received_ok :
    (r : Returning) (rest : List Response) (resp : Response)
    → received (chan_recv (respond ok r ∷ rest)) ≡ answered resp
    → r ≡ resp.returning
unfolding received chan_recv
received_ok r rest resp e = cc

received_later :
    (c : Calling) (later : List Response) (resp : Response)
    → All (IsLater c) later
    → received (chan_recv later) ≡ answered resp
    → Fits c resp.returning
unfolding received chan_recv
received_later c [] resp all e = absurd cc
received_later c (x ∷ rest) resp all e =
    let (r, ok_r, fits) = later_ok c x all.0 in
    subst (Fits c)
      (received_ok r rest resp (ap (λ x. received (chan_recv (x ∷ rest))) (sym ok_r) ∙ e)) fits

typed-Fits :
    (ch : Channel) (c : Calling) (x : Response) (later : List Response) (resp : Response)
    → All (IsLater c) later
    → IsTyped ch c x
    → received (chan_recv (x ∷ later)) ≡ answered resp
    → Fits c resp.returning ⊎ IsNonblockingConnect ch c
unfolding chan_recv
typed-Fits ch c x later resp all (inl (can, w)) e =
    inl (received_later c later resp all (ap (λ x. received (chan_recv (x ∷ later))) (sym w) ∙ e))
typed-Fits ch c x later resp all (inr (inl (r, ok_r, returns))) e = inl (
    subst (Fits c)
      (received_ok r later resp (ap (λ x. received (chan_recv (x ∷ later))) (sym ok_r) ∙ e))
      (Returns-Fits c r returns))
typed-Fits ch c x later resp all (inr (inr (n, w))) e = inr n

-- Whatever the daemon answers to a call, and whatever its callbacks write behind a WAIT_NEXT, the assertions of
-- the wrapper on the kind of the answer, its sign and its error number hold; the one exception is
-- `connect` on a nonblocking TCP socket.
pub exchange-Fits :
    (B : Encoding) (ch : Channel) (d : Daemon) (pid : ℕ) (later : List Response) (c : Calling)
    (resp : Response)
    → All (IsLater c) later
    → exchange B ch d pid later c ≡ answered resp
    → Fits c resp.returning ⊎ IsNonblockingConnect ch c
unfolding exchange
exchange-Fits B ch d pid later c resp all e =
    by_result (on_message B ch d (record { calling = c; pid = pid })) refl e
  where
    by_result :
        (o : Result)
        → on_message B ch d (record { calling = c; pid = pid }) ≡ o
        → elim o as (λ o. Asked) [
          | fails ↦ peer_gone
          | answers a ↦ received (chan_recv (a.response ∷ later))
        ]
          ≡ answered resp
        → Fits c resp.returning ⊎ IsNonblockingConnect ch c
    by_result fails o e = absurd cc
    by_result (answers a) o e =
        typed-Fits ch c a.response later resp all
          (on_read_ready-IsTyped ch d pid c a (on_message-answered B ch d _ a o)) e
