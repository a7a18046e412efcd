-- ===== src/Rpc/Sizes.antt =====
-- src/veloxd/arbiter/agent/AgentChannel.cpp, `write`, with both of its assertions: the Response is initialized, and
-- it fits a message. `ByteSize` is generated code, an interface here.
pub mod Failing
use velox_project.Prelude.{
  ℕ, ◌+◌, ◌≤◌, ◌<◌, ◌≡◌, ◌≢◌, ◌↔◌, ◌⊎◌, inl, inr, refl, ap, sym, subst, ◌∙◌, Bool, true, Option,
  none, some, List, [], length, ltb, if◌then◌else◌, arith, Bool-cases,
}
use mathlib.Core.Option.{some-injective, none-ne-some}
use velox_project.Endpoint.{Endpoint, Received, try_take_from_recv_q}
use velox_project.Pcb.{Daemon}
use velox_project.Messages.{
  Calling, socket_call, connect_call, close_call, recvfrom_call, sendto_call, poll_call,
  select_call, getpeername_call, getsockname_call, getsockopt_call, setsockopt_call, fcntl_call,
  atstart_action, calling_not_set, Request, Returning, recvfrom_ret, Response, Socket, Channel,
  Answer, Result, fails, answers,
}
use velox_project.Rpc.{
  recvfrom_response, on_read_ready, recvfrom_with, write, with_socket, handle_request,
  handle_calling, recvfrom_call_handler,
}
use velox_project.Rpc.Typing.{Returns, IsTyped, on_read_ready-IsTyped}
use velox_project.Rpc.Assertions.{Ends, on_read_ready-fails_iff}

-- `RPC_MESSAGE_MAX_SIZE`.
abbrev pub rpc_message_max_size : ℕ
rpc_message_max_size = 81920

-- The bytes that a Response carries.
abbrev pub buf_of : Returning → List ℕ
buf_of (recvfrom_ret r (some buf) addr) = buf
buf_of _ = []

-- `Response::ByteSize`, by the encoding of protocol buffers: the bytes themselves, and less than 128 for the rest, which is
-- numbers of 32 bits, an address and the tags.
pub record Encoding : Type 0 where
  pub byte_size : Response → ℕ
  pub carries : (resp : Response) → length (buf_of resp.returning) ≤ byte_size resp
  pub overhead : (resp : Response) → byte_size resp ≤ length (buf_of resp.returning) + 128

module _ (B : Encoding) where
  -- The second assertion.
  pub fits_message : Response → Bool
  fits_message resp = ltb (B.byte_size resp) (rpc_message_max_size + 1)

  pub check_size : Result → Result
  unfolding fits_message
  check_size fails = fails
  check_size (answers a) = if fits_message a.response then answers a else fails

  -- `AgentChannel::Impl::onReadReady` behind the parser, with both assertions of `write`.
  pub on_message : Channel → Daemon → Request → Result
  unfolding check_size
  on_message ch d req = check_size (on_read_ready ch d req)

  -- The packet that a receive finds in the queue makes a Response that does not fit.
  abbrev pub IsTooLarge : Channel → Calling → Type 0
  IsTooLarge ch (recvfrom_call require_addr) =
      (s : Socket) × (e : Endpoint) × (r : Received) × (ch.socket ≡ some s)
      × (try_take_from_recv_q s.endpoint ≡ some (e, r))
      × (rpc_message_max_size < B.byte_size (recvfrom_response require_addr r))
  IsTooLarge ch _ = ⊥

  -- An answer with few bytes fits.
  pub fits_message-small :
      (resp : Response)
      → length (buf_of resp.returning) + 128 ≤ rpc_message_max_size
      → fits_message resp ≡ true
  unfolding fits_message
  fits_message-small resp small = let over = B.overhead resp in ground arith

  pub on_message-checks :
      (ch : Channel) (d : Daemon) (req : Request) (r : Result)
      → on_read_ready ch d req ≡ r
      → on_message ch d req ≡ check_size r
  unfolding on_message
  on_message-checks ch d req r e = ap check_size e

  -- An answer passes the second assertion exactly when it fits.
  pub check_size-answers :
      (a : Answer) → check_size (answers a) ≡ (if fits_message a.response then answers a else fails)
  unfolding check_size
  check_size-answers a = refl

  pub check_size-fails : check_size fails ≡ fails
  unfolding check_size
  check_size-fails = refl

  -- An answer with few bytes passes.
  pub on_message-answers :
      (ch : Channel) (d : Daemon) (req : Request) (a : Answer)
      → on_read_ready ch d req ≡ answers a
      → length (buf_of a.response.returning) + 128 ≤ rpc_message_max_size
      → on_message ch d req ≡ answers a
  on_message-answers ch d req a e small =
      on_message-checks ch d req (answers a) e
      ∙ (check_size-answers a ∙ rw (fits_message-small a.response small) refl)

  check_size-answered : (r : Result) (a : Answer) → check_size r ≡ answers a → r ≡ answers a
  unfolding check_size
  check_size-answered fails a e = e
  check_size-answered (answers b) a e = elim (Bool-cases (fits_message b.response)) [
    | inl t ↦ (rw t at e)
    | inr n ↦ absurd (ne (rw n at e))
  ]
    where
      ne : fails ≡ answers a → ⊥
      ne q = cc

  -- What is answered has been answered without the second assertion.
  pub on_message-answered :
      (ch : Channel) (d : Daemon) (req : Request) (a : Answer)
      → on_message ch d req ≡ answers a
      → on_read_ready ch d req ≡ answers a
  unfolding on_message
  on_message-answered ch d req a e = check_size-answered (on_read_ready ch d req) a e
