-- ===== src/Messages.antt =====
-- src/rpc/proto/request.proto, response.proto, the channel of arbiter/agent/AgentChannel.h, and
-- what a handler of arbiter/RpcDispatch.cpp leaves. Numbers of 32 bits in an answer are written as
-- the code sets them; -1 is `minus_one`.
use velox_project.Prelude.{ℕ, ◌/◌, ◌%◌, Bool, Option, none, some, List, [], ◌∷◌, ◌++◌, ◌==◌}
use velox_project.Endpoint.{Endpoint}
use velox_project.Tcp.{Action}
use velox_project.Pcb.{Pcb, Daemon, Called}

-- `struct sockaddr_in` without its padding.
pub record SockAddr : Type 0 where
  pub family : ℕ
  pub addr : ℕ
  pub port : ℕ

-- request.proto, the `calling` of a Request. What the daemon does not read is left out.
pub data Calling : Type 0 where
  socket_call : ℕ → ℕ → Calling
  connect_call : SockAddr → Calling
  close_call : Calling
  recvfrom_call : Bool → Calling
  sendto_call : List ℕ → Option SockAddr → Calling
  poll_call select_call : Calling
  getpeername_call getsockname_call : Calling
  getsockopt_call setsockopt_call fcntl_call : Calling
  atstart_action : List ℕ → Calling
  calling_not_set : Calling

pub record Request : Type 0 where
  pub calling : Calling
  pub pid : ℕ

-- response.proto.
pub data RetCode : Type 0 where
  ok error wait_next : RetCode

pub data Ret : Type 0 where
  ret : ℕ → Ret
  minus_one : Ret

pub data Returning : Type 0 where
  not_set : Returning
  socket_ret : Ret → Returning
  connect_ret : Ret → Option ℕ → Returning
  close_ret : Ret → Returning
  recvfrom_ret : Ret → Option (List ℕ) → Option SockAddr → Returning
  sendto_ret : Ret → Returning
  getpeername_ret getsockname_ret : Ret → SockAddr → Returning
  getsockopt_ret fcntl_ret : Ret → Returning
  atstart_ret : ℕ → ℕ → Returning

pub record Response : Type 0 where
  pub ret_code : Option RetCode
  pub returning : Returning

-- `AgentChannel`: its peer, and the Endpoint with its session below.
pub record Socket : Type 0 where
  pub endpoint : Endpoint
  pub pcb : Pcb

pub record Channel : Type 0 where
  pub peer_name : List ℕ
  pub peer_pid : ℕ
  pub socket : Option Socket

pub record Answer : Type 0 where
  pub channel : Channel
  pub daemon : Daemon
  pub actions : List Action
  pub response : Response

pub data Result : Type 0 where
  fails : Result
  answers : Answer → Result

-- The empty Response, and one with its code and what it returns.
abbrev pub no_response : Response
no_response = record { ret_code = none; returning = not_set }

abbrev pub respond : RetCode → Returning → Response
respond c r = record { ret_code = some c; returning = r }

abbrev pub unchanged : Channel → Daemon → Response → Result
unchanged ch d resp = answers (record { channel = ch; daemon = d; actions = []; response = resp })

-- `drain_skbuf_chain`.
abbrev pub drain_skbuf_chain : List (List ℕ) → List ℕ
drain_skbuf_chain [] = []
drain_skbuf_chain (payload ∷ next) = payload ++ drain_skbuf_chain next

abbrev pub af_inet : ℕ
af_inet = 2

-- The bits of a socket's type.
abbrev pub is_stream : ℕ → Bool
is_stream type = type % 2 == 1

abbrev pub is_dgram : ℕ → Bool
is_dgram type = type / 2 % 2 == 1

abbrev pub is_nonblock : ℕ → Bool
is_nonblock type = type / 2048 % 2 == 1

abbrev pub einprogress : ℕ
einprogress = 115

abbrev pub eagain : ℕ
eagain = 11

-- A method of the pcb has been called: what it leaves.
abbrev pub after_call : Channel → Endpoint → Called → Response → Result
after_call ch e c resp = answers (record {
  channel = record ch { socket = some (record { endpoint = e; pcb = c.pcb }) };
  daemon = c.daemon;
  actions = c.actions;
  response = resp;
})
