-- ===== src/Interceptor/Calls.antt =====
-- src/interceptor/interceptor.c: the calls that take the place of the C library's, from `socket` to `fcntl`.
-- What a call of another descriptor does is the C library's, `passes`. The pointers to an address and its length
-- are taken to come together.
pub mod Sockets
pub mod Delivery
pub mod Sending
pub mod Exchanges
pub mod Names
pub mod Typed
use velox_project.Prelude.{
  ℕ, ◌+◌, Bool, true, false, not, ◌&&◌, ◌||◌, Option, none, some, List, [], ◌∷◌, ltb, ◌==◌,
  if◌then◌else◌, length,
}
use velox_project.Messages.{
  SockAddr, Calling, socket_call, connect_call, close_call, recvfrom_call, sendto_call,
  getpeername_call, getsockname_call, Response, Ret, ret, minus_one, Returning, socket_ret,
  connect_ret, close_ret, recvfrom_ret, sendto_ret, getpeername_ret, getsockname_ret, Result, fails,
  answers, Channel, af_inet, is_stream, is_dgram,
}
use velox_project.Pcb.{Daemon}
use velox_project.Rpc.Sizes.{Encoding, on_message}
use velox_project.Interceptor.Ends.{
  Asked, Outcome, aborts, after, answered, blocks, close_end, connect_end, enoprotoopt, fcntl_cmd,
  getpeername_end, getsockname_end, nothing, passes, peer_gone, recvfrom_end, returns, sendto_end,
  sets_errno, sizeof_sockaddr_in, so_error, socket_end, sol_socket, still_reads,
}
use velox_project.Interceptor.{
  FdPool, is_assigned_by_velox, fd_chanmap, socket_fd, close_fd, chan_recv,
}

-- `ask` sends on a channel of the table and reads the answer from it.
module _ (p : FdPool) (ask : Option ℕ → Calling → Asked) where
  abbrev pub asks : ℕ → Calling → (Returning → Outcome) → Outcome
  asks fd calling k = after (ask (fd_chanmap p fd) calling) λ resp. k resp.returning

  -- `socket`, with the pool that it leaves; `open_chan` returns `ch`.
  unfoldable pub socket : ℕ → ℕ → ℕ → FdPool × Outcome
  unfolding socket_fd after socket_end
  socket ch domain type =
      if (domain == af_inet) && (is_stream type || is_dgram type)
      then elim (socket_fd p ch) [
        | none ↦ (p, aborts)
        | some (p', connfd) ↦ (
          p',
          after (ask (some ch) (socket_call domain type)) λ resp. socket_end connfd resp.returning,
        )
      ]
      else (p, passes)

  unfoldable pub connect : ℕ → SockAddr → ℕ → Outcome
  unfolding after connect_end
  connect fd addr addrlen =
      if is_assigned_by_velox p fd
      then (if addrlen == sizeof_sockaddr_in
          then asks fd (connect_call addr) connect_end
          else aborts)
      else passes

  -- `close`, with the pool that it leaves.
  unfoldable pub close : ℕ → FdPool × Outcome
  unfolding close_end close_fd
  close fd =
      if is_assigned_by_velox p fd
      then elim (ask (fd_chanmap p fd) close_call) [
        | answered resp ↦ (close_fd p fd, close_end resp.returning)
        | still_reads ↦ (p, blocks)
        | peer_gone ↦ (p, aborts)
      ]
      else (p, passes)

  -- A buffer is `none` when it is the null pointer.
  unfoldable pub sendto : ℕ → Option (List ℕ) → Option (SockAddr × ℕ) → Outcome
  unfolding after sendto_end
  sendto fd none dest = if is_assigned_by_velox p fd then returns 0 nothing else passes
  sendto fd (some []) dest = if is_assigned_by_velox p fd then returns 0 nothing else passes
  sendto fd (some (b ∷ bs)) none =
      if is_assigned_by_velox p fd then asks fd (sendto_call (b ∷ bs) none) sendto_end else passes
  sendto fd (some (b ∷ bs)) (some (addr, addrlen)) =
      if is_assigned_by_velox p fd
      then (if addrlen == sizeof_sockaddr_in
          then asks fd (sendto_call (b ∷ bs) (some addr)) sendto_end
          else aborts)
      else passes

  -- The buffer as whether it is there, and its length; `src_addr` as whether it is there.
  unfoldable pub recvfrom : ℕ → Bool → ℕ → Bool → Outcome
  unfolding after recvfrom_end
  recvfrom fd buf len src_addr =
      if is_assigned_by_velox p fd
      then (if not buf || (len == 0)
          then returns 0 nothing
          else asks fd (recvfrom_call src_addr) (recvfrom_end len src_addr))
      else passes

  unfoldable pub read : ℕ → Bool → ℕ → Outcome
  unfolding recvfrom
  read fd buf count = if is_assigned_by_velox p fd then recvfrom fd buf count false else passes

  unfoldable pub recv : ℕ → Bool → ℕ → Outcome
  unfolding recvfrom
  recv fd buf len = if is_assigned_by_velox p fd then recvfrom fd buf len false else passes

  unfoldable pub write : ℕ → Option (List ℕ) → Outcome
  unfolding sendto
  write fd buf = if is_assigned_by_velox p fd then sendto fd buf none else passes

  unfoldable pub send : ℕ → Option (List ℕ) → Outcome
  unfolding sendto
  send fd buf = if is_assigned_by_velox p fd then sendto fd buf none else passes

  unfoldable pub getpeername : ℕ → Outcome
  unfolding after getpeername_end
  getpeername fd =
      if is_assigned_by_velox p fd then asks fd getpeername_call getpeername_end else passes

  unfoldable pub getsockname : ℕ → Outcome
  unfolding after getsockname_end
  getsockname fd =
      if is_assigned_by_velox p fd then asks fd getsockname_call getsockname_end else passes

  unfoldable pub setsockopt : ℕ → Outcome
  setsockopt fd = if is_assigned_by_velox p fd then returns 0 nothing else passes

  -- `optlen` is `none` when it or `optval` is the null pointer; an `int` takes 4 bytes.
  unfoldable pub getsockopt : ℕ → ℕ → ℕ → Option ℕ → Outcome
  getsockopt fd level optname optlen =
      if is_assigned_by_velox p fd
      then (if (level == sol_socket) && (optname == so_error)
          then returns 0 (record {
            buf = [];
            peer = none;
            optval = elim optlen [ none ↦ none | some n ↦ if ltb n 4 then none else some 0 ];
          })
          else sets_errno enoprotoopt)
      else passes

  unfoldable pub fcntl : ℕ → ℕ → Outcome
  unfolding fcntl_cmd
  fcntl fd cmd = if is_assigned_by_velox p fd then fcntl_cmd cmd else passes

-- The daemon at the other end of the channel, both assertions of its `write` included, and what it writes later on
-- its own account.
unfoldable pub received : Option (Response × List Response) → Asked
received none = still_reads
received (some (resp, rest)) = answered resp

unfoldable pub exchange : Encoding → Channel → Daemon → ℕ → List Response → Calling → Asked
unfolding received chan_recv
exchange B ch d pid later calling =
    elim (on_message B ch d (record { calling = calling; pid = pid })) [
      | fails ↦ peer_gone
      | answers a ↦ received (chan_recv (a.response ∷ later))
    ]
