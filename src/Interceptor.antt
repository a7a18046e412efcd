-- ===== src/Interceptor.antt =====
-- src/interceptor: fdpool.c, fdchanmap.c, `chan_recv` of req-resp-channel.c, and `poll` of
-- interceptor.c; Interceptor/Selecting has its `select`, Interceptor/Calls its other calls. Descriptors are the numbers
-- that are not negative; a channel is the descriptor of its UNIX socket, 0 for none. The C library's `poll` is a
-- parameter.
pub mod Numbers
pub mod Polling
pub mod Start
pub mod Selecting
pub mod Ends
pub mod Calls
use velox_project.Prelude.{
  ℕ, suc, ◌+◌, ◌-◌, Bool, true, false, not, ◌&&◌, Option, none, some, List, [], ◌∷◌, map, ltb, leb,
  ◌==◌, if◌then◌else◌, bit_and, length, get_elem?, set, replicate, count_if,
}
use velox_project.Messages.{Response, RetCode, wait_next}

-- `g_startfd`, `g_fd_count`, `g_chan_table`. `next_fd` is one more than `last_fd_assigned`, which
-- starts out one below `g_startfd`.
pub record FdPool : Type 0 where
  pub start_fd : ℕ
  pub fd_count : ℕ
  pub next_fd : ℕ
  pub chan_table : List ℕ

-- The end of `ask_veloxd_fd_range`, with `reserve_fd_range`.
unfoldable pub assign_range : ℕ → ℕ → FdPool
assign_range startfd count = record {
  start_fd = startfd;
  fd_count = count;
  next_fd = startfd;
  chan_table = replicate count 0;
}

unfoldable pub is_assigned_by_velox : FdPool → ℕ → Bool
is_assigned_by_velox p fd = leb p.start_fd fd && ltb fd (p.start_fd + p.fd_count)

-- `none` is the failed assertion.
unfoldable pub next_avail_fd : FdPool → Option (FdPool × ℕ)
next_avail_fd p =
    if ltb p.next_fd (p.start_fd + p.fd_count)
    then some (record p { next_fd = p.next_fd + 1 }, p.next_fd)
    else none

-- `none` is a read outside the table.
pub fd_chanmap : FdPool → ℕ → Option ℕ
fd_chanmap p fd =
    if is_assigned_by_velox p fd then get_elem? p.chan_table (fd - p.start_fd) else none

-- Called for descriptors of the range only.
unfoldable pub set_fd_chanmap : FdPool → ℕ → ℕ → FdPool
set_fd_chanmap p fd ch = record p { chan_table = set p.chan_table (fd - p.start_fd) ch }

pub unset_fd_chanmap : FdPool → ℕ → FdPool
unfolding set_fd_chanmap
unset_fd_chanmap p fd = set_fd_chanmap p fd 0

-- The part of `socket` that changes the pool: `ch` is what `open_chan` returned.
unfoldable pub socket_fd : FdPool → ℕ → Option (FdPool × ℕ)
unfolding next_avail_fd
socket_fd p ch = elim (next_avail_fd p) [
  | none ↦ none
  | some (p', fd) ↦ some (set_fd_chanmap p' fd ch, fd)
]

-- That of `close`: another descriptor is the C library's.
pub close_fd : FdPool → ℕ → FdPool
unfolding unset_fd_chanmap
close_fd p fd = if is_assigned_by_velox p fd then unset_fd_chanmap p fd else p

-- `chan_recv` over the answers that arrive on the channel: the first that is not WAIT_NEXT, and
-- those behind it; `none` is that it still reads.
abbrev pub is_wait_next : Response → Bool
is_wait_next resp = elim resp.ret_code [
  | none ↦ false
  | some c ↦ elim c [ wait_next ↦ true | _ ↦ false ]
]

pub chan_recv : List Response → Option (Response × List Response)
chan_recv [] = none
chan_recv (resp ∷ rest) =
    let later = chan_recv rest in if is_wait_next resp then later else some (resp, rest)

pub record PollFd : Type 0 where
  pub fd : ℕ
  pub events : ℕ
  pub revents : ℕ

-- `POLLIN | POLLOUT | POLLHUP`.
abbrev pub reported : ℕ
reported = 21

-- The result of a `poll`: the entries, and the number; `none` is -1.
pub record Polled : Type 0 where
  pub fds : List PollFd
  pub ret : Option ℕ

module _ (p : FdPool) where
  -- The first loop: `revents` is cleared, and the entries of other descriptors are collected.
  unfoldable pub clear : List PollFd → List PollFd
  clear fds = map (λ (f : PollFd). record f { revents = 0 }) fds

  unfoldable pub non_velox : List PollFd → List PollFd
  non_velox [] = []
  non_velox (f ∷ fds) =
      let rest = non_velox fds in if is_assigned_by_velox p f.fd then rest else f ∷ rest

  -- `fds[nv_idx[i]].revents = non_velox[i].revents`.
  pub give_back : List PollFd → List PollFd → List PollFd
  give_back [] results = []
  give_back (f ∷ fds) [] = f ∷ fds
  give_back (f ∷ fds) (r ∷ results) =
      if is_assigned_by_velox p f.fd
      then f ∷ give_back fds (r ∷ results)
      else record f { revents = r.revents } ∷ give_back fds results

  -- The last loop.
  pub mark_ready : PollFd → PollFd
  mark_ready f =
      if is_assigned_by_velox p f.fd then record f { revents = bit_and f.events reported } else f

  abbrev pub is_ready : PollFd → Bool
  is_ready f = not (f.revents == 0)

  -- The results of the C library count when there are any.
  pub kernel_fds : List PollFd → Polled → List PollFd
  unfolding give_back
  kernel_fds fds k = elim k.ret [
    | none ↦ fds
    | some r ↦ if ltb 0 r then give_back fds k.fds else fds
  ]

  pub kernel_ready : Polled → ℕ
  kernel_ready k = elim k.ret [ none ↦ 0 | some r ↦ if ltb 0 r then count_if is_ready k.fds else 0 ]

  -- `poll`; `glibc_poll` gets the entries and the timeout.
  pub poll : (List PollFd → ℕ → Polled) → List PollFd → ℕ → Polled
  unfolding clear non_velox kernel_fds kernel_ready mark_ready
  poll glibc_poll fds timeout =
      let fds' = clear fds in
      let nv = non_velox fds' in
      if length nv == length fds
      then glibc_poll fds' timeout
      else (let k = glibc_poll nv 0 in
          let asked = ltb 0 (length nv) in
          let shown = if asked then kernel_fds fds' k else fds' in
          record {
            fds = map mark_ready shown;
            ret = some (
                (if asked then kernel_ready k else 0)
                + count_if (λ f. is_assigned_by_velox p f.fd && is_ready f) (map mark_ready shown));
          })
