-- ===== src/Examples/Wrappers.antt =====
-- Concrete calls of the interceptor, for src/interceptor's fdpool.c, fdchanmap.c, req-resp-channel.c and
-- interceptor.c.
use mathlib.Core.Option
use velox_project.Prelude.{
  ℕ, ◌+◌, ◌≤◌, ◌⊎◌, ◌<◌, ◌≡◌, ◌≢◌, ◌↔◌, refl, ap, true, ltb, if◌then◌else◌, Option, none, some,
  List, [], ◌∷◌, arith, All, length, suc, count_if,
}
use velox_project.Messages.{
  Calling, sendto_ret, Response, respond, wait_next, ok, not_set, recvfrom_ret, ret,
}
use velox_project.Rpc.Sizes.{rpc_message_max_size}
use velox_project.Interceptor.Ends.{Asked, answered, aborts}
use velox_project.Interceptor.Calls.{sendto}
use velox_project.Interceptor.Calls.Sending.{Packing, request_bytes, sends, sendto-sends}
use velox_project.Interceptor.{
  FdPool, assign_range, is_assigned_by_velox, next_avail_fd, fd_chanmap, set_fd_chanmap, socket_fd,
  chan_recv, PollFd, Polled, clear, non_velox, is_ready, poll,
}
use velox_project.Interceptor.Numbers.{
  FdEvent, opens, closes, opened, run_fds, run_fds-none_iff, IsPool, socket_fd-fd_chanmap,
}
use velox_project.Interceptor.Selecting.{
  FdSet, Given, Selected, readfds, writefds, exceptfds, fd_zero, fd_set, fd_setsize, in_any, saved,
  select,
}
use velox_project.Interceptor.Selecting.Shown.{SelectShows, select-shows, select-past_sets}
use velox_project.Interceptor.Polling.{chan_recv_skips, IsShown, poll-ret}

-- A range of one number, which is closed before it is asked for again.
abbrev history : List FdEvent
history = opens 5 ∷ closes 4096 ∷ opens 6 ∷ []

numbers_spent : (run_fds (assign_range 4096 1) history ≡ none) ↔ (1 < opened history)
numbers_spent = run_fds-none_iff 4096 1 history

abbrev pool : FdPool
pool = record { start_fd = 4096; fd_count = 2; next_fd = 4097; chan_table = 5 ∷ 0 ∷ [] }

abbrev next_pool : FdPool
next_pool = record { start_fd = 4096; fd_count = 2; next_fd = 4098; chan_table = 5 ∷ 6 ∷ [] }

opens_next : socket_fd pool 6 ≡ some (next_pool, 4097)
unfolding socket_fd next_avail_fd set_fd_chanmap
opens_next = refl

opened_is_mapped :
    (4097 ≡ pool.next_fd)
    × IsPool next_pool
    × (fd_chanmap next_pool 4097 ≡ some 6)
    × ((g : ℕ) → g ≢ 4097 → fd_chanmap next_pool g ≡ fd_chanmap pool g)
opened_is_mapped =
    socket_fd-fd_chanmap pool next_pool 6 4097 (record { table_fits = refl; starts = omega arith })
      opens_next

abbrev waits : Response
waits = respond wait_next not_set

abbrev answer : Response
answer = respond ok (recvfrom_ret (ret 1) (some (7 ∷ [])) none)

waits_skipped : chan_recv (waits ∷ waits ∷ answer ∷ []) ≡ some (answer, [])
waits_skipped = chan_recv_skips (waits ∷ waits ∷ []) answer [] (refl, (refl, tt)) refl

-- A C library that reports every entry as readable.
abbrev all_readable : List PollFd → List PollFd
all_readable [] = []
all_readable (f ∷ fds) = record f { revents = 1 } ∷ all_readable fds

abbrev glibc_poll : List PollFd → ℕ → Polled
glibc_poll fds timeout = record { fds = all_readable fds; ret = some (length fds) }

length-all_readable : (fds : List PollFd) → length (all_readable fds) ≡ length fds
length-all_readable [] = refl
length-all_readable (f ∷ fds) = ap suc (length-all_readable fds)

-- One of Velox, to be written, and one of the C library.
abbrev entries : List PollFd
entries =
    record { fd = 4096; events = 4; revents = 9 } ∷ record { fd = 3; events = 1; revents = 0 } ∷ []

entries_mixed : length (non_velox pool (clear pool entries)) ≢ length entries
unfolding non_velox clear is_assigned_by_velox
entries_mixed e = cc

poll_counts :
    let result = poll pool glibc_poll entries 1000 in
    (result.ret ≡ some (count_if (is_ready pool) result.fds)) × All (IsShown pool) result.fds
poll_counts = poll-ret pool glibc_poll (λ fs t. length-all_readable fs) entries 1000 entries_mixed

-- A range that starts at 4, descriptors 3 and 4 to be read, 4 to be written, and a C library that reports all as ready.
abbrev low_pool : FdPool
low_pool = record { start_fd = 4; fd_count = 2; next_fd = 5; chan_table = 5 ∷ 0 ∷ [] }

abbrev to_read : FdSet
to_read = fd_set 3 (fd_set 4 fd_zero)

abbrev given : Given
given readfds = some to_read
given writefds = some (fd_set 4 fd_zero)
given exceptfds = none

abbrev glibc_select : ℕ → Given → Option ℕ → Selected
glibc_select n sets timeout = record { sets = sets; ret = some 1 }

assigned_low : is_assigned_by_velox low_pool 4 ≡ true
unfolding is_assigned_by_velox
assigned_low = refl

asked_low : in_any (saved given) 4 ≡ true
unfolding saved
asked_low = refl

select-shows_example : SelectShows low_pool glibc_select 6 given none readfds to_read
select-shows_example =
    select-shows low_pool glibc_select 6 given none 4 readfds to_read (omega arith) (omega arith)
      assigned_low asked_low refl

-- Descriptor 4 is in two sets and counts once.
two_ready :
    Option.map (λ (r : Selected). r.ret) (select low_pool glibc_select 6 given none) ≡ some (some 2)
unfolding select is_assigned_by_velox
two_ready = refl

select-past_sets_example :
    select pool glibc_select 4098 given none
    ≡ (if ltb fd_setsize 4098 then none else some (glibc_select 4098 given none))
select-past_sets_example = select-past_sets pool glibc_select 4098 given none (omega arith)

-- A `sendto` of three bytes through `chan_send`, on a channel that takes what it is given, to a daemon that
-- answers with their number.
abbrev packing : Packing
packing = record {
  packed_size = λ req. length (request_bytes req.calling) + 100;
  carries = λ req. omega arith;
  overhead = λ req. omega arith;
}

abbrev one_fd : FdPool
one_fd = record { start_fd = 4096; fd_count = 1; next_fd = 4097; chan_table = 5 ∷ [] }

abbrev counts : Option ℕ → Calling → Asked
counts ch calling = answered (respond ok (sendto_ret (ret 3)))

one_fd_assigned : is_assigned_by_velox one_fd 4096 ≡ true
unfolding is_assigned_by_velox
one_fd_assigned = refl

abbrev three : List ℕ
three = 1 ∷ 2 ∷ 3 ∷ []

sendto-sends_example :
    ((sendto one_fd (sends packing (λ n. some n) 4 counts) 4096 (some three) none
        ≡ sendto one_fd counts 4096 (some three) none)
      × (length three ≤ rpc_message_max_size))
    ⊎ ((sendto one_fd (sends packing (λ n. some n) 4 counts) 4096 (some three) none ≡ aborts)
        × (rpc_message_max_size < length three + 128))
sendto-sends_example =
    sendto-sends packing (λ n. some n) one_fd counts 4 4096 1 (2 ∷ 3 ∷ []) none one_fd_assigned
      (λ n. refl)
