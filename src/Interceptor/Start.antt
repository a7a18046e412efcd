-- ===== src/Interceptor/Start.antt =====
-- src/interceptor: the start of a program in fdchanmap.c and fdpool.c, and `open_chan` and `chan_recv` of
-- req-resp-channel.c over what the C library's `read` returns.
pub mod Range
pub mod Reading
use velox_project.Prelude.{
  ℕ, Bool, true, false, ◌||◌, Option, none, some, List, [], ◌∷◌, ◌==◌, if◌then◌else◌,
}
use velox_project.Messages.{Calling, atstart_action, Response, Returning, atstart_ret}
use velox_project.Interceptor.{FdPool, assign_range, is_wait_next}
use velox_project.Interceptor.Ends.{Asked, answered, still_reads, peer_gone}

-- How `chan_recv` ends: with a response and what is left to be read, still reading, in the assertion for
-- the end of file, or at the null pointer that an unreadable message gives.
pub data Read : Type 0 where
  received : Response → List (Option (List ℕ)) → Read
  waits asserts null_pointer : Read

module _ (unpack : List ℕ → Option Response) where
  -- `chan_recv`. A `read` that returns -1 is `none`: whatever `errno` is, `WHILE_EINTR` reads again.
  unfoldable pub chan_recv_reads : List (Option (List ℕ)) → Read
  chan_recv_reads [] = waits
  chan_recv_reads (none ∷ reads) = chan_recv_reads reads
  chan_recv_reads (some [] ∷ reads) = asserts
  chan_recv_reads (some (b ∷ bs) ∷ reads) = elim (unpack (b ∷ bs)) [
    | none ↦ null_pointer
    | some resp ↦ if is_wait_next resp then chan_recv_reads reads else received resp reads
  ]

-- How the start of a program ends. `starts` has the channel of the process.
pub data Started : Type 0 where
  starts : FdPool → ℕ → Started
  exits start_waits start_aborts : Started

-- `ask_veloxd_fd_range` behind its answer, whose `atstartaction` is read; a null pointer is an abort.
pub process_response : ℕ → Returning → Started
process_response chan (atstart_ret startfd count) =
    if (startfd == 0) || (count == 0)
    then start_aborts
    else starts (assign_range startfd count) chan
process_response chan _ = start_aborts

unfoldable pub ask_veloxd_fd_range : (Calling → Asked) → ℕ → List ℕ → Started
unfolding process_response
ask_veloxd_fd_range ask chan progname = elim (ask (atstart_action progname)) [
  | answered resp ↦ process_response chan resp.returning
  | still_reads ↦ start_waits
  | peer_gone ↦ start_aborts
]

-- `chanmap_init`, for `__libc_start_main`: `open_chan` gives a channel, or ends the program.
unfoldable pub chanmap_init : (Calling → Asked) → Option ℕ → List ℕ → Started
unfolding ask_veloxd_fd_range
chanmap_init ask none progname = exits
chanmap_init ask (some chan) progname = ask_veloxd_fd_range ask chan progname
