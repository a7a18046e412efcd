-- ===== src/Interceptor/Ends.antt =====
-- src/interceptor/interceptor.c, the ends of the calls behind `chan_recv`: what each makes of its answer, and what
-- `fcntl` returns.
use velox_project.Prelude.{
  ℕ, Bool, ◌||◌, Option, none, some, List, [], ltb, ◌==◌, if◌then◌else◌, length,
}
use velox_project.Messages.{
  SockAddr, Response, Ret, ret, minus_one, Returning, socket_ret, connect_ret, close_ret,
  recvfrom_ret, sendto_ret, getpeername_ret, getsockname_ret,
}

-- What `chan_send` and `chan_recv` come to: an answer, no answer yet, or a failed assertion, as that of
-- `chan_recv` at the end of file.
pub data Asked : Type 0 where
  answered : Response → Asked
  still_reads : Asked
  peer_gone : Asked

-- What a call writes through its pointers: the buffer, the peer's address, an option's value.
pub record Written : Type 0 where
  pub buf : List ℕ
  pub peer : Option SockAddr
  pub optval : Option ℕ

abbrev pub nothing : Written
nothing = record { buf = []; peer = none; optval = none }

-- How a call ends: the C library's, or it still waits, or fails an assertion, or writes behind the caller's
-- buffer, or returns a number, or returns -1 with `errno`.
pub data Outcome : Type 0 where
  passes blocks aborts overruns : Outcome
  returns : ℕ → Written → Outcome
  sets_errno : ℕ → Outcome

-- `INTERCEPTOR_RETURN__RET_AND_ERRNO`.
unfoldable pub return_ret_and_errno : Ret → Option ℕ → Written → Outcome
return_ret_and_errno (ret n) errno w = returns n w
return_ret_and_errno minus_one none w = aborts
return_ret_and_errno minus_one (some e) w = sets_errno e

unfoldable pub after : Asked → (Response → Outcome) → Outcome
after (answered resp) k = k resp
after still_reads k = blocks
after peer_gone k = aborts

-- The ends of the calls: `returning_case` is asserted.
unfoldable pub connect_end : Returning → Outcome
unfolding return_ret_and_errno
connect_end (connect_ret r errno) = return_ret_and_errno r errno nothing
connect_end _ = aborts

unfoldable pub close_end : Returning → Outcome
unfolding return_ret_and_errno
close_end (close_ret r) = return_ret_and_errno r none nothing
close_end _ = aborts

unfoldable pub sendto_end : Returning → Outcome
unfolding return_ret_and_errno
sendto_end (sendto_ret r) = return_ret_and_errno r none nothing
sendto_end _ = aborts

unfoldable pub socket_end : ℕ → Returning → Outcome
socket_end connfd (socket_ret (ret n)) = returns connfd nothing
socket_end connfd (socket_ret minus_one) = aborts
socket_end connfd _ = aborts

-- An answer's `buf` is copied whole; one that is not set has the length 0.
abbrev pub copied : Option (List ℕ) → List ℕ
copied none = []
copied (some buf) = buf

unfoldable pub recvfrom_ret_end : ℕ → Bool → ℕ → List ℕ → Option SockAddr → Outcome
recvfrom_ret_end len src_addr n buf addr =
    if ltb 0 n
    then (if ltb len (length buf)
        then overruns
        else returns n
            (record { buf = buf; peer = if src_addr then addr else none; optval = none }))
    else returns n nothing

unfoldable pub recvfrom_end : ℕ → Bool → Returning → Outcome
unfolding recvfrom_ret_end
recvfrom_end len src_addr (recvfrom_ret (ret n) buf addr) =
    recvfrom_ret_end len src_addr n (copied buf) addr
recvfrom_end len src_addr (recvfrom_ret minus_one buf addr) = aborts
recvfrom_end len src_addr _ = aborts

unfoldable pub name_written : SockAddr → Written
name_written a = record { buf = []; peer = some a; optval = none }

unfoldable pub getpeername_end : Returning → Outcome
unfolding return_ret_and_errno name_written
getpeername_end (getpeername_ret r peername) = return_ret_and_errno r none (name_written peername)
getpeername_end _ = aborts

unfoldable pub getsockname_end : Returning → Outcome
unfolding return_ret_and_errno name_written
getsockname_end (getsockname_ret r sockname) = return_ret_and_errno r none (name_written sockname)
getsockname_end _ = aborts

abbrev pub sizeof_sockaddr_in : ℕ
sizeof_sockaddr_in = 16

abbrev pub sol_socket : ℕ
sol_socket = 1

abbrev pub so_error : ℕ
so_error = 4

abbrev pub enoprotoopt : ℕ
enoprotoopt = 92

abbrev pub einval : ℕ
einval = 22

-- `F_GETFD` to `F_SETFL` are 1 to 4, and `O_RDWR` is 2.
unfoldable pub fcntl_cmd : ℕ → Outcome
fcntl_cmd cmd =
    if (cmd == 1) || (cmd == 2)
    then returns 0 nothing
    else if cmd == 3
    then returns 2 nothing
    else if cmd == 4
    then returns 0 nothing
    else sets_errno einval
