-- ===== src/Interceptor/Start/Range.antt =====
-- src/interceptor/fdchanmap.c and fdpool.c over src/veloxd/arbiter/RpcDispatch.cpp: the range that a program starts with.
use velox_project.Prelude.{ℕ, ◌≡◌, ◌↔◌, ◌≤◌, ◌<◌, refl, ap, true, some, none, List, [], arith}
use velox_project.Messages.{atstart_action, atstart_ret, respond, ok, Channel, Answer, answers}
use velox_project.Pcb.{Daemon}
use velox_project.Rpc.{on_read_ready}
use velox_project.Rpc.Answers.{atstart_answers}
use velox_project.Interceptor.{FdPool, assign_range, is_assigned_by_velox}
use velox_project.Interceptor.Numbers.{FdEvent, opened, run_fds, run_fds-none_iff}
use velox_project.Interceptor.Ends.{answered}
use velox_project.Rpc.Sizes.{Encoding}
use velox_project.Interceptor.Calls.Exchanges.{exchange-answers}
use velox_project.Interceptor.Calls.{exchange, received}
use velox_project.Interceptor.Polling.{chan_recv_skips}
use velox_project.Interceptor.Start.{starts, ask_veloxd_fd_range, chanmap_init}

exchange_atstart :
    (B : Encoding) (ch : Channel) (d : Daemon) (pid : ℕ) (progname : List ℕ)
    → exchange B ch d pid [] (atstart_action progname)
      ≡ answered (respond ok (atstart_ret 4096 1024))
unfolding received
exchange_atstart B ch d pid progname =
    rw (exchange-answers B ch d pid [] _ _ (atstart_answers ch d pid progname) (omega arith))
      (ap received (chan_recv_skips [] (respond ok (atstart_ret 4096 1024)) [] tt refl))

range_iff :
    (fd : ℕ)
    → (is_assigned_by_velox (assign_range 4096 1024) fd ≡ true) ↔ ((4096 ≤ fd) × (fd < 5120))
unfolding is_assigned_by_velox assign_range
range_iff fd = ground arith

-- A program that starts while the daemon answers: the daemon stores its name and its number, and changes nothing else of
-- the channel; the program starts with the range from 4096 to 5119, and any history of opened and closed
-- sockets ends it by an assertion exactly when it opens more than 1024.
pub chanmap_init-starts :
    (B : Encoding) (ch : Channel) (d : Daemon) (pid chan : ℕ) (progname : List ℕ)
    (es : List FdEvent)
    → (p : FdPool) × (a : Answer) × (chanmap_init (exchange B ch d pid []) (some chan) progname
        ≡ starts p chan)
      × (on_read_ready ch d (record { calling = atstart_action progname; pid = pid }) ≡ answers a)
      × (a.channel ≡ record { peer_name = progname; peer_pid = pid; socket = ch.socket })
      × ((fd : ℕ) → (is_assigned_by_velox p fd ≡ true) ↔ ((4096 ≤ fd) × (fd < 5120)))
      × ((run_fds p es ≡ none) ↔ (1024 < opened es))
unfolding chanmap_init
chanmap_init-starts B ch d pid chan progname es = (
  assign_range 4096 1024,
  _,
  rw (exchange_atstart B ch d pid progname, ask_veloxd_fd_range) refl,
  atstart_answers ch d pid progname,
  refl,
  range_iff,
  run_fds-none_iff 4096 1024 es,
)
