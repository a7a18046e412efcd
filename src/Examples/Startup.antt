-- ===== src/Examples/Startup.antt =====
-- The start of the daemon and of a program at concrete options, for src/veloxd/Veloxd.cpp and Logging.cpp, and for
-- src/interceptor/fdchanmap.c and req-resp-channel.c.
use velox_project.Prelude.{
  ℕ, ◌≡◌, ◌≢◌, ◌↔◌, ◌⊎◌, ◌≤◌, ◌<◌, refl, true, false, Option, none, some, List, [], ◌∷◌, ◌++◌, All,
  length, take, replicate, codes, arith, ◌-◌, ◌==◌, if◌then◌else◌,
}
use velox_project.Startup.{
  Options, Kernel, Severity, Process, goes_on, crashes, warning, severity_of, main,
}
use velox_project.Startup.Outcomes.{level_of, requested_name, IsUsual, Serves}
use velox_project.Startup.Endings.{main-crashes_iff, main-goes_on_iff, main-runs}
use velox_project.Logging.{decimal, space, is_separator, path_to_filename, file_lineno_with_padding}
use velox_project.Logging.Paths.{IsPlain, path_to_filename_lem}
use velox_project.Logging.Padding.{file_lineno_with_padding_lem, file_lineno_with_padding-none_iff}
use velox_project.Messages.{
  Answer, answers, atstart_action, Response, respond, ok, wait_next, not_set,
}
use velox_project.Rpc.{on_read_ready}
use velox_project.Interceptor.{FdPool, is_assigned_by_velox}
use velox_project.Interceptor.Numbers.{opens, closes, opened, run_fds}
use velox_project.Interceptor.Calls.{exchange}
use velox_project.Interceptor.Start.{starts, chanmap_init, chan_recv_reads, received}
use velox_project.Interceptor.Start.Range.{chanmap_init-starts}
use velox_project.Interceptor.Start.Reading.{ReadsTo, chan_recv_reads-ReadsTo}
use velox_project.Examples.Daemon.{daemon, encoding}
use velox_project.Examples.Delivery.{udp_channel}

abbrev options : Options
options = record {
  help = false;
  version = false;
  logging_level = some (codes "warning");
  logging_to_stdout = true;
  tundev_name = none;
  tundev_addr = none;
  stack_address = none;
}

abbrev kernel : Kernel
kernel = record {
  open_clonedev = some 3;
  tunsetiff = λ name. some (codes "tun0");
  listenfd = 5;
  bind = true;
  listen = true;
}

warned : severity_of (codes "warning") ≡ some warning
unfolding severity_of
warned = refl

main-runs_example :
    (p : Process) × (main kernel (some options) ≡ goes_on p)
    × (p.commands
        ≡ codes "ip link set dev tun0 up"
          ∷ codes "ip addr add dev tun0 local 192.168.168.8/24"
          ∷ [])
    × (p.severity ≡ some warning)
    × (p.tun_fd ≡ some 3)
    × (p.hub_fd ≡ some 5)
    × (p.running ≡ true)
    × (p.threads ≡ 3)
    × (p.interface_stopflag ≡ false)
    × (p.ip_stopflag ≡ false)
    × (p.loop_stopflag ≡ false)
main-runs_example =
    main-runs kernel options warning 3 (codes "tun0") (refl, refl) warned
      (refl, refl, refl, refl, refl) (omega arith) (omega arith)

main-goes_on_iff_example : ((p : Process) × (main kernel (some options) ≡ goes_on p)) ↔ (
    (o : Options) × (l : Severity) × (fd : ℕ) × (ifr_name : List ℕ) × (some options ≡ some o)
    × IsUsual o
    × (severity_of (level_of o) ≡ some l)
    × Serves kernel (requested_name o) fd ifr_name)
main-goes_on_iff_example = main-goes_on_iff kernel (some options)

abbrev named_options : Options
named_options = record options { tundev_name = some (codes "velox0") }

main-crashes_iff_example : (main kernel (some named_options) ≡ crashes) ↔ (
    (o : Options) × (l : Severity) × (fd : ℕ) × (some named_options ≡ some o)
    × IsUsual o
    × (severity_of (level_of o) ≡ some l)
    × (requested_name o ≢ [])
    × (kernel.open_clonedev ≡ some fd))
main-crashes_iff_example = main-crashes_iff kernel (some named_options)

-- The daemon crashes when its device is named.
named_device : main kernel (some named_options) ≡ crashes
named_device =
    (main-crashes_iff kernel (some named_options)).1
      (named_options, warning, 3, refl, (refl, refl), warned, (λ e. cc), refl)

file_name_found :
    All IsPlain (path_to_filename (codes "src/ip/Ip.cpp"))
    × ((path_to_filename (codes "src/ip/Ip.cpp") ≡ codes "src/ip/Ip.cpp")
        ⊎ ((dir : List ℕ) × (c : ℕ) × (is_separator c ≡ true)
            × (codes "src/ip/Ip.cpp"
                ≡ (dir ++ (c ∷ [])) ++ path_to_filename (codes "src/ip/Ip.cpp"))))
file_name_found = path_to_filename_lem (codes "src/ip/Ip.cpp")

line_place :
    let text = take 18 (codes "Ip.cpp") ++ (b':' ∷ decimal 131) in
    file_lineno_with_padding 7 (codes "Ip.cpp") 131
    ≡ some (text ++ replicate (17 - length text) space)
line_place = file_lineno_with_padding_lem 7 (codes "Ip.cpp") 131 (omega arith)

file_lineno_with_padding-none_iff_example :
    (file_lineno_with_padding 7 (codes "InterceptorChannel.cpp") 12345 ≡ none) ↔ (10000 ≤ 12345)
file_lineno_with_padding-none_iff_example =
    file_lineno_with_padding-none_iff 7 (codes "InterceptorChannel.cpp") 12345 (omega arith)

usual_line : file_lineno_with_padding 7 (codes "Ip.cpp") 131 ≡ some (codes "Ip.cpp:131       ")
unfolding file_lineno_with_padding
usual_line = refl

-- A line number of five digits behind a short name loses its last one to the NUL.
long_line :
    file_lineno_with_padding 7 (codes "Ip.cpp") 12345
    ≡ some (codes "Ip.cpp:1234" ++ (0 ∷ codes "     "))
unfolding file_lineno_with_padding
long_line = refl

chanmap_init-starts_example :
    (p : FdPool) × (a : Answer) × (chanmap_init
        (exchange encoding udp_channel daemon 5 [])
        (some 7)
        (codes "echo")
      ≡ starts p 7)
    × (on_read_ready udp_channel daemon
          (record { calling = atstart_action (codes "echo"); pid = 5 })
        ≡ answers a)
    × (a.channel ≡ record { peer_name = codes "echo"; peer_pid = 5; socket = udp_channel.socket })
    × ((fd : ℕ) → (is_assigned_by_velox p fd ≡ true) ↔ ((4096 ≤ fd) × (fd < 5120)))
    × ((run_fds p (opens 8 ∷ closes 4096 ∷ []) ≡ none)
        ↔ (1024 < opened (opens 8 ∷ closes 4096 ∷ [])))
chanmap_init-starts_example =
    chanmap_init-starts encoding udp_channel daemon 5 7 (codes "echo") (opens 8 ∷ closes 4096 ∷ [])

-- Messages of one byte: 1 is WAIT_NEXT, and 2 has the code OK.
abbrev unpack : List ℕ → Option Response
unpack [] = none
unpack (b ∷ bs) = some (if b == 1 then respond wait_next not_set else respond ok not_set)

abbrev reads : List (Option (List ℕ))
reads = none ∷ some (1 ∷ []) ∷ none ∷ some (2 ∷ []) ∷ some (2 ∷ []) ∷ []

-- The second message has the code OK.
chan_recv_reads-ReadsTo_example : ReadsTo unpack reads (chan_recv_reads unpack reads)
chan_recv_reads-ReadsTo_example = chan_recv_reads-ReadsTo unpack reads

first_ok : chan_recv_reads unpack reads ≡ received (respond ok not_set) (some (2 ∷ []) ∷ [])
unfolding chan_recv_reads
first_ok = refl
