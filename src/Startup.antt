-- ===== src/Startup.antt =====
-- src/veloxd/Veloxd.cpp, CfgParser.cpp, Conf.h, the level of Logging.cpp, base/ShellOp.cpp, and what TunIface.cpp, agent/AgentHub.cpp and
-- Arbiter.cpp do before the threads run: the start of the daemon. A part of the start goes on, ends the
-- program, or crashes it. Texts are lists of bytes. What the kernel answers is a parameter; the sinks of the log open.
pub mod Endings
pub mod Outcomes
use velox_project.Prelude.{
  ℕ, ◌≡◌, Bool, true, false, Option, none, some, List, [], ◌∷◌, ◌++◌, take, codes, ◌==◌,
  if◌then◌else◌,
}

-- `Conf`: the members that are read.
pub record Conf : Type 0 where
  pub level : List ℕ
  pub to_stdout : Bool
  pub name : List ℕ
  pub addr_cidr : List ℕ
  pub stack_addr : List ℕ

abbrev pub defaults : Conf
defaults = record {
  level = codes "debug";
  to_stdout = false;
  name = [];
  addr_cidr = codes "192.168.168.8/24";
  stack_addr = codes "192.168.168.10";
}

-- The `variables_map` that the library makes of the command line. `--verbose`, `--config` and `--logging-dir` are
-- accepted and not read.
pub record Options : Type 0 where
  pub help : Bool
  pub version : Bool
  pub logging_level : Option (List ℕ)
  pub logging_to_stdout : Bool
  pub tundev_name : Option (List ℕ)
  pub tundev_addr : Option (List ℕ)
  pub stack_address : Option (List ℕ)

-- What the kernel answers: the descriptor of the TUN device, the name that TUNSETIFF gives for a requested
-- one, the descriptor of the listening socket, and whether `bind` and `listen` succeed.
pub record Kernel : Type 0 where
  pub open_clonedev : Option ℕ
  pub tunsetiff : List ℕ → Option (List ℕ)
  pub listenfd : ℕ
  pub bind : Bool
  pub listen : Bool

pub data Severity : Type 0 where
  debug info warning error fatal : Severity

pub data ExitStatus : Type 0 where
  success failure : ExitStatus

-- The process: the singletons' members, and the commands that it has run. `severity` is set by `LoggingInitializer`;
-- the threads are the receiving loops of the interface and of the IP layer and the event loop.
pub record Process : Type 0 where
  pub conf : Conf
  pub severity : Option Severity
  pub commands : List (List ℕ)
  pub devname : Option (List ℕ)
  pub tun_fd : Option ℕ
  pub hub_fd : Option ℕ
  pub running : Bool
  pub interface_stopflag : Bool
  pub ip_stopflag : Bool
  pub loop_stopflag : Bool
  pub threads : ℕ

abbrev pub initial : Process
initial = record {
  conf = defaults;
  severity = none;
  commands = [];
  devname = none;
  tun_fd = none;
  hub_fd = none;
  running = false;
  interface_stopflag = false;
  ip_stopflag = false;
  loop_stopflag = false;
  threads = 0;
}

pub data Outcome : Type 0 where
  goes_on : Process → Outcome
  exits : ExitStatus → Process → Outcome
  crashes : Outcome

infixl 5 ◌>>◌
abbrev pub followed_by : Outcome → (Process → Outcome) → Outcome
followed_by (goes_on p) k = k p
followed_by (exits e p) k = exits e p
followed_by crashes k = crashes

abbrev pub ◌>>◌ : (Process → Outcome) → (Process → Outcome) → Process → Outcome
◌>>◌ m k p = followed_by (m p) k

-- `Veloxd::stop`.
unfoldable pub stop : Process → Process
stop p = record p {
  interface_stopflag = true;
  ip_stopflag = true;
  loop_stopflag = true;
  running = false;
}

-- `Veloxd::exit`.
unfoldable pub exit : ExitStatus → Process → Outcome
unfolding stop
exit e p = exits e (if p.running then stop p else p)

-- `stop` and `exit`, behind a fatal message.
unfoldable pub gives_up : Process → Outcome
unfolding stop exit
gives_up p = exit failure (stop p)

abbrev pub or_kept : Option (List ℕ) → List ℕ → List ℕ
or_kept none kept = kept
or_kept (some value) kept = value

-- `CfgParser::readCmdLine` behind the library's parser, and the handler of `readConf`: `none` is a parse error.
unfoldable pub read_conf : Option Options → Process → Outcome
unfolding exit
read_conf none p = exit failure p
read_conf (some o) p =
    if o.help
    then exit success p
    else if o.version
    then exit success p
    else (let c = p.conf in
        goes_on (record p {
          conf = record {
            level = or_kept o.logging_level c.level;
            to_stdout = if o.logging_to_stdout then true else c.to_stdout;
            name = or_kept o.tundev_name c.name;
            addr_cidr = or_kept o.tundev_addr c.addr_cidr;
            stack_addr = or_kept o.stack_address c.stack_addr;
          };
        }))

-- The switch of `LoggingInitializer::run` over the first byte, which is 0 in an empty text; `none` is the exception.
unfoldable pub severity_of : List ℕ → Option Severity
severity_of [] = none
severity_of (c ∷ rest) =
    if c == b'd'
    then some debug
    else if c == b'i'
    then some info
    else if c == b'w'
    then some warning
    else if c == b'e'
    then some error
    else if c == b'f'
    then some fatal
    else none

-- `Veloxd::initLogging`.
unfoldable pub init_logging : Process → Outcome
unfolding severity_of exit
init_logging p = elim (severity_of p.conf.level) [
  | none ↦ exit failure p
  | some l ↦ goes_on (record p { severity = some l })
]

-- `ShellOp`: the command is cut to the 127 bytes that its buffer holds; what `system` returns is not looked at.
unfoldable pub shell_op : List ℕ → Process → Outcome
shell_op command p = goes_on (record p { commands = p.commands ++ (take 127 command ∷ []) })

abbrev pub name_of : Process → List ℕ
name_of p = or_kept p.devname []

-- `TunIface::setIfUp` and `setIfAddr`.
unfoldable pub set_if_up : Process → Outcome
unfolding shell_op
set_if_up p = shell_op ((codes "ip link set dev " ++ name_of p) ++ codes " up") p

unfoldable pub set_if_addr : Process → Outcome
unfolding shell_op
set_if_addr p =
    shell_op ((codes "ip addr add dev " ++ name_of p) ++ (codes " local " ++ p.conf.addr_cidr)) p

module _ (k : Kernel) where
  -- `TunIface::allocateTun`: a configured name is copied to `_devname`, which is still the null pointer, and the
  -- request's name stays empty.
  unfoldable pub tunsetiff_with : ℕ → Process → Outcome
  unfolding gives_up
  tunsetiff_with fd p = elim (k.tunsetiff []) [
    | none ↦ gives_up p
    | some ifr_name ↦ goes_on (record p { devname = some ifr_name; tun_fd = some fd })
  ]

  unfoldable pub copies_name : List ℕ → ℕ → Process → Outcome
  unfolding tunsetiff_with
  copies_name [] fd p = tunsetiff_with fd p
  copies_name (c ∷ name) fd p = crashes

  unfoldable pub allocate_tun : Process → Outcome
  unfolding gives_up copies_name
  allocate_tun p = elim k.open_clonedev [
    | none ↦ gives_up p
    | some fd ↦ copies_name p.conf.name fd p
  ]

  -- `TunIface::init`, for `Interface::init`.
  unfoldable pub init_interface : Process → Outcome
  unfolding allocate_tun set_if_up set_if_addr
  init_interface = do allocate_tun; set_if_up; set_if_addr

  -- `AgentHub::AgentHub`, for `Arbiter::init`. What `mkdir` and `unlink` return is not looked at.
  unfoldable pub init_arbiter : Process → Outcome
  unfolding gives_up
  init_arbiter p = if k.bind then goes_on (record p { hub_fd = some k.listenfd }) else gives_up p

  -- `Veloxd::init`; the other layers have nothing to do or make an object.
  unfoldable pub init : Option Options → Process → Outcome
  unfolding read_conf init_logging init_interface init_arbiter
  init options = do read_conf options; init_logging; init_interface; init_arbiter

  -- `AgentHub::listen`, which the event loop's thread calls before its loop.
  unfoldable pub listen_hub : Process → Outcome
  unfolding gives_up
  listen_hub p = if k.listen then goes_on p else gives_up p

  -- `Veloxd::run`, up to the loops.
  unfoldable pub start_threads : Process → Outcome
  start_threads p = goes_on (record p { running = true; threads = 3 })

  unfoldable pub run : Process → Outcome
  unfolding start_threads listen_hub
  run = do start_threads; listen_hub

  -- `main`.
  unfoldable pub main : Option Options → Outcome
  unfolding init run
  main options = (do init options; run) initial
