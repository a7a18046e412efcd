-- ===== src/Startup/Outcomes.antt =====
-- src/veloxd/Veloxd.cpp: how the start of the daemon ends, and what it has done when the threads run.
use velox_project.Prelude.{
  ℕ, ◌≡◌, ◌≢◌, ◌⊎◌, inl, inr, refl, ap, ◌∙◌, true, false, none, some, List, [], ◌∷◌, ◌++◌, take,
  codes, Bool-cases, Option-cases, if◌then◌else◌,
}
use velox_project.Startup.{
  Options, Kernel, Severity, failure, Process, initial, Outcome, goes_on, exits, crashes,
  followed_by, or_kept, read_conf, severity_of, init_logging, allocate_tun, copies_name,
  tunsetiff_with, set_if_up, set_if_addr, init_interface, init_arbiter, init, listen_hub,
  start_threads, run, main, stop, gives_up, exit,
}

-- The level, the device's name and its address as the options set them.
abbrev pub level_of : Options → List ℕ
level_of o = or_kept o.logging_level (codes "debug")

abbrev pub requested_name : Options → List ℕ
requested_name o = or_kept o.tundev_name []

abbrev pub addr_of : Options → List ℕ
addr_of o = or_kept o.tundev_addr (codes "192.168.168.8/24")

-- The options are read, and ask for the daemon itself.
abbrev pub IsUsual : Options → Type 0
IsUsual o = (o.help ≡ false) × (o.version ≡ false)

-- The process behind `readConf` and `initLogging`.
abbrev pub configured : Options → Severity → Process
configured o l = record initial {
  conf = record {
    level = level_of o;
    to_stdout = if o.logging_to_stdout then true else false;
    name = requested_name o;
    addr_cidr = addr_of o;
    stack_addr = or_kept o.stack_address (codes "192.168.168.10");
  };
  severity = some l;
}

read_conf_usual :
    (o : Options) (l : Severity)
    → IsUsual o
    → severity_of (level_of o) ≡ some l
    → followed_by (read_conf (some o) initial) init_logging ≡ goes_on (configured o l)
unfolding read_conf init_logging
read_conf_usual o l usual e = rw (usual.0, usual.1, read_conf) (rw (e, init_logging) refl)

followed_by_assoc :
    (x : Outcome) (f g : Process → Outcome)
    → followed_by x (λ p. followed_by (f p) g) ≡ followed_by (followed_by x f) g
followed_by_assoc (goes_on p) f g = refl
followed_by_assoc (exits e p) f g = refl
followed_by_assoc crashes f g = refl

module _ (k : Kernel) where
  -- The start behind the options and the log.
  pub rest : Process → Outcome
  rest p = followed_by (followed_by (init_interface k p) (init_arbiter k)) (run k)

  pub main_logged :
      (o : Options) (l : Severity)
      → IsUsual o
      → severity_of (level_of o) ≡ some l
      → main k (some o) ≡ rest (configured o l)
  unfolding main init rest
  main_logged o l usual e =
      ap (λ x. followed_by x (run k))
        (followed_by_assoc (read_conf (some o) initial) init_logging
            (λ p. followed_by (init_interface k p) (init_arbiter k))
          ∙ followed_by_assoc (followed_by (read_conf (some o) initial) init_logging)
              (init_interface k) (init_arbiter k))
      ∙ ap
          (λ x.
            followed_by (followed_by (followed_by x (init_interface k)) (init_arbiter k)) (run k))
          (read_conf_usual o l usual e)

  -- The device is there and unnamed, and gives a name; the listening socket is bound and listens.
  abbrev pub Serves : List ℕ → ℕ → List ℕ → Type 0
  Serves requested fd ifr_name =
      (k.open_clonedev ≡ some fd)
      × (requested ≡ [])
      × (k.tunsetiff [] ≡ some ifr_name)
      × (k.bind ≡ true)
      × (k.listen ≡ true)

  -- The process when its device is up, and when its threads run.
  abbrev interfaced : Process → ℕ → List ℕ → Process
  interfaced p fd ifr_name = record p {
    commands =
        (p.commands ++ (take 127 ((codes "ip link set dev " ++ ifr_name) ++ codes " up") ∷ []))
        ++ (take 127
              ((codes "ip addr add dev " ++ ifr_name) ++ (codes " local " ++ p.conf.addr_cidr))
            ∷ []);
    devname = some ifr_name;
    tun_fd = some fd;
  }

  abbrev pub served : Process → ℕ → List ℕ → Process
  served p fd ifr_name = record (interfaced p fd ifr_name) {
    hub_fd = some k.listenfd;
    running = true;
    threads = 3;
  }

  interface_named :
      (p : Process) (fd : ℕ) (c : ℕ) (name : List ℕ)
      → k.open_clonedev ≡ some fd
      → p.conf.name ≡ c ∷ name
      → init_interface k p ≡ crashes
  unfolding init_interface allocate_tun copies_name
  interface_named p fd c name opened named =
      rw (opened, allocate_tun) (rw (named, copies_name) refl)

  interface_up :
      (p : Process) (fd : ℕ) (ifr_name : List ℕ)
      → k.open_clonedev ≡ some fd
      → p.conf.name ≡ []
      → k.tunsetiff [] ≡ some ifr_name
      → init_interface k p ≡ goes_on (interfaced p fd ifr_name)
  unfolding init_interface allocate_tun copies_name tunsetiff_with set_if_up set_if_addr
  interface_up p fd ifr_name opened unnamed given =
      rw (opened, allocate_tun) (rw (unnamed, copies_name) (rw (given, tunsetiff_with) refl))

  interface_fails :
      (p : Process)
      → (k.open_clonedev ≡ none)
        ⊎ ((fd : ℕ) × (k.open_clonedev ≡ some fd) × (p.conf.name ≡ []) × (k.tunsetiff [] ≡ none))
      → (q : Process) × (init_interface k p ≡ exits failure q)
  unfolding init_interface allocate_tun copies_name tunsetiff_with gives_up exit stop
  interface_fails p (inl closed) = (stop p, rw (closed, allocate_tun) refl)
  interface_fails p (inr (fd, opened, unnamed, refused)) = (
    stop p,
    rw (opened, allocate_tun) (rw (unnamed, copies_name) (rw (refused, tunsetiff_with) refl)),
  )

  rest_fails :
      (p : Process)
      → (k.open_clonedev ≡ none)
        ⊎ ((fd : ℕ) × (k.open_clonedev ≡ some fd) × (p.conf.name ≡ []) × (k.tunsetiff [] ≡ none))
      → (q : Process) × (rest p ≡ exits failure q)
  unfolding rest
  rest_fails p h =
      let (q, e) = interface_fails p h in
      (q, ap (λ x. followed_by (followed_by x (init_arbiter k)) (run k)) e)

  rest_crashes :
      (p : Process) (fd : ℕ) (c : ℕ) (name : List ℕ)
      → k.open_clonedev ≡ some fd
      → p.conf.name ≡ c ∷ name
      → rest p ≡ crashes
  unfolding rest
  rest_crashes p fd c name opened named =
      ap (λ x. followed_by (followed_by x (init_arbiter k)) (run k))
        (interface_named p fd c name opened named)

  pub rest_runs :
      (p : Process) (fd : ℕ) (ifr_name : List ℕ)
      → Serves p.conf.name fd ifr_name
      → rest p ≡ goes_on (served p fd ifr_name)
  unfolding rest init_arbiter run start_threads listen_hub
  rest_runs p fd ifr_name (opened, unnamed, given, bound, listens) =
      ap (λ x. followed_by (followed_by x (init_arbiter k)) (run k))
        (interface_up p fd ifr_name opened unnamed given)
      ∙ rw (bound, listens) refl

  unserved :
      (q : Process)
      → (k.bind ≡ false) ⊎ ((k.bind ≡ true) × (k.listen ≡ false))
      → (q' : Process) × (followed_by (init_arbiter k q) (run k) ≡ exits failure q')
  unfolding init_arbiter run start_threads listen_hub gives_up exit stop
  unserved q (inl unbound) = (stop q, rw (unbound) refl)
  unserved q (inr (bound, mute)) = (
    stop (record q { hub_fd = some k.listenfd; running = true; threads = 3 }),
    rw (bound, mute) refl,
  )

  rest_unserved :
      (p : Process) (fd : ℕ) (ifr_name : List ℕ)
      → k.open_clonedev ≡ some fd
      → p.conf.name ≡ []
      → k.tunsetiff [] ≡ some ifr_name
      → (k.bind ≡ false) ⊎ ((k.bind ≡ true) × (k.listen ≡ false))
      → (q : Process) × (rest p ≡ exits failure q)
  unfolding rest
  rest_unserved p fd ifr_name opened unnamed given h =
      let up = interface_up p fd ifr_name opened unnamed given in
      let (q, e) = unserved (interfaced p fd ifr_name) h in
      (q, ap (λ x. followed_by (followed_by x (init_arbiter k)) (run k)) up ∙ e)

  -- The three ways from there.
  abbrev pub Way : Process → Type 0
  Way p =
      ((q : Process) × (rest p ≡ exits failure q))
      ⊎ ((fd : ℕ) × (k.open_clonedev ≡ some fd) × (p.conf.name ≢ []) × (rest p ≡ crashes))
      ⊎ ((fd : ℕ) × (ifr_name : List ℕ) × Serves p.conf.name fd ifr_name)

  name-cases : (l : List ℕ) → (l ≡ []) ⊎ ((c : ℕ) × (m : List ℕ) × (l ≡ c ∷ m))
  name-cases [] = inl refl
  name-cases (c ∷ m) = inr (c, m, refl)

  pub ways : (p : Process) → Way p
  ways p = elim (Option-cases k.open_clonedev) [
    | inl closed ↦ inl (rest_fails p (inl closed))
    | inr (fd, opened) ↦ (elim (name-cases p.conf.name) [
      | inr (c, m, named) ↦ inr (inl (fd, opened, (λ e. cc), rest_crashes p fd c m opened named))
      | inl unnamed ↦ (elim (Option-cases (k.tunsetiff [])) [
        | inl refused ↦ inl (rest_fails p (inr (fd, opened, unnamed, refused)))
        | inr (ifr_name, given) ↦ (elim (Bool-cases k.bind) [
          | inr unbound ↦ inl (rest_unserved p fd ifr_name opened unnamed given (inl unbound))
          | inl bound ↦ (elim (Bool-cases k.listen) [
            | inr mute ↦ inl (rest_unserved p fd ifr_name opened unnamed given (inr (bound, mute)))
            | inl listens ↦ inr (inr (fd, ifr_name, (opened, unnamed, given, bound, listens)))
          ])
        ])
      ])
    ])
  ]

  pub rest_named :
      (p : Process) (fd : ℕ) → k.open_clonedev ≡ some fd → p.conf.name ≢ [] → rest p ≡ crashes
  rest_named p fd opened named = elim (name-cases p.conf.name) [
    | inl e ↦ absurd (named e)
    | inr (c, m, e) ↦ rest_crashes p fd c m opened e
  ]
