-- ===== src/Startup/Endings.antt =====
-- src/veloxd/Veloxd.cpp, `main`: when the daemon runs, when it exits, and when it crashes at its start.
use velox_project.Prelude.{
  ℕ, ◌≡◌, ◌≢◌, ◌↔◌, ◌⊎◌, ◌≤◌, inl, inr, refl, ap, ap₂, ◌∙◌, true, false, Option, none, some, List,
  [], ◌∷◌, ◌++◌, ◌||◌, take, take_all, length, length-append, codes, arith, Bool-cases,
  Option-cases,
}
use velox_project.Startup.{
  Options, Kernel, Severity, debug, success, failure, Process, initial, goes_on, exits, crashes,
  read_conf, severity_of, init_logging, init, exit, main,
}
use velox_project.Startup.Outcomes.{
  level_of, requested_name, addr_of, IsUsual, configured, Serves, served, main_logged, Way, ways,
  rest_runs, rest_named,
}

module _ (k : Kernel) where
  main_shown :
      (o : Options) → (o.help || o.version) ≡ true → main k (some o) ≡ exits success initial
  unfolding main init read_conf exit
  main_shown o h = elim (Bool-cases o.help) [
    | inl t ↦ rw (t, read_conf) refl
    | inr n ↦ (let v : o.version ≡ true = rw n at h in rw (n, v, read_conf) refl)
  ]

  main_unnamed :
      (o : Options)
      → IsUsual o
      → severity_of (level_of o) ≡ none
      → (q : Process) × (main k (some o) ≡ exits failure q)
  unfolding main init read_conf init_logging exit
  main_unnamed o usual e = (
    record (configured o debug) { severity = none },
    rw (usual.0, usual.1, read_conf) (rw (e, init_logging) refl),
  )

  -- All that can be at the start: it fails, it shows a text, or the device decides.
  abbrev Verdict : Option Options → Type 0
  Verdict options =
      ((q : Process) × (main k options ≡ exits failure q))
      ⊎ ((o : Options) × (options ≡ some o)
          × ((o.help || o.version) ≡ true)
          × (main k options ≡ exits success initial))
      ⊎ ((o : Options) × (l : Severity) × (options ≡ some o)
          × IsUsual o
          × (severity_of (level_of o) ≡ some l)
          × Way k (configured o l))

  verdict : (options : Option Options) → Verdict options
  unfolding main init read_conf exit
  verdict none = inl (initial, refl)
  verdict (some o) = elim (Bool-cases (o.help || o.version)) [
    | inl t ↦ inr (inl (o, refl, t, main_shown o t))
    | inr f ↦
        (let usual : IsUsual o = ground arith in
          elim (Option-cases (severity_of (level_of o))) [
            | inl e ↦ inl (main_unnamed o usual e)
            | inr (l, e) ↦ inr (inr (o, l, refl, usual, e, ways k (configured o l)))
          ])
  ]

  -- `main` exits with success exactly when the options ask for the help or the version.
  pub main-success_iff :
      (options : Option Options)
      → ((q : Process) × (main k options ≡ exits success q))
        ↔ ((o : Options) × (options ≡ some o) × ((o.help || o.version) ≡ true))
  main-success_iff options = (
    (λ (q, e). elim (verdict options) [
      | inl (q', w) ↦ absurd cc
      | inr (inl (o, e, h, w)) ↦ (o, e, h)
      | inr (inr (o, l, same, usual, level, way)) ↦
          (let w = ap (main k) same ∙ main_logged k o l usual level in
            elim way [
              | inl (q', f) ↦ absurd cc
              | inr (inl (fd, opened, named, c)) ↦ absurd cc
              | inr (inr (fd, ifr_name, serves)) ↦
                  (let r = rest_runs k (configured o l) fd ifr_name serves in absurd cc)
            ])
    ]),
    (λ (o, e, h). (initial, ap (main k) e ∙ main_shown o h)),
  )

  -- `main` crashes, by a copy to a null pointer, exactly when the options are read, ask neither for the help nor for the
  -- version, leave a valid level, and name the device, while the TUN device opens.
  pub main-crashes_iff :
      (options : Option Options)
      → (main k options ≡ crashes) ↔ (
          (o : Options) × (l : Severity) × (fd : ℕ) × (options ≡ some o)
          × IsUsual o
          × (severity_of (level_of o) ≡ some l)
          × (requested_name o ≢ [])
          × (k.open_clonedev ≡ some fd))
  main-crashes_iff options = (
    (λ e. elim (verdict options) [
      | inl (q', w) ↦ absurd cc
      | inr (inl (o, s, h, w)) ↦ absurd cc
      | inr (inr (o, l, same, usual, level, way)) ↦
          (let w = ap (main k) same ∙ main_logged k o l usual level in
            elim way [
              | inl (q', f) ↦ absurd cc
              | inr (inl (fd, opened, named, c)) ↦ (o, l, fd, same, usual, level, named, opened)
              | inr (inr (fd, ifr_name, serves)) ↦
                  (let r = rest_runs k (configured o l) fd ifr_name serves in absurd cc)
            ])
    ]),
    (λ (o, l, fd, same, usual, level, named, opened).
        ap (main k) same
        ∙ main_logged k o l usual level
        ∙ rest_named k (configured o l) fd opened named),
  )

  -- The threads of the daemon run exactly when the options are read and ask for the daemon itself, leave a valid level and
  -- no name, the TUN device opens and gives a name, and the listening socket is bound and listens. Whatever
  -- the two commands return, it does not matter.
  pub main-goes_on_iff :
      (options : Option Options)
      → ((p : Process) × (main k options ≡ goes_on p)) ↔ (
          (o : Options) × (l : Severity) × (fd : ℕ) × (ifr_name : List ℕ) × (options ≡ some o)
          × IsUsual o
          × (severity_of (level_of o) ≡ some l)
          × Serves k (requested_name o) fd ifr_name)
  main-goes_on_iff options = (
    (λ (q, e). elim (verdict options) [
      | inl (q', w) ↦ absurd cc
      | inr (inl (o, s, h, w)) ↦ absurd cc
      | inr (inr (o, l, same, usual, level, way)) ↦
          (let w = ap (main k) same ∙ main_logged k o l usual level in
            elim way [
              | inl (q', f) ↦ absurd cc
              | inr (inl (fd, opened, named, c)) ↦ absurd cc
              | inr (inr (fd, ifr_name, serves)) ↦ (o, l, fd, ifr_name, same, usual, level, serves)
            ])
    ]),
    (λ (o, l, fd, ifr_name, same, usual, level, serves). (
      served k (configured o l) fd ifr_name,
      ap (main k) same
          ∙ main_logged k o l usual level
          ∙ rest_runs k (configured o l) fd ifr_name serves,
    )),
  )

-- The command with the device's name between two texts is not cut.
whole_up :
    (ifr_name : List ℕ)
    → length ifr_name ≤ 15
    → take 127 ((codes "ip link set dev " ++ ifr_name) ++ codes " up")
      ≡ (codes "ip link set dev " ++ ifr_name) ++ codes " up"
whole_up ifr_name short = take_all 127 _ (omega (arith, length-append {0} ifr_name (codes " up")))

whole_addr :
    (ifr_name addr : List ℕ)
    → length ifr_name ≤ 15
    → length addr ≤ 89
    → take 127 ((codes "ip addr add dev " ++ ifr_name) ++ (codes " local " ++ addr))
      ≡ (codes "ip addr add dev " ++ ifr_name) ++ (codes " local " ++ addr)
whole_addr ifr_name addr short fits =
    take_all 127 _ (omega (arith, length-append {0} ifr_name (codes " local " ++ addr)))

-- When the threads run, the device has a name of at most 15 bytes and the address at most 89: exactly two commands have
-- been given to the shell, whole, the device's name and then its address in them; the log has the level
-- of the options; the descriptors are the device's and the listening socket's; all three threads run and
-- no stop is asked for.
pub main-runs :
    (k : Kernel) (o : Options) (l : Severity) (fd : ℕ) (ifr_name : List ℕ)
    → IsUsual o
    → severity_of (level_of o) ≡ some l
    → Serves k (requested_name o) fd ifr_name
    → length ifr_name ≤ 15
    → length (addr_of o) ≤ 89
    → (p : Process) × (main k (some o) ≡ goes_on p)
      × (p.commands
          ≡ ((codes "ip link set dev " ++ ifr_name) ++ codes " up")
            ∷ ((codes "ip addr add dev " ++ ifr_name) ++ (codes " local " ++ addr_of o))
            ∷ [])
      × (p.severity ≡ some l)
      × (p.tun_fd ≡ some fd)
      × (p.hub_fd ≡ some k.listenfd)
      × (p.running ≡ true)
      × (p.threads ≡ 3)
      × (p.interface_stopflag ≡ false)
      × (p.ip_stopflag ≡ false)
      × (p.loop_stopflag ≡ false)
main-runs k o l fd ifr_name usual level serves short fits = (
  served k (configured o l) fd ifr_name,
  main_logged k o l usual level ∙ rest_runs k (configured o l) fd ifr_name serves,
  ap₂ (λ a b. a ∷ b ∷ []) (whole_up ifr_name short) (whole_addr ifr_name (addr_of o) short fits),
  refl,
  refl,
  refl,
  refl,
  refl,
  refl,
  refl,
  refl,
)
