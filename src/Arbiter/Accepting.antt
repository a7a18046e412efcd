-- ===== src/Arbiter/Accepting.antt =====
-- src/veloxd/arbiter/agent/AgentHub.cpp, `onReadReady`, with the callback of Arbiter.cpp: from the accepted
-- connections to the interest list of the event loop.
use velox_project.Prelude.{
  ℕ, ◌≡◌, ◌≢◌, inl, inr, refl, sym, ap, subst, ◌∙◌, true, false, some, List, [], ◌∷◌, ◌++◌, ◌==◌,
  if◌then◌else◌, ==_self, Bool-cases, map, All,
}
use mathlib.Core.List.{append_assoc, append-nil}
use mathlib.Core.Bool.{true≢false}
use velox_project.Poller.{Epoll, IoHandle, new_io_handle, read_event}
use velox_project.Reactor
use velox_project.Reactor.{Loop, set_handle}
use velox_project.Reactor.Synced.{IsSynced, test_of_ne}
use velox_project.Reactor.Registration.{constructs, enables_reading, attaches, Step-IsSynced}
use velox_project.Arbiter.{
  Agent, Connection, new_agent, Arbiter, new_reading_handle, register, add_rr_channel,
  on_new_connection, accept_all, set_live,
}

module _ (E : Epoll) where
  -- A new IoHandle's address has no registered one, and its descriptor is not registered.
  abbrev pub IsFresh : Arbiter E → Connection → Type 0
  IsFresh w conn =
      ((w.loop.handles conn.handle).owner_loop ≡ false)
      × ((p : ℕ) → (w.loop.handles p).owner_loop ≡ true → (w.loop.handles p).fd ≢ conn.connfd)

  abbrev pub AllFresh : Arbiter E → List Connection → Type 0
  AllFresh w [] = Unit
  AllFresh w (conn ∷ conns) = IsFresh w conn × AllFresh (on_new_connection E w conn) conns

  -- The IoHandle of an accepted connection.
  abbrev registered : ℕ → IoHandle
  registered connfd = record {
    fd = connfd;
    events_interested = read_event;
    events_received = 0;
    owner_loop = true;
  }

  abbrev unregistered : ℕ → IoHandle
  unregistered fd = record {
    fd = fd;
    events_interested = read_event;
    events_received = 0;
    owner_loop = false;
  }

  add_channel-handles : (l : Loop E) (c : ℕ) → (Reactor.add_channel E l c).handles ≡ l.handles
  unfolding Reactor.add_channel
  add_channel-handles l c = elim (Bool-cases (Reactor.has_channel E l c)) [
    | inl t ↦ rw (t, Reactor.add_channel) refl
    | inr n ↦ rw (n, Reactor.add_channel) refl
  ]

  new_reading_handle_eq :
      (l : Loop E) (c fd : ℕ)
      → Reactor.enable_reading E (Reactor.construct E l c fd) c
        ≡ set_handle E (Reactor.construct E l c fd) c (unregistered fd)
  unfolding Reactor.enable_reading Reactor.with_interest Reactor.construct set_handle new_io_handle
  new_reading_handle_eq l c fd = rw (==_self c) refl

  reading_handles :
      (l : Loop E) (c fd p : ℕ)
      → (Reactor.enable_reading E (Reactor.construct E l c fd) c).handles p
        ≡ (if p == c then unregistered fd else l.handles p)
  unfolding Reactor.construct set_handle
  reading_handles l c fd p =
      ap (λ (l : Loop E). l.handles p) (new_reading_handle_eq l c fd)
      ∙ elim (Bool-cases (p == c)) [ inl t ↦ rw t refl | inr n ↦ rw n refl ]

  reading_handle :
      (l : Loop E) (c fd : ℕ)
      → (Reactor.enable_reading E (Reactor.construct E l c fd) c).handles c ≡ unregistered fd
  reading_handle l c fd =
      reading_handles l c fd c ∙ ap (λ b. if b then unregistered fd else l.handles c) (==_self c)

  apart_from_it :
      (l : Loop E) (c fd : ℕ)
      → ((p : ℕ) → (l.handles p).owner_loop ≡ true → (l.handles p).fd ≢ fd)
      → (p : ℕ)
      → let l' = Reactor.enable_reading E (Reactor.construct E l c fd) c in
        (l'.handles p).owner_loop ≡ true → (l'.handles p).fd ≢ (l'.handles c).fd
  apart_from_it l c fd fresh p own same = elim (Bool-cases (p == c)) [
    | inl t ↦
        (let w =
            reading_handles l c fd p ∙ ap (λ b. if b then unregistered fd else l.handles p) t in
          absurd (true≢false (sym own ∙ ap (λ (h : IoHandle). h.owner_loop) w)))
    | inr n ↦
        (let w =
            reading_handles l c fd p ∙ ap (λ b. if b then unregistered fd else l.handles p) n in
          fresh p (sym (ap (λ (h : IoHandle). h.owner_loop) w) ∙ own) (
            sym (ap (λ (h : IoHandle). h.fd) w)
            ∙ same
            ∙ ap (λ (h : IoHandle). h.fd) (reading_handle l c fd)))
  ]

  handles_behind :
      (l : Loop E) (c fd p : ℕ)
      → (Reactor.set_owner_event_reactor E
            (Reactor.add_channel E (Reactor.enable_reading E (Reactor.construct E l c fd) c) c)
            c).handles
          p
        ≡ (if p == c then registered fd else l.handles p)
  unfolding Reactor.set_owner_event_reactor set_handle Reactor.construct
  handles_behind l c fd p =
      let l' = Reactor.enable_reading E (Reactor.construct E l c fd) c in
      ap
        (λ (hs : ℕ → IoHandle).
          let h = hs c in if p == c then record h { owner_loop = true } else hs p)
        (add_channel-handles l' c ∙ ap (λ l. l.handles) (new_reading_handle_eq l c fd))
      ∙ elim (Bool-cases (p == c)) [ inl t ↦ rw (t, ==_self c) refl | inr n ↦ rw n refl ]

  on_new_connection-handles :
      (w : Arbiter E) (conn : Connection) (p : ℕ)
      → (on_new_connection E w conn).loop.handles p
        ≡ (if p == conn.handle then registered conn.connfd else w.loop.handles p)
  unfolding on_new_connection register add_rr_channel new_reading_handle
  on_new_connection-handles w conn p = handles_behind w.loop conn.handle conn.connfd p

  handle_kept :
      (w : Arbiter E) (conn : Connection) (p : ℕ)
      → IsFresh w conn
      → (w.loop.handles p).owner_loop ≡ true
      → (on_new_connection E w conn).loop.handles p ≡ w.loop.handles p
  handle_kept w conn p fresh own =
      let ne : p ≢ conn.handle =
        λ e. true≢false (sym own ∙ ap (λ q. (w.loop.handles q).owner_loop) e ∙ fresh.0) in
      on_new_connection-handles w conn p
      ∙ ap (λ b. if b then registered conn.connfd else w.loop.handles p)
          (test_of_ne p conn.handle ne)

  on_new_connection-IsSynced :
      (w : Arbiter E) (conn : Connection)
      → IsSynced E w.loop
      → IsFresh w conn
      → IsSynced E (on_new_connection E w conn).loop
  unfolding on_new_connection register add_rr_channel new_reading_handle
  on_new_connection-IsSynced w conn v fresh =
      let c = conn.handle in
      let v' =
        Step-IsSynced E (enables_reading c)
          (Step-IsSynced E (constructs {l = w.loop} c conn.connfd fresh.0) v) in
      Step-IsSynced E
        (attaches c (ap (λ (h : IoHandle). h.owner_loop) (reading_handle w.loop c conn.connfd))
          (apart_from_it w.loop c conn.connfd fresh.1))
        v'

  rr_channels_behind :
      (w : Arbiter E) (conn : Connection) (agents : List Agent)
      → (on_new_connection E w conn).rr_channels ++ agents
        ≡ w.rr_channels ++ (new_agent conn ∷ agents)
  unfolding on_new_connection register add_rr_channel new_reading_handle set_live
  rr_channels_behind w conn agents = append_assoc w.rr_channels (new_agent conn ∷ []) agents

  -- A registered IoHandle is left alone by the connections that follow.
  accept_all-handles :
      (w : Arbiter E) (conns : List Connection) (p : ℕ)
      → AllFresh w conns
      → (w.loop.handles p).owner_loop ≡ true
      → (accept_all E w conns).loop.handles p ≡ w.loop.handles p
  unfolding accept_all
  accept_all-handles w [] p fresh own = refl
  accept_all-handles w (conn ∷ conns) p fresh own =
      let kept = handle_kept w conn p fresh.0 own in
      accept_all-handles (on_new_connection E w conn) conns p fresh.1
        (ap (λ (h : IoHandle). h.owner_loop) kept ∙ own)
      ∙ kept

  handle_of :
      (w : Arbiter E) (conn : Connection)
      → (on_new_connection E w conn).loop.handles conn.handle ≡ registered conn.connfd
  handle_of w conn =
      on_new_connection-handles w conn conn.handle
      ∙ ap (λ b. if b then registered conn.connfd else w.loop.handles conn.handle)
          (==_self conn.handle)

  -- When the listener is readable, every waiting connection, in the order of their acceptance, becomes a
  -- channel at the end of the Arbiter's list, and its descriptor is in the kernel's interest list, for
  -- reading and with its own IoHandle; the reactor's bookkeeping stays sound. Each new IoHandle has an address
  -- and a descriptor that no registered one has.
  pub accept_all-IsSynced :
      (w : Arbiter E) (conns : List Connection)
      → IsSynced E w.loop
      → AllFresh w conns
      → let w' = accept_all E w conns in
        IsSynced E w'.loop
        × (w'.rr_channels ≡ w.rr_channels ++ map new_agent conns)
        × All (λ conn. E.entry w'.loop.kernel conn.connfd ≡ some (read_event, conn.handle)) conns
  unfolding accept_all
  accept_all-IsSynced w [] v fresh = (v, sym (append-nil w.rr_channels), tt)
  accept_all-IsSynced w (conn ∷ conns) v fresh =
      let w' = on_new_connection E w conn in
      let (v', listed, entries) =
        accept_all-IsSynced w' conns (on_new_connection-IsSynced w conn v fresh.0) fresh.1 in
      let own = ap (λ (h : IoHandle). h.owner_loop) (handle_of w conn) in
      let h = accept_all-handles w' conns conn.handle fresh.1 own ∙ handle_of w conn in
      (
        v',
        listed ∙ rr_channels_behind w conn (map new_agent conns),
        (
          subst
              (λ (h : IoHandle).
                E.entry (accept_all E w' conns).loop.kernel h.fd
                ≡ some (h.events_interested, conn.handle))
              h (v'.synced conn.handle (ap (λ (h : IoHandle). h.owner_loop) h)),
          entries,
        ),
      )
