-- ===== src/Reactor/Changes.antt =====
-- src/veloxd/arbiter/reactor: that each change of one IoHandle and its registration keeps the reactor and the
-- kernel's interest list in agreement.
use velox_project.Prelude.{
  ℕ, ◌+◌, ◌-◌, ◌≡◌, ◌≢◌, inl, inr, refl, sym, ap, subst, ◌∙◌, true, false, none, some, [], ◌∷◌,
  ◌++◌, count_if, ltb, ◌==◌, if◌then◌else◌, arith, Bool-cases, Option-cases, ==_self, ap₂,
}
use velox_project.Poller
use velox_project.Poller.{Epoll, ctl_mod, ctl_add, ctl_del, Entry, IoHandle, new_io_handle}
use velox_project.Reactor.{
  is, erase, Loop, set_handle, has_channel, add_channel, remove_channel, update_channel,
  with_interest, set_owner_event_reactor, unregister_self, construct, destroy,
}
use velox_project.Reactor.Synced.{
  IsSynced, entry_of, count-append_one, count-erase_self, count-erase_ne, test_of_ne, handles-cases,
  has_owned, fd_ne, IsSynced-put, IsSynced-replace,
}

module _ (E : Epoll) where
  module _ (l : Loop E) (c : ℕ) (v : IsSynced E l) where
    once_kept :
        (h : IoHandle)
        → h.owner_loop ≡ (l.handles c).owner_loop
        → (p : ℕ)
        → count_if (is p) l.channels
          ≡ (if ((set_handle E l c h).handles p).owner_loop then 1 else 0)
    once_kept h own p = elim (handles-cases E l c h p) [
      | inl (e, w) ↦
          v.once p
          ∙ ap (λ b. if b then 1 else 0)
              (ap (λ q. (l.handles q).owner_loop) e ∙ sym own ∙ sym (ap (λ x. x.owner_loop) w))
      | inr (_, w) ↦ v.once p ∙ ap (λ (x : IoHandle). if x.owner_loop then 1 else 0) (sym w)
    ]

    with_interest_owned :
        (events : ℕ)
        → (l.handles c).owner_loop ≡ true
        → let h0 = l.handles c in
          with_interest E l c events ≡ record {
            handles = (set_handle E l c (record h0 { events_interested = events })).handles;
            channels = l.channels;
            kernel = E.ctl l.kernel (ctl_mod h0.fd events c);
          }
    unfolding with_interest update_channel Poller.update_channel has_channel set_handle
    with_interest_owned events t =
        let has : ltb 0 (count_if (is c) l.channels) ≡ true = has_owned E l c v ∙ t in
        rw (t, has, ==_self c) refl

    entry-mod_owned :
        (h : IoHandle)
        → h.fd ≡ (l.handles c).fd
        → h.owner_loop ≡ true
        → (l.handles c).owner_loop ≡ true
        → (fd : ℕ)
        → E.entry (E.ctl l.kernel (ctl_mod h.fd h.events_interested c)) fd ≡ (
            if fd == h.fd then entry_of h.owner_loop h.events_interested c else E.entry l.kernel fd)
    entry-mod_owned h e own t fd =
        let old : E.entry l.kernel h.fd ≡ some ((l.handles c).events_interested, c) =
          ap (λ fd. E.entry l.kernel fd) e ∙ v.synced c t in
        E.entry-mod l.kernel h.fd h.events_interested c fd
        ∙ ap
            (λ (x : Entry).
              if fd == h.fd
              then (elim x [ none ↦ none | some old ↦ some (h.events_interested, c) ])
              else E.entry l.kernel fd)
            old
        ∙ ap (λ b. if fd == h.fd then entry_of b h.events_interested c else E.entry l.kernel fd)
            (sym own)

    pub with_interest-IsSynced : (events : ℕ) → IsSynced E (with_interest E l c events)
    unfolding with_interest update_channel Poller.update_channel has_channel
    with_interest-IsSynced events =
        let h0 = l.handles c in
        let h : IoHandle = record h0 { events_interested = events } in
        elim (Bool-cases (l.handles c).owner_loop) [
          | inl t ↦ subst (IsSynced E) (sym (with_interest_owned events t)) (
              IsSynced-put E l _ c h v (λ p. refl) refl (entry-mod_owned h refl t t)
                (λ p own ne. fd_ne E l c p v t own ne) (once_kept h refl))
          | inr n ↦ subst (IsSynced E) (sym (rw n refl)) (IsSynced-replace E l c h v n n)
        ]

    -- `addChannel`, then `setOwnerEventReactor`, on an IoHandle that is not registered and has a descriptor
    -- of its own.
    module _ (n : (l.handles c).owner_loop ≡ false)
        (fresh : (p : ℕ)
          → (l.handles p).owner_loop ≡ true
          → (l.handles p).fd ≢ (l.handles c).fd) where
      unfoldable pub attached : Loop E
      attached = set_owner_event_reactor E (add_channel E l c) c

      attached_eq :
          let h = l.handles c in
          attached ≡ record {
            handles = (set_handle E l c (record h { owner_loop = true })).handles;
            channels = l.channels ++ (c ∷ []);
            kernel = E.ctl l.kernel (ctl_add h.fd h.events_interested c);
          }
      unfolding attached set_owner_event_reactor add_channel Poller.add_channel has_channel
          set_handle
      attached_eq =
          let has : ltb 0 (count_if (is c) l.channels) ≡ false = has_owned E l c v ∙ n in
          rw has refl

      no_entry : E.entry l.kernel (l.handles c).fd ≡ none
      no_entry = elim (Option-cases (E.entry l.kernel (l.handles c).fd)) [
        | inl e ↦ e
        | inr ((events, p), e) ↦
            (let (own, eq) = v.only (l.handles c).fd events p e in absurd (fresh p own eq))
      ]

      once_attached :
          (p : ℕ)
          → let h0 = l.handles c in
            count_if (is p) (l.channels ++ (c ∷ [])) ≡ (
              if ((set_handle E l c (record h0 { owner_loop = true })).handles p).owner_loop
              then 1
              else 0)
      once_attached p =
          let h0 = l.handles c in
          count-append_one p c l.channels
          ∙ elim (handles-cases E l c (record h0 { owner_loop = true }) p) [
            | inl (e, w) ↦
                (let zero : count_if (is p) l.channels ≡ 0 =
                    v.once p
                    ∙ ap (λ b. if b then 1 else 0) (ap (λ q. (l.handles q).owner_loop) e ∙ n) in
                  let one : (c == p) ≡ true = ap (λ q. c == q) e ∙ ==_self c in
                  ap₂ (λ k b. k + (if b then 1 else 0)) zero one
                  ∙ ap (λ (x : IoHandle). if x.owner_loop then 1 else 0) (sym w))
            | inr (ne, w) ↦
                (let one : (c == p) ≡ false = test_of_ne c p (λ e. ne (sym e)) in
                  ap₂ (λ k b. k + (if b then 1 else 0)) (v.once p) one
                  ∙ omega arith
                  ∙ ap (λ (x : IoHandle). if x.owner_loop then 1 else 0) (sym w))
          ]

      pub attach-IsSynced : IsSynced E attached
      attach-IsSynced =
          let h0 = l.handles c in
          subst (IsSynced E) (sym attached_eq) (
            IsSynced-put E l _ c (record h0 { owner_loop = true }) v (λ p. refl) refl
              (λ fd.
                E.entry-add l.kernel h0.fd h0.events_interested c fd
                ∙ ap
                    (λ (x : Entry).
                      if fd == h0.fd
                      then (elim x [ none ↦ some (h0.events_interested, c) | some old ↦ some old ])
                      else E.entry l.kernel fd)
                    no_entry)
              (λ p own ne. fresh p own) once_attached)

    -- `removeChannel`, and that the IoHandle has no owner any more.
    detached : Loop E
    detached =
        let h = l.handles c in
        set_handle E (remove_channel E l c) c (record h { owner_loop = false })

    detached_eq :
        (l.handles c).owner_loop ≡ true
        → let h = l.handles c in
          detached ≡ record {
            handles = (set_handle E l c (record h { owner_loop = false })).handles;
            channels = erase c l.channels;
            kernel = E.ctl l.kernel (ctl_del h.fd);
          }
    unfolding detached remove_channel Poller.remove_channel has_channel set_handle
    detached_eq t =
        let has : ltb 0 (count_if (is c) l.channels) ≡ true = has_owned E l c v ∙ t in rw has refl

    once_detached :
        (l.handles c).owner_loop ≡ true
        → (p : ℕ)
        → let h0 = l.handles c in
          count_if (is p) (erase c l.channels) ≡ (
            if ((set_handle E l c (record h0 { owner_loop = false })).handles p).owner_loop
            then 1
            else 0)
    once_detached t p =
        let h0 = l.handles c in
        elim (handles-cases E l c (record h0 { owner_loop = false }) p) [
          | inl (e, w) ↦
              (let one : count_if (is c) l.channels ≡ 1 =
                  v.once c ∙ ap (λ b. if b then 1 else 0) t in
                ap (λ q. count_if (is q) (erase c l.channels)) e
                ∙ count-erase_self c l.channels
                ∙ ap (λ k. k - 1) one
                ∙ ap (λ (x : IoHandle). if x.owner_loop then 1 else 0) (sym w))
          | inr (ne, w) ↦
              count-erase_ne p c l.channels ne
              ∙ v.once p
              ∙ ap (λ (x : IoHandle). if x.owner_loop then 1 else 0) (sym w)
        ]

    detach-IsSynced : (l.handles c).owner_loop ≡ true → IsSynced E detached
    detach-IsSynced t =
        let h0 = l.handles c in
        subst (IsSynced E) (sym (detached_eq t)) (
          IsSynced-put E l _ c (record h0 { owner_loop = false }) v (λ p. refl) refl
            (λ fd. E.entry-del l.kernel h0.fd fd) (λ p own ne. fd_ne E l c p v t own ne)
            (once_detached t))

    pub unregister_self-IsSynced : IsSynced E (unregister_self E l c)
    unfolding unregister_self detached
    unregister_self-IsSynced =
        let h0 = l.handles c in
        elim (Bool-cases (l.handles c).owner_loop) [
          | inl t ↦
              subst
                (λ b. IsSynced E (
                  set_handle E (if b then remove_channel E l c else l) c
                    (record h0 { owner_loop = false })))
                (sym t) (detach-IsSynced t)
          | inr n ↦
              subst
                (λ b. IsSynced E (
                  set_handle E (if b then remove_channel E l c else l) c
                    (record h0 { owner_loop = false })))
                (sym n) (IsSynced-replace E l c (record h0 { owner_loop = false }) v n refl)
        ]

    pub destroy-IsSynced : IsSynced E (destroy E l c)
    unfolding unregister_self destroy
    destroy-IsSynced = unregister_self-IsSynced

    pub construct-IsSynced :
        (fd : ℕ) → (l.handles c).owner_loop ≡ false → IsSynced E (construct E l c fd)
    unfolding construct new_io_handle
    construct-IsSynced fd n = IsSynced-replace E l c (new_io_handle fd) v n refl
