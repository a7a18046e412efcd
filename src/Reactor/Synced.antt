-- ===== src/Reactor/Synced.antt =====
-- src/veloxd/arbiter/reactor: what it is for `channels`, the IoHandles and the kernel's interest list to agree,
-- and that a change of one IoHandle with its entry keeps it so.
use velox_project.Prelude.{
  ℕ, ◌+◌, ◌-◌, ◌≡◌, ◌≢◌, ◌⊎◌, inl, inr, refl, sym, ap, subst, ◌∙◌, Bool, true, false, none, some,
  List, [], ◌∷◌, ◌++◌, count_if, ltb, ◌==◌, if◌then◌else◌, arith, Bool-cases, ==_iff, ==_self, ap₂,
}
use mathlib.Core.Bool.{true≢false}
use mathlib.Core.Option.{some-injective, none-ne-some}
use velox_project.Poller.{Epoll, Entry, IoHandle}
use velox_project.Reactor.{is, erase, Loop, set_handle, has_channel}

pub count-append_one :
    (p c : ℕ) (xs : List ℕ)
    → count_if (is p) (xs ++ (c ∷ [])) ≡ count_if (is p) xs + (if c == p then 1 else 0)
count-append_one p c [] = ground arith
count-append_one p c (x ∷ xs) = ground (arith, count-append_one p c xs)

pub count-erase_self : (c : ℕ) (xs : List ℕ) → count_if (is c) (erase c xs) ≡ count_if (is c) xs - 1
unfolding erase
count-erase_self c [] = refl
count-erase_self c (x ∷ xs) = ground (arith, count-erase_self c xs)

pub count-erase_ne :
    (p c : ℕ) (xs : List ℕ) → p ≢ c → count_if (is p) (erase c xs) ≡ count_if (is p) xs
unfolding erase
count-erase_ne p c [] ne = refl
count-erase_ne p c (x ∷ xs) ne = ground (arith, count-erase_ne p c xs ne)

pub ne_of_test : (p c : ℕ) → (p == c) ≡ false → p ≢ c
ne_of_test p c n = ground arith

pub test_of_ne : (p c : ℕ) → p ≢ c → (p == c) ≡ false
test_of_ne p c ne = ground arith

-- The entry that an IoHandle is to have.
abbrev pub entry_of : Bool → ℕ → ℕ → Entry
entry_of own events c = if own then some (events, c) else none

owned_entry :
    (own : Bool) (events' c events p : ℕ)
    → entry_of own events' c ≡ some (events, p)
    → (own ≡ true) × (p ≡ c)
owned_entry true events' c events p e = (refl, sym (ap (λ (x : ℕ × ℕ). x.1) (some-injective _ _ e)))
owned_entry false events' c events p e = absurd (none-ne-some (events, p) e)

module _ (E : Epoll) where
  -- The bookkeeping is sound: a registered IoHandle is in `channels` once and any other is not, and the
  -- interest list has an entry for each registered one, with its events, and no other entry.
  pub record IsSynced (l : Loop E) : Type 0 where
    pub once : (c : ℕ) → count_if (is c) l.channels ≡ (if (l.handles c).owner_loop then 1 else 0)
    pub synced :
        (c : ℕ)
        → (l.handles c).owner_loop ≡ true
        → E.entry l.kernel (l.handles c).fd ≡ some ((l.handles c).events_interested, c)
    pub only :
        (fd events c : ℕ)
        → E.entry l.kernel fd ≡ some (events, c)
        → ((l.handles c).owner_loop ≡ true) × ((l.handles c).fd ≡ fd)

  pub handles-cases :
      (l : Loop E) (c : ℕ) (h : IoHandle) (p : ℕ)
      → ((p ≡ c) × ((set_handle E l c h).handles p ≡ h))
        ⊎ ((p ≢ c) × ((set_handle E l c h).handles p ≡ l.handles p))
  unfolding set_handle
  handles-cases l c h p = elim (Bool-cases (p == c)) [
    | inl t ↦ inl ((==_iff p c).0 t, rw t refl)
    | inr n ↦ inr (ne_of_test p c n, rw n refl)
  ]

  pub has_owned : (l : Loop E) (c : ℕ) → IsSynced l → has_channel E l c ≡ (l.handles c).owner_loop
  unfolding has_channel
  has_owned l c v = elim (Bool-cases (l.handles c).owner_loop) [
    | inl t ↦
        (let n : count_if (is c) l.channels ≡ 1 = v.once c ∙ ap (λ b. if b then 1 else 0) t in
          ap (λ n. ltb 0 n) n ∙ sym t)
    | inr n ↦
        (let e : count_if (is c) l.channels ≡ 0 = v.once c ∙ ap (λ b. if b then 1 else 0) n in
          ap (λ n. ltb 0 n) e ∙ sym n)
  ]

  -- Two registered IoHandles have different descriptors.
  pub fd_ne :
      (l : Loop E) (c p : ℕ)
      → IsSynced l
      → (l.handles c).owner_loop ≡ true
      → (l.handles p).owner_loop ≡ true
      → p ≢ c
      → (l.handles p).fd ≢ (l.handles c).fd
  fd_ne l c p v own_c own_p ne e = ne (
      ap (λ (x : ℕ × ℕ). x.1)
        (some-injective _ _
          (sym (v.synced p own_p) ∙ ap (λ fd. E.entry l.kernel fd) e ∙ v.synced c own_c)))

  -- A change of one IoHandle together with the entry of its descriptor.
  module _ (l l' : Loop E) (c : ℕ) (h : IoHandle) (v : IsSynced l)
      (handles : (p : ℕ) → l'.handles p ≡ (set_handle E l c h).handles p)
      (fd_kept : h.fd ≡ (l.handles c).fd)
      (entries : (fd : ℕ)
        → E.entry l'.kernel fd ≡ (
            if fd == h.fd
            then entry_of h.owner_loop h.events_interested c
            else E.entry l.kernel fd))
      (apart : (p : ℕ) → (l.handles p).owner_loop ≡ true → p ≢ c → (l.handles p).fd ≢ h.fd)
      (once : (p : ℕ)
        → count_if (is p) l'.channels
          ≡ (if ((set_handle E l c h).handles p).owner_loop then 1 else 0)) where
    here_entry : h.owner_loop ≡ true → E.entry l'.kernel h.fd ≡ some (h.events_interested, c)
    here_entry own =
        entries h.fd
        ∙ ap₂ (λ b o. if b then entry_of o h.events_interested c else E.entry l.kernel h.fd)
            (==_self h.fd) own

    there_entry : (fd : ℕ) → (fd == h.fd) ≡ false → E.entry l'.kernel fd ≡ E.entry l.kernel fd
    there_entry fd n =
        entries fd
        ∙ ap (λ b. if b then entry_of h.owner_loop h.events_interested c else E.entry l.kernel fd) n

    synced_put :
        (p : ℕ)
        → (l'.handles p).owner_loop ≡ true
        → E.entry l'.kernel (l'.handles p).fd ≡ some ((l'.handles p).events_interested, p)
    synced_put p own = elim (handles-cases l c h p) [
      | inl (e, w) ↦
          subst (λ (x : IoHandle). E.entry l'.kernel x.fd ≡ some (x.events_interested, p))
            (sym (handles p ∙ w))
            (here_entry (sym (ap (λ x. x.owner_loop) (handles p ∙ w)) ∙ own)
              ∙ ap (λ q. some (h.events_interested, q)) (sym e))
      | inr (ne, w) ↦
          (let own_p = sym (ap (λ x. x.owner_loop) (handles p ∙ w)) ∙ own in
            subst (λ (x : IoHandle). E.entry l'.kernel x.fd ≡ some (x.events_interested, p))
              (sym (handles p ∙ w))
              (there_entry (l.handles p).fd (test_of_ne _ _ (apart p own_p ne)) ∙ v.synced p own_p))
    ]

    only_here :
        (fd events p : ℕ)
        → (fd == h.fd) ≡ true
        → E.entry l'.kernel fd ≡ some (events, p)
        → ((l'.handles p).owner_loop ≡ true) × ((l'.handles p).fd ≡ fd)
    only_here fd events p t e =
        let (own, eq) = owned_entry h.owner_loop h.events_interested c events p (
          sym (
            entries fd
            ∙ ap
                (λ b.
                  if b then entry_of h.owner_loop h.events_interested c else E.entry l.kernel fd)
                t)
          ∙ e) in
        elim (handles-cases l c h p) [
          | inl (_, w) ↦ (
            ap (λ x. x.owner_loop) (handles p ∙ w) ∙ own,
            ap (λ x. x.fd) (handles p ∙ w) ∙ sym ((==_iff fd h.fd).0 t),
          )
          | inr (ne, _) ↦ absurd (ne eq)
        ]

    only_there :
        (fd events p : ℕ)
        → (fd == h.fd) ≡ false
        → E.entry l'.kernel fd ≡ some (events, p)
        → ((l'.handles p).owner_loop ≡ true) × ((l'.handles p).fd ≡ fd)
    only_there fd events p n e =
        let (own, at_fd) = v.only fd events p (sym (there_entry fd n) ∙ e) in
        elim (handles-cases l c h p) [
          | inl (eq, _) ↦
              absurd
                (ne_of_test fd h.fd n (sym at_fd ∙ ap (λ q. (l.handles q).fd) eq ∙ sym fd_kept))
          | inr (_, w) ↦
              (ap (λ x. x.owner_loop) (handles p ∙ w) ∙ own, ap (λ x. x.fd) (handles p ∙ w) ∙ at_fd)
        ]

    pub IsSynced-put : IsSynced l'
    IsSynced-put = record {
      once = λ p. once p ∙ ap (λ (x : IoHandle). if x.owner_loop then 1 else 0) (sym (handles p));
      synced = synced_put;
      only = λ fd events p e. elim (Bool-cases (fd == h.fd)) [
        | inl t ↦ only_here fd events p t e
        | inr n ↦ only_there fd events p n e
      ];
    }

  -- A change of an IoHandle that is registered neither before nor after it.
  module _ (l : Loop E) (c : ℕ) (h : IoHandle) (v : IsSynced l)
      (before : (l.handles c).owner_loop ≡ false) (behind : h.owner_loop ≡ false) where
    not_it : (p : ℕ) → (l.handles p).owner_loop ≡ true → p ≢ c
    not_it p own e = true≢false (sym own ∙ ap (λ q. (l.handles q).owner_loop) e ∙ before)

    owner_kept : (p : ℕ) → ((set_handle E l c h).handles p).owner_loop ≡ (l.handles p).owner_loop
    owner_kept p = elim (handles-cases l c h p) [
      | inl (e, w) ↦
          ap (λ x. x.owner_loop) w ∙ (behind ∙ sym (ap (λ q. (l.handles q).owner_loop) e ∙ before))
      | inr (_, w) ↦ ap (λ x. x.owner_loop) w
    ]

    handle_kept :
        (p : ℕ) → (l.handles p).owner_loop ≡ true → (set_handle E l c h).handles p ≡ l.handles p
    handle_kept p own = elim (handles-cases l c h p) [
      | inl (e, _) ↦ absurd (not_it p own e)
      | inr (_, w) ↦ w
    ]

    pub IsSynced-replace : IsSynced (set_handle E l c h)
    unfolding set_handle
    IsSynced-replace = record {
      once = λ p. v.once p ∙ ap (λ b. if b then 1 else 0) (sym (owner_kept p));
      synced = λ p own.
          let own_p = sym (owner_kept p) ∙ own in
          subst (λ (x : IoHandle). E.entry l.kernel x.fd ≡ some (x.events_interested, p))
            (sym (handle_kept p own_p)) (v.synced p own_p);
      only = λ fd events p e.
          let (own, at_fd) = v.only fd events p e in
          (owner_kept p ∙ own, ap (λ x. x.fd) (handle_kept p own) ∙ at_fd);
    }
