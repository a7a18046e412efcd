-- ===== src/Reactor/Received.antt =====
-- src/veloxd/arbiter/reactor: an operation on one IoHandle leaves the others as they are.
use velox_project.Prelude.{
  ℕ, ◌≡◌, ◌≢◌, inl, inr, refl, ap, sym, ◌∙◌, Bool, true, false, if◌then◌else◌, Bool-cases, bit_or,
}
use velox_project.Poller.{Epoll, IoHandle, new_io_handle, read_event}
use velox_project.Reactor.{
  Loop, set_handle, has_channel, add_channel, remove_channel, update_channel, with_interest,
  enable_reading, set_owner_event_reactor, unregister_self, construct, destroy,
}
use velox_project.Reactor.Synced.{handles-cases}

module _ (E : Epoll) where
  set_handle-other :
      (l : Loop E) (c : ℕ) (h : IoHandle) (p : ℕ)
      → p ≢ c
      → (set_handle E l c h).handles p ≡ l.handles p
  set_handle-other l c h p ne = elim (handles-cases E l c h p) [
    | inl (e, _) ↦ absurd (ne e)
    | inr (_, w) ↦ w
  ]

  add_channel-handles : (l : Loop E) (c p : ℕ) → (add_channel E l c).handles p ≡ l.handles p
  unfolding add_channel
  add_channel-handles l c p = elim (Bool-cases (has_channel E l c)) [
    | inl t ↦ rw t refl
    | inr f ↦ rw f refl
  ]

  remove_channel-handles : (l : Loop E) (c p : ℕ) → (remove_channel E l c).handles p ≡ l.handles p
  unfolding remove_channel
  remove_channel-handles l c p = elim (Bool-cases (has_channel E l c)) [
    | inl t ↦ rw t refl
    | inr f ↦ rw f refl
  ]

  update_channel-handles : (l : Loop E) (c p : ℕ) → (update_channel E l c).handles p ≡ l.handles p
  unfolding update_channel
  update_channel-handles l c p = elim (Bool-cases (has_channel E l c)) [
    | inl t ↦ rw t refl
    | inr f ↦ rw f refl
  ]

  either :
      (b : Bool) (l l' : Loop E) (p : ℕ) (h : IoHandle)
      → l.handles p ≡ h
      → l'.handles p ≡ h
      → (if b then l else l').handles p ≡ h
  either true l l' p h e e' = e
  either false l l' p h e e' = e'

  with_interest-other :
      (l : Loop E) (c events p : ℕ) → p ≢ c → (with_interest E l c events).handles p ≡ l.handles p
  unfolding with_interest
  with_interest-other l c events p ne =
      let h = l.handles c in
      let h' : IoHandle = record h { events_interested = events } in
      let l' = set_handle E l c h' in
      let kept = set_handle-other l c h' p ne in
      either h.owner_loop (update_channel E l' c) l' p (l.handles p)
        (update_channel-handles l' c p ∙ kept) kept

  pub new_handle-other :
      (l : Loop E) (c fd p : ℕ)
      → p ≢ c
      → (enable_reading E (construct E l c fd) c).handles p ≡ l.handles p
  unfolding enable_reading construct
  new_handle-other l c fd p ne =
      let l' = set_handle E l c (new_io_handle fd) in
      with_interest-other l' c (bit_or (l'.handles c).events_interested read_event) p ne
      ∙ set_handle-other l c (new_io_handle fd) p ne

  pub register-other :
      (l : Loop E) (c p : ℕ)
      → p ≢ c
      → (set_owner_event_reactor E (add_channel E l c) c).handles p ≡ l.handles p
  unfolding set_owner_event_reactor
  register-other l c p ne =
      let l' = add_channel E l c in
      let h = l'.handles c in
      set_handle-other l' c (record h { owner_loop = true }) p ne ∙ add_channel-handles l c p

  unregistered : Loop E → ℕ → Loop E
  unregistered l c = if (l.handles c).owner_loop then remove_channel E l c else l

  unregistered-handles : (l : Loop E) (c p : ℕ) → (unregistered l c).handles p ≡ l.handles p
  unfolding unregistered
  unregistered-handles l c p =
      either (l.handles c).owner_loop (remove_channel E l c) l p (l.handles p)
        (remove_channel-handles l c p) refl

  pub destroy-other : (l : Loop E) (c p : ℕ) → p ≢ c → (destroy E l c).handles p ≡ l.handles p
  unfolding destroy unregistered
  destroy-other l c p ne =
      let h = l.handles c in
      set_handle-other (unregistered l c) c (record h { owner_loop = false }) p ne
      ∙ unregistered-handles l c p

  -- Unregistering an IoHandle does not change what has been received, its own either.
  pub unregister_self-received :
      (l : Loop E) (c p : ℕ)
      → ((unregister_self E l c).handles p).events_received ≡ (l.handles p).events_received
  unfolding unregister_self unregistered
  unregister_self-received l c p =
      let h = l.handles c in
      elim (handles-cases E (unregistered l c) c (record h { owner_loop = false }) p) [
        | inl (e, w) ↦
            ap (λ (x : IoHandle). x.events_received) w
            ∙ ap (λ q. (l.handles q).events_received) (sym e)
        | inr (_, w) ↦ ap (λ (x : IoHandle). x.events_received) (w ∙ unregistered-handles l c p)
      ]
