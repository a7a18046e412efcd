-- ===== src/Reactor/Registration.antt =====
-- src/veloxd/arbiter/reactor: whatever the owners of IoHandles do, the kernel's interest list holds the
-- registered ones and no other, each with the events that it is interested in.
use velox_project.Prelude.{
  ℕ, ◌≡◌, ◌≢◌, sym, ap, ◌∙◌, true, false, none, [], count_if, if◌then◌else◌,
}
use mathlib.Core.Bool.{true≢false}
use mathlib.Core.Option.{none-ne-some}
use velox_project.Poller.{Epoll}
use velox_project.Reactor.{
  is, Loop, add_channel, enable_reading, disable_reading, enable_writing, disable_writing,
  disable_all, set_owner_event_reactor, unregister_self, construct, destroy,
}
use velox_project.Reactor.Synced.{IsSynced}
use velox_project.Reactor.Changes.{
  attached, with_interest-IsSynced, attach-IsSynced, unregister_self-IsSynced, destroy-IsSynced,
  construct-IsSynced,
}

module _ (E : Epoll) where
  -- What the owners of IoHandles do, in any order. An address is used again only when nothing
  -- registered is there, and a descriptor that is registered is not in use by another IoHandle.
  pub data Step : Loop E → Loop E → Type 0 where
    constructs :
        {l : Loop E} (c fd : ℕ) → (l.handles c).owner_loop ≡ false → Step l (construct E l c fd)
    attaches :
        {l : Loop E} (c : ℕ)
        → (l.handles c).owner_loop ≡ false
        → ((p : ℕ) → (l.handles p).owner_loop ≡ true → (l.handles p).fd ≢ (l.handles c).fd)
        → Step l (set_owner_event_reactor E (add_channel E l c) c)
    enables_reading : {l : Loop E} (c : ℕ) → Step l (enable_reading E l c)
    disables_reading : {l : Loop E} (c : ℕ) → Step l (disable_reading E l c)
    enables_writing : {l : Loop E} (c : ℕ) → Step l (enable_writing E l c)
    disables_writing : {l : Loop E} (c : ℕ) → Step l (disable_writing E l c)
    disables_all : {l : Loop E} (c : ℕ) → Step l (disable_all E l c)
    unregisters : {l : Loop E} (c : ℕ) → Step l (unregister_self E l c)
    destroys : {l : Loop E} (c : ℕ) → Step l (destroy E l c)

  pub data Reach (start : Loop E) : Loop E → Type 0 where
    here : Reach start start
    next : {l l' : Loop E} → Reach start l → Step l l' → Reach start l'

  pub Step-IsSynced : {l l' : Loop E} → Step l l' → IsSynced E l → IsSynced E l'
  unfolding enable_reading disable_reading enable_writing disable_writing disable_all attached
  Step-IsSynced (constructs {l} c fd n) v = construct-IsSynced E l c v fd n
  Step-IsSynced (attaches {l} c n fresh) v = attach-IsSynced E l c v n fresh
  Step-IsSynced (enables_reading {l} c) v = with_interest-IsSynced E l c v _
  Step-IsSynced (disables_reading {l} c) v = with_interest-IsSynced E l c v _
  Step-IsSynced (enables_writing {l} c) v = with_interest-IsSynced E l c v _
  Step-IsSynced (disables_writing {l} c) v = with_interest-IsSynced E l c v _
  Step-IsSynced (disables_all {l} c) v = with_interest-IsSynced E l c v _
  Step-IsSynced (unregisters {l} c) v = unregister_self-IsSynced E l c v
  Step-IsSynced (destroys {l} c) v = destroy-IsSynced E l c v

  -- From a reactor without channels, whatever is constructed, registered, enabled, disabled,
  -- unregistered and destroyed, in any order: each registered IoHandle is in `channels` once and no other is;
  -- the interest list has its descriptor with exactly the events it is interested in, and nothing
  -- besides. A descriptor is registered for one IoHandle at a time, and the kernel keeps to epoll_ctl(2).
  pub Reach-IsSynced :
      (start l : Loop E)
      → start.channels ≡ []
      → ((c : ℕ) → (start.handles c).owner_loop ≡ false)
      → ((fd : ℕ) → E.entry start.kernel fd ≡ none)
      → Reach start l
      → IsSynced E l
  Reach-IsSynced start l no_channels no_owner no_entry here = record {
    once = λ c.
        ap (λ l. count_if (is c) l) no_channels ∙ ap (λ b. if b then 1 else 0) (sym (no_owner c));
    synced = λ c own. absurd (true≢false (sym own ∙ no_owner c));
    only = λ fd events c e. absurd (none-ne-some (events, c) (sym (no_entry fd) ∙ e));
  }
  Reach-IsSynced start l no_channels no_owner no_entry (next r s) =
      Step-IsSynced s (Reach-IsSynced start _ no_channels no_owner no_entry r)
