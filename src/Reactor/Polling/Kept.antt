-- ===== src/Reactor/Polling/Kept.antt =====
-- src/veloxd/arbiter/reactor/SysPoller.cpp: a poll changes nothing but received events.
use velox_project.Prelude.{
  ℕ, ◌≡◌, inl, inr, refl, sym, ap, ◌∙◌, some, List, [], ◌∷◌, ap₂, count_if, if◌then◌else◌,
}
use velox_project.Poller.{Epoll, IoHandle}
use velox_project.Reactor.{is, Loop, set_handle}
use velox_project.Reactor.Synced.{IsSynced, handles-cases}
use velox_project.Reactor.Polling.{Report, set_events_received, receive_reports}

module _ (E : Epoll) where
  without_events : IoHandle → IoHandle
  without_events h = record h { events_received = 0 }

  -- Nothing but received events is different.
  pub record IsKept (l l' : Loop E) : Type 0 where
    kernel_kept : l'.kernel ≡ l.kernel
    channels_kept : l'.channels ≡ l.channels
    handles_kept : (p : ℕ) → without_events (l'.handles p) ≡ without_events (l.handles p)

  set_events_received-IsKept :
      (l : Loop E) (c events : ℕ) → IsKept l (set_events_received E l c events)
  unfolding set_events_received set_handle without_events
  set_events_received-IsKept l c events = record {
    kernel_kept = refl;
    channels_kept = refl;
    handles_kept = λ p.
        elim (handles-cases E l c (record (l.handles c) { events_received = events }) p) [
          | inl (e, w) ↦ ap without_events w ∙ ap (λ q. without_events (l.handles q)) (sym e)
          | inr (_, w) ↦ ap without_events w
        ];
  }

  pub receive_reports-IsKept :
      (l : Loop E) (reports : List Report) → IsKept l (receive_reports E l reports).0
  unfolding receive_reports
  receive_reports-IsKept l [] = record {
    kernel_kept = refl;
    channels_kept = refl;
    handles_kept = λ p. refl;
  }
  receive_reports-IsKept l ((events, c) ∷ reports) =
      let one = set_events_received-IsKept l c events in
      let rest = receive_reports-IsKept (set_events_received E l c events) reports in
      record {
        kernel_kept = rest.kernel_kept ∙ one.kernel_kept;
        channels_kept = rest.channels_kept ∙ one.channels_kept;
        handles_kept = λ p. rest.handles_kept p ∙ one.handles_kept p;
      }

  module _ (l l' : Loop E) (k : IsKept l l') where
    pub owner_kept : (p : ℕ) → (l'.handles p).owner_loop ≡ (l.handles p).owner_loop
    unfolding without_events
    owner_kept p = ap (λ (h : IoHandle). h.owner_loop) (k.handles_kept p)

    fd_kept : (p : ℕ) → (l'.handles p).fd ≡ (l.handles p).fd
    unfolding without_events
    fd_kept p = ap (λ (h : IoHandle). h.fd) (k.handles_kept p)

    pub interested_kept :
        (p : ℕ) → (l'.handles p).events_interested ≡ (l.handles p).events_interested
    unfolding without_events
    interested_kept p = ap (λ (h : IoHandle). h.events_interested) (k.handles_kept p)

    pub IsKept-IsSynced : IsSynced E l → IsSynced E l'
    IsKept-IsSynced v = record {
      once = λ c.
          ap (λ cs. count_if (is c) cs) k.channels_kept
          ∙ v.once c
          ∙ ap (λ b. if b then 1 else 0) (sym (owner_kept c));
      synced = λ c own.
          ap₂ (λ k fd. E.entry k fd) k.kernel_kept (fd_kept c)
          ∙ v.synced c (sym (owner_kept c) ∙ own)
          ∙ ap (λ events. some (events, c)) (sym (interested_kept c));
      only = λ fd events c e.
          let (own, at_fd) = v.only fd events c (ap (λ k. E.entry k fd) (sym k.kernel_kept) ∙ e) in
          (owner_kept c ∙ own, fd_kept c ∙ at_fd);
    }
