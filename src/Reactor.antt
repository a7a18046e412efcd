-- ===== src/Reactor.antt =====
-- src/veloxd/arbiter/reactor/EventReactor.cpp, and the methods of reactor/IoHandle.cpp that reach its
-- owner: the registered channels and the poller that follows them.
pub mod Synced
pub mod Changes
pub mod Registration
pub mod Dispatch
pub mod Polling
pub mod Received
use velox_project.Prelude.{
  ℕ, ◌-◌, ◌^◌, Bool, true, false, List, [], ◌∷◌, ◌++◌, bit_and, bit_or, count_if, ltb, ◌==◌,
  if◌then◌else◌,
}
use velox_project.Poller
use velox_project.Poller.{Epoll, IoHandle, new_io_handle, none_event, read_event, write_event}

abbrev pub is : ℕ → ℕ → Bool
is p q = q == p

-- `vector::erase` of the first entry that `std::find` finds.
unfoldable pub erase : ℕ → List ℕ → List ℕ
erase c [] = []
erase c (x ∷ xs) = let rest = erase c xs in if x == c then xs else x ∷ rest

module _ (E : Epoll) where
  -- The IoHandles by their addresses, `channels`, and the interest list behind the poller.
  pub record Loop : Type 0 where
    pub handles : ℕ → IoHandle
    pub channels : List ℕ
    pub kernel : E.Kernel

  unfoldable pub set_handle : Loop → ℕ → IoHandle → Loop
  set_handle l c h = record l { handles = λ p. if p == c then h else l.handles p }

  unfoldable pub has_channel : Loop → ℕ → Bool
  has_channel l c = ltb 0 (count_if (is c) l.channels)

  unfoldable pub add_channel : Loop → ℕ → Loop
  unfolding has_channel
  add_channel l c = if has_channel l c then l else record l {
    kernel = Poller.add_channel E l.kernel c (l.handles c);
    channels = l.channels ++ (c ∷ []);
  }

  unfoldable pub remove_channel : Loop → ℕ → Loop
  unfolding has_channel erase
  remove_channel l c =
      if has_channel l c
      then record l {
        kernel = Poller.remove_channel E l.kernel (l.handles c);
        channels = erase c l.channels;
      }
      else l

  unfoldable pub update_channel : Loop → ℕ → Loop
  unfolding has_channel
  update_channel l c =
      if has_channel l c
      then record l { kernel = Poller.update_channel E l.kernel c (l.handles c) }
      else l

  -- The change of `eventsInterested`, then the owner's update.
  unfoldable pub with_interest : Loop → ℕ → ℕ → Loop
  unfolding set_handle update_channel
  with_interest l c events =
      let h = l.handles c in
      let l' = set_handle l c (record h { events_interested = events }) in
      if h.owner_loop then update_channel l' c else l'

  unfoldable pub enable_reading : Loop → ℕ → Loop
  unfolding with_interest
  enable_reading l c = with_interest l c (bit_or (l.handles c).events_interested read_event)

  -- Masked with `noneEvent`, so that every interest goes.
  unfoldable pub disable_reading : Loop → ℕ → Loop
  unfolding with_interest
  disable_reading l c = with_interest l c (bit_and (l.handles c).events_interested none_event)

  unfoldable pub enable_writing : Loop → ℕ → Loop
  unfolding with_interest
  enable_writing l c = with_interest l c (bit_or (l.handles c).events_interested write_event)

  unfoldable pub disable_writing : Loop → ℕ → Loop
  unfolding with_interest
  disable_writing l c =
      with_interest l c (bit_and (l.handles c).events_interested (2 ^ 32 - 1 - write_event))

  unfoldable pub disable_all : Loop → ℕ → Loop
  unfolding with_interest
  disable_all l c = with_interest l c (bit_and (l.handles c).events_interested none_event)

  unfoldable pub set_owner_event_reactor : Loop → ℕ → Loop
  unfolding set_handle
  set_owner_event_reactor l c =
      let h = l.handles c in set_handle l c (record h { owner_loop = true })

  unfoldable pub unregister_self : Loop → ℕ → Loop
  unfolding remove_channel set_handle
  unregister_self l c =
      let h = l.handles c in
      let l' = if h.owner_loop then remove_channel l c else l in
      set_handle l' c (record h { owner_loop = false })

  -- The constructor at a free address.
  unfoldable pub construct : Loop → ℕ → ℕ → Loop
  unfolding set_handle
  construct l c fd = set_handle l c (new_io_handle fd)

  -- The destructor; what is left at the address has no owner.
  unfoldable pub destroy : Loop → ℕ → Loop
  unfolding remove_channel set_handle
  destroy l c =
      let h = l.handles c in
      let l' = if h.owner_loop then remove_channel l c else l in
      set_handle l' c (record h { owner_loop = false })
