-- ===== src/Poller.antt =====
-- src/veloxd/arbiter/reactor/SysPoller.cpp over the IoHandle of reactor/IoHandle.cpp. A number
-- stands for the address of an IoHandle. The kernel's side of `epoll_ctl` is an interface, `Epoll`; a failed
-- call only leaves a line in the log.
use velox_project.Prelude.{ℕ, Bool, false, Option, none, some, ◌==◌, ◌≡◌, if◌then◌else◌}

-- `struct EventMasks`: POLLIN | POLLPRI, and POLLOUT.
abbrev pub none_event : ℕ
none_event = 0

abbrev pub read_event : ℕ
read_event = 3

abbrev pub write_event : ℕ
write_event = 4

pub record IoHandle : Type 0 where
  pub fd : ℕ
  pub events_interested : ℕ
  pub events_received : ℕ
  pub owner_loop : Bool

-- The constructor; what it tells the descriptor is left out.
unfoldable pub new_io_handle : ℕ → IoHandle
new_io_handle fd = record {
  fd = fd;
  events_interested = none_event;
  events_received = none_event;
  owner_loop = false;
}

-- What an `epoll_ctl` asks for, with the pointer in `ev.data`.
pub data Ctl : Type 0 where
  ctl_add : ℕ → ℕ → ℕ → Ctl
  ctl_mod : ℕ → ℕ → ℕ → Ctl
  ctl_del : ℕ → Ctl

-- The events and the pointer that an interest list holds for a descriptor.
abbrev pub Entry : Type 0
Entry = Option (ℕ × ℕ)

-- epoll_ctl(2), while the kernel has the memory for it: a descriptor has one entry; adding fails
-- where there is one, changing and deleting where there is none, and a failed call changes nothing.
pub record Epoll : Type 1 where
  pub Kernel : Type 0
  pub entry : Kernel → ℕ → Entry
  pub ctl : Kernel → Ctl → Kernel
  pub entry-add :
      (k : Kernel) (fd events ptr fd' : ℕ)
      → entry (ctl k (ctl_add fd events ptr)) fd' ≡ (
          if fd' == fd
          then (elim (entry k fd) [ none ↦ some (events, ptr) | some old ↦ some old ])
          else entry k fd')
  pub entry-mod :
      (k : Kernel) (fd events ptr fd' : ℕ)
      → entry (ctl k (ctl_mod fd events ptr)) fd' ≡ (
          if fd' == fd
          then (elim (entry k fd) [ none ↦ none | some old ↦ some (events, ptr) ])
          else entry k fd')
  pub entry-del :
      (k : Kernel) (fd fd' : ℕ)
      → entry (ctl k (ctl_del fd)) fd' ≡ (if fd' == fd then none else entry k fd')

module _ (E : Epoll) where
  -- The calls of `SysPoller` for the IoHandle at an address.
  unfoldable pub add_channel : E.Kernel → ℕ → IoHandle → E.Kernel
  add_channel k c h = E.ctl k (ctl_add h.fd h.events_interested c)

  unfoldable pub remove_channel : E.Kernel → IoHandle → E.Kernel
  remove_channel k h = E.ctl k (ctl_del h.fd)

  unfoldable pub update_channel : E.Kernel → ℕ → IoHandle → E.Kernel
  update_channel k c h = E.ctl k (ctl_mod h.fd h.events_interested c)
