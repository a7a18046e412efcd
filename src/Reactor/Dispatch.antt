-- ===== src/Reactor/Dispatch.antt =====
-- src/veloxd/arbiter/reactor/IoHandle.cpp, `handleEventsReceived`: the callbacks that a poll's events run,
-- in their order. The masks are those of poll(2).
use velox_project.Prelude.{
  ℕ, Bool, not, ◌&&◌, List, [], ◌∷◌, ◌++◌, bit_and, bit_or, ◌!=◌, if◌then◌else◌,
}

abbrev pub pollin : ℕ
pollin = 1

abbrev pub pollpri : ℕ
pollpri = 2

abbrev pub pollout : ℕ
pollout = 4

abbrev pub pollerr : ℕ
pollerr = 8

abbrev pub pollhup : ℕ
pollhup = 16

abbrev pub pollnval : ℕ
pollnval = 32

abbrev pub pollrdhup : ℕ
pollrdhup = 0x2000

pub data Event : Type 0 where
  on_close on_error on_read on_write : Event

-- Which of `onReadFunc` and the others are set.
pub record Callbacks : Type 0 where
  pub on_read_func : Bool
  pub on_write_func : Bool
  pub on_close_func : Bool
  pub on_error_func : Bool

abbrev pub closes : ℕ → Bool
closes revents = bit_and revents pollhup != 0 && not (bit_and revents pollin != 0)

abbrev pub reads : ℕ → Bool
reads revents = bit_and revents (bit_or (bit_or pollin pollpri) pollrdhup) != 0

abbrev pub fires : Bool → Event → List Event
fires b e = if b then e ∷ [] else []

-- The callbacks that `handleEventsReceived` calls.
unfoldable pub events_of : Callbacks → ℕ → List Event
events_of cb revents =
    fires (closes revents && cb.on_close_func) on_close
    ++ (fires (bit_and revents (bit_or pollerr pollnval) != 0 && cb.on_error_func) on_error
        ++ (fires (reads revents && cb.on_read_func) on_read
            ++ fires (bit_and revents pollout != 0 && cb.on_write_func) on_write))
