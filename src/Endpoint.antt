-- ===== src/Endpoint.antt =====
-- src/veloxd/arbiter/Endpoint.cpp: a socket of the daemon. The queue is the concurrent queue's
-- contents in order; `size_approx` is what that library answers for its length. The notify pipe is the
-- number of its unread bytes.
pub mod Queue
pub mod Threads
pub mod Wakeup
pub mod Order
pub mod Filling
use velox_project.Prelude.{
  ℕ, ◌+◌, Bool, true, false, Option, none, some, List, [], ◌∷◌, ◌++◌, ltb, if◌then◌else◌,
}

pub data EndpointType : Type 0 where
  udp tcp : EndpointType

-- What `setOnAsyncNewPacketCB` stores: `onAsyncNewUdpPacket` with `require_addr`, or
-- `onAsyncNewTcpPacket`.
pub data Callback : Type 0 where
  on_udp : Bool → Callback
  on_tcp : Callback

-- An entry of the queue: `sockaddr_in`, and the payloads of the chain of FrameBufs.
pub record Received : Type 0 where
  pub peer_addr : ℕ
  pub peer_port : ℕ
  pub frames : List (List ℕ)

pub record Endpoint : Type 0 where
  pub kind : EndpointType
  pub nonblocking : Bool
  pub new_packet_notify_pipe : ℕ
  pub waiting : Bool
  pub on_async_new_packet : Option Callback
  pub recv_q : List Received

unfoldable pub new_endpoint : EndpointType → Bool → Endpoint
new_endpoint t isnonblocking = record {
  kind = t;
  nonblocking = isnonblocking;
  new_packet_notify_pipe = 0;
  waiting = false;
  on_async_new_packet = none;
  recv_q = [];
}

unfoldable pub set_waiting : Endpoint → Bool → Endpoint
set_waiting e v = record e { waiting = v }

unfoldable pub set_on_async_new_packet_cb : Endpoint → Callback → Endpoint
set_on_async_new_packet_cb e cb = record e { on_async_new_packet = some cb }

abbrev pub recv_q_limit : ℕ
recv_q_limit = 128

-- `putToRecvQ` up to the write: the Endpoint, and whether `markSChannelAsReadable` is next.
unfoldable pub enqueue : (List Received → ℕ) → Endpoint → Received → Endpoint × Bool
enqueue size_approx e r =
    if ltb recv_q_limit (size_approx e.recv_q)
    then (e, false)
    else (record e { recv_q = e.recv_q ++ (r ∷ []) }, true)

-- A nonblocking write of one byte; a full pipe, of `capacity` bytes, takes none.
unfoldable pub mark_s_channel_as_readable : ℕ → Endpoint → Endpoint
mark_s_channel_as_readable capacity e =
    if ltb e.new_packet_notify_pipe capacity
    then record e { new_packet_notify_pipe = e.new_packet_notify_pipe + 1 }
    else e

-- `putToRecvQ`.
unfoldable pub put_to_recv_q : (List Received → ℕ) → ℕ → Endpoint → Received → Endpoint
unfolding enqueue mark_s_channel_as_readable
put_to_recv_q size_approx capacity e r =
    let (e', marks) = enqueue size_approx e r in
    if marks then mark_s_channel_as_readable capacity e' else e'

-- `try_takeFromRecvQ`, and `takeFromRecvQ`, for which `none` is that it blocks.
unfoldable pub take_front : Endpoint → List Received → Option (Endpoint × Received)
take_front e [] = none
take_front e (r ∷ rest) = some (record e { recv_q = rest }, r)

unfoldable pub try_take_from_recv_q : Endpoint → Option (Endpoint × Received)
unfolding take_front
try_take_from_recv_q e = take_front e e.recv_q

-- The read loop of `sChannelReadCb`: until the pipe is empty.
unfoldable pub drain_pipe : Endpoint → Endpoint
drain_pipe e = record e { new_packet_notify_pipe = 0 }

-- The rest of it. `blocks` is a callback that waits for a packet that is not there.
pub data ReadCb : Type 0 where
  idle : Endpoint → ReadCb
  calls_back : Endpoint → Callback → Received → ReadCb
  blocks : ReadCb

pub run_callback : Endpoint → Option Callback → Option (Endpoint × Received) → ReadCb
run_callback e none taken = idle (record e { waiting = false })
run_callback e (some cb) none = blocks
run_callback e (some cb) (some (e', r)) = calls_back (record e' { waiting = false }) cb r

unfoldable pub call_back : Endpoint → ReadCb
unfolding run_callback try_take_from_recv_q
call_back e =
    if e.waiting then run_callback e e.on_async_new_packet (try_take_from_recv_q e) else idle e

-- `sChannelReadCb`, when no packet arrives in between.
unfoldable pub s_channel_read_cb : Endpoint → ReadCb
unfolding call_back drain_pipe
s_channel_read_cb e = call_back (drain_pipe e)
