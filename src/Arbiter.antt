-- ===== src/Arbiter.antt =====
-- src/veloxd/arbiter/Arbiter.cpp, agent/AgentHub.cpp, and of agent/AgentChannel.cpp what concerns the event
-- loop: the channels of the interceptors, from the accepted connection to the end of file. An address in memory
-- is a number, and a channel is known by that of its IoHandle.
pub mod Accepting
pub mod Alive
pub mod Closing
pub mod Steady
pub mod Kept
pub mod Batch
pub mod Turn
use velox_project.Prelude.{
  ℕ, Bool, true, false, not, Option, none, some, List, [], ◌∷◌, ◌++◌, ◌==◌, if◌then◌else◌,
}
use velox_project.Poller.{Epoll}
use velox_project.Reactor
use velox_project.Reactor.{Loop}
use velox_project.Reactor.Dispatch.{
  Event, on_close, on_error, on_read, on_write, Callbacks, events_of,
}

-- An AgentChannel: its IoHandle, its descriptor, and the notify pipe's IoHandle of its Endpoint.
pub record Agent : Type 0 where
  pub handle : ℕ
  pub fd : ℕ
  pub notify : Option ℕ

-- A connection that `accept` has returned, with the address that the new IoHandle gets.
pub record Connection : Type 0 where
  pub handle : ℕ
  pub connfd : ℕ

-- What a `read` of a message comes to: nothing yet, the end of file, or a request; of a request, the
-- Endpoint that `socketCall` made for it and whether the answer could be written.
pub record Made : Type 0 where
  pub notify : ℕ
  pub pipe_fd : ℕ

pub data Input : Type 0 where
  would_block : Input
  eof : Input
  request : Option Made → Bool → Input

unfoldable pub new_agent : Connection → Agent
new_agent conn = record { handle = conn.handle; fd = conn.connfd; notify = none }

-- `list::remove_if`, and the entry that it drops.
unfoldable pub remove_if : ℕ → List Agent → List Agent
remove_if c [] = []
remove_if c (a ∷ rest) = let rest' = remove_if c rest in if a.handle == c then rest' else a ∷ rest'

unfoldable pub agent_of : ℕ → List Agent → Option Agent
agent_of c [] = none
agent_of c (a ∷ rest) = let found = agent_of c rest in if a.handle == c then some a else found

unfoldable pub set_notify : ℕ → ℕ → List Agent → List Agent
set_notify c n [] = []
set_notify c n (a ∷ rest) =
    let rest' = set_notify c n rest in
    if a.handle == c then record a { notify = some n } ∷ rest' else a ∷ rest'

-- The callbacks that the constructor of AgentChannel sets.
abbrev pub agent_callbacks : Callbacks
agent_callbacks = record {
  on_read_func = true;
  on_write_func = false;
  on_close_func = true;
  on_error_func = false;
}

module _ (E : Epoll) where
  -- `live` tells the IoHandles that have not been destroyed.
  pub record Arbiter : Type 0 where
    pub loop : Loop E
    pub live : ℕ → Bool
    pub rr_channels : List Agent

  unfoldable pub set_live : Arbiter → ℕ → Bool → Arbiter
  set_live w c b = record w { live = λ p. if p == c then b else w.live p }

  -- A new IoHandle that is interested in reading.
  unfoldable pub new_reading_handle : Arbiter → ℕ → ℕ → Arbiter
  unfolding set_live
  new_reading_handle w c fd =
      let w' = set_live w c true in
      record w' { loop = Reactor.enable_reading E (Reactor.construct E w.loop c fd) c }

  unfoldable pub destroy_handle : Arbiter → ℕ → Arbiter
  unfolding set_live
  destroy_handle w c =
      let w' = set_live w c false in record w' { loop = Reactor.destroy E w.loop c }

  -- Registered with the event loop, which is then its owner.
  unfoldable pub register : Arbiter → ℕ → Arbiter
  register w c = record w {
    loop = Reactor.set_owner_event_reactor E (Reactor.add_channel E w.loop c) c;
  }

  unfoldable pub add_rr_channel : Arbiter → Agent → Arbiter
  add_rr_channel w a = record w { rr_channels = w.rr_channels ++ (a ∷ []) }

  -- The callback of `onNewConnection`.
  unfoldable pub on_new_connection : Arbiter → Connection → Arbiter
  unfolding new_reading_handle add_rr_channel register new_agent
  on_new_connection w conn =
      register (add_rr_channel (new_reading_handle w conn.handle conn.connfd) (new_agent conn))
        conn.handle

  -- `AgentHub::Impl::onReadReady`: every connection that is waiting.
  unfoldable pub accept_all : Arbiter → List Connection → Arbiter
  unfolding on_new_connection
  accept_all w [] = w
  accept_all w (conn ∷ conns) = accept_all (on_new_connection w conn) conns

  unfoldable pub destroy_notify : Arbiter → Option ℕ → Arbiter
  unfolding destroy_handle
  destroy_notify w none = w
  destroy_notify w (some n) = destroy_handle w n

  -- `~AgentChannel`: unregistered, then its Endpoint goes, then its IoHandle.
  unfoldable pub destroy_agent : Arbiter → Option Agent → Arbiter
  unfolding destroy_notify destroy_handle
  destroy_agent w none = w
  destroy_agent w (some a) =
      let w' = record w { loop = Reactor.unregister_self E w.loop a.handle } in
      destroy_handle (destroy_notify w' a.notify) a.handle

  -- `removeRRChannel`. The list holds the last reference when the callback has returned, so the
  -- channel is destroyed then.
  unfoldable pub remove_rr_channel : Arbiter → ℕ → Arbiter
  unfolding destroy_agent remove_if agent_of
  remove_rr_channel w c =
      destroy_agent (record w { rr_channels = remove_if c w.rr_channels })
        (agent_of c w.rr_channels)

  unfoldable pub notify_of : Option Agent → Option ℕ
  notify_of none = none
  notify_of (some a) = a.notify

  -- `socketCall`: the Endpoint of the request takes the place of the one before it, which is destroyed, and is
  -- registered.
  unfoldable pub with_endpoint : Arbiter → ℕ → Option Made → Arbiter
  unfolding new_reading_handle set_notify destroy_notify register notify_of agent_of
  with_endpoint w c none = w
  with_endpoint w c (some m) =
      let w' = new_reading_handle w m.notify m.pipe_fd in
      register
        (destroy_notify (record w' { rr_channels = set_notify c m.notify w.rr_channels })
          (notify_of (agent_of c w.rr_channels)))
        m.notify

  -- `AgentChannel::Impl::onReadReady`; a failed write unregisters the channel.
  unfoldable pub on_read_ready : Arbiter → ℕ → Input → Arbiter
  unfolding remove_rr_channel with_endpoint
  on_read_ready w c would_block = w
  on_read_ready w c eof = remove_rr_channel w c
  on_read_ready w c (request made written) =
      let w' = with_endpoint w c made in
      if written then w' else record w' { loop = Reactor.unregister_self E w'.loop c }

  -- A callback of an AgentChannel; `onPeerWritingClose` is the one for the close event.
  unfoldable pub callback : Arbiter → ℕ → Input → Event → Arbiter
  unfolding on_read_ready remove_rr_channel
  callback w c input on_read = on_read_ready w c input
  callback w c input on_close = remove_rr_channel w c
  callback w c input _ = w

  -- The callbacks in their order, and the write to `handlingEvents` behind them. Each access to the IoHandle needs
  -- it alive: `none` is an access to a destroyed one.
  unfoldable pub run_events : Arbiter → ℕ → Input → List Event → Option Arbiter
  unfolding callback
  run_events w c input [] = if w.live c then some w else none
  run_events w c input (e ∷ events) =
      let rest = run_events (callback w c input e) c input events in if w.live c then rest else none

  -- `handleEventsReceived` of an AgentChannel's IoHandle.
  unfoldable pub handle_events_received : Arbiter → ℕ → ℕ → Input → Option Arbiter
  unfolding run_events events_of
  handle_events_received w c revents input =
      run_events w c input (events_of agent_callbacks revents)

  -- `EventReactor::loop`: one batch of active AgentChannels.
  unfoldable pub run_actives : Arbiter → List (ℕ × ℕ × Input) → Option Arbiter
  unfolding handle_events_received
  run_actives w [] = some w
  run_actives w ((c, revents, input) ∷ actives) = elim (handle_events_received w c revents input) [
    | none ↦ none
    | some w' ↦ run_actives w' actives
  ]
