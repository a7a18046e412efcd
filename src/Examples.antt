-- ===== src/Examples.antt =====
-- The theorems at concrete inputs, and runs of the code.
mod Network
mod Transport
mod Daemon
mod Wrappers
mod Delivery
mod Reactor
mod Agents
mod Startup
mod Streams
