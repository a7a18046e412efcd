-- ===== src/Lib.antt =====
-- Velox: a TCP/IP stack in user space. A program runs with an interceptor library, which sends its
-- socket calls as messages to the daemon veloxd; the daemon answers them, and keeps the protocols.
--
-- The parts, those of the daemon from below:
-- * src/veloxd/base/Csum16.cpp, the Internet checksum, is Csum16: `checksum` sums the words, `fold`
--   is the loop that folds the carries, on three rounds of fuel, which end it from any 32-bit sum.
-- * src/veloxd/ip/Ip.cpp and IpHdr.cpp are Ip: `tx` completes a header, `next_id` is the generator
--   of identifiers. ip/reassembly/Reassembler.cpp is Ip/Reassembler: `defrag` is one call, with its
--   steps as functions; a null pointer that is written through is `none`. Ip/Receiving is the loop of
--   `Ip::start`, Ip/Wire the header as it is read from a packet's bytes.
-- * src/veloxd/interface is Interface: what is written to the TUN device and read from it.
-- * src/veloxd/Session.h and Session.cpp are Session: `find` is `Sessions::find`, which picks the
--   session of an arriving packet. A weak pointer is an index that `lock` may not know.
-- * src/veloxd/tcp is Tcp: the methods of TcpSession return the session, the shared counters, and
--   the calls that they make to the layers below and above as a list of `Action`s. src/veloxd/udp is Udp.
-- * Stack is the receiving path as a whole: a turn of the IP layer's loop, with `Udp::rx`, `Tcp::rx` and what the
--   sessions do, over the sockets of the daemon.
-- * src/veloxd/arbiter/Endpoint.cpp is Endpoint: the receive queue between the thread that receives
--   packets and the event loop, with the pipe that wakes it. Endpoint/Threads has the steps of the
--   two threads as a relation.
-- * src/veloxd/arbiter/RpcDispatch.cpp is Rpc, one function for each request, over the messages and
--   the channel of Messages and the virtual methods of a session in Pcb. A failed assertion is `fails`. Rpc/Sizes adds
--   the assertion of `AgentChannel::write` that an answer fits a message; `ByteSize` is an interface there.
-- * src/veloxd/arbiter/reactor is Poller, for SysPoller.cpp, and Reactor, for EventReactor.cpp and IoHandle.cpp. The
--   kernel's `epoll_ctl` and `epoll_wait` are interfaces with the laws of their manual pages, which Examples/Reactor
--   fills with functions; Reactor/Polling is `SysPoller::poll`, and Arbiter/Turn a turn of the loop over
--   the channels of interceptors. Arbiter.cpp, agent/AgentHub.cpp and the life of an AgentChannel are Arbiter; an
--   access to a destroyed IoHandle is `none`.
-- * src/interceptor is Interceptor: the numbers of descriptors, the table of their channels, the loop
--   that receives an answer, and `poll`, with `select` in Interceptor/Selecting; the C library's are
--   parameters, and a test behind the end of an `fd_set` is `none`. Interceptor/Calls has the other calls, over an
--   exchange of messages that is a parameter there, and `exchange`, which fills it with the daemon's answers, both
--   assertions of its `write` included;
--   Interceptor/Ends has what each call makes of its answer, and Interceptor/Calls/Sending `chan_send` with its
--   assertions, over an interface for the packed size.
-- * src/veloxd/Veloxd.cpp, CfgParser.cpp, Conf.h and base/ShellOp.cpp, with what TunIface.cpp and AgentHub.cpp do
--   before the threads run, are Startup: `main` over the options that the library parses and the answers of the kernel, to a
--   process, an exit or a crash. src/veloxd/Logging.cpp is Logging: the place in a line of the log. The start of a
--   program in src/interceptor/fdchanmap.c and fdpool.c, and `chan_recv` over single reads, are
--   Interceptor/Start.
--
-- Values of 16 and 32 bits are natural numbers with their wrap written out; what the source keeps in
-- network order is the number that a little-endian host reads, and `swap16` and `swap32` are the
-- changes of byte order. Bytes of packets are lists of numbers.
--
-- Outside the model: the concurrent queue is its contents, its `size_approx` a parameter; the
-- parsers and printers of messages are generated code; what the devices and the UNIX sockets give is an
-- input; the sinks of the log and the bodies of the threads' start are calls of libraries. A configuration
-- file is never read by the code. The flag that ends the event loop is left out. Weak pointers of the
-- Endpoint and the channel are taken to be alive.
pub mod Arbiter
pub mod Csum16
pub mod Endpoint
pub mod Examples
pub mod Interceptor
pub mod Interface
pub mod Ip
pub mod Logging
pub mod Messages
pub mod Pcb
pub mod Poller
pub mod Prelude
pub mod Reactor
pub mod Rpc
pub mod Session
pub mod Stack
pub mod Startup
pub mod Tcp
pub mod Udp
