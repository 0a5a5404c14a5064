-- ===== src/Lib.antt =====
-- RpcFramework/rocket: a library for remote procedure calls in C++, with event loops, timers and
-- coroutines under a protocol that carries protobuf messages.
--
-- A client's call goes through `TcpClient::sendAndRecvTinyPb`, which writes the packets in the out buffer
-- of its `TcpConnection` and reads until the reply with the call's id has come. A server's connection
-- decodes the packets in its in buffer, `RpcDispatcher` serves each, and the replies are encoded into the
-- out buffer. Connections run as coroutines of an `EventLoop`, which waits for descriptors and for its
-- `Timer`. `TcpServer` accepts the connections and deals them to its I/O threads, each with a loop of its
-- own, and the hooks of the system calls let a coroutine wait in its loop where a thread would wait in the
-- kernel. All parts write their messages to the `Logger`.
--
-- The files, each with the code that it models:
--   Base and its children: lists, texts, association lists, integers, and the automation's lemmas.
--   Buffer: net/tcp/tcp_buffer. A record of the vector and its indices; an access outside it is a fault.
--     Buffer/Laws and Buffer/Moves prove what each operation does, Buffer/Queue that it is a queue.
--   Coder: net/coder. Coder is the encoder, Coder/Decoder the decoder; Coder/Located and Coder/Fields are
--     lemmas on positions and fields, Coder/Search is about the search for a packet, and Coder/RoundTrip,
--     Coder/Waiting, Coder/Misreads and Coder/Divergence are the theorems. Coder/Strings is the string coder.
--   Addr: net/tcp/net_addr.
--   Rpc: net/rpc and common/error_code.h. Rpc/Dispatcher is `RpcDispatcher`, with proofs in Rpc/Dispatch,
--     Rpc/Controller is `RpcController`, Rpc/Registry is `RpcRegistry`, Rpc/Channel is `RpcChannel`, with
--     its making in Rpc/Channel/Making and proofs in Rpc/Calls.
--   Fd and Fd/Group: net/fd_event and net/fd_event_group.
--   Threads: net/io_thread_group.
--   Timer: net/timer and net/timer_event, with proofs in Timer/Order and Timer/Runs.
--   MsgId: common/msg_util.
--   Loop: net/eventloop, Loop/Making its constructor, with proofs in Loop/Epoll and Loop/Rounds.
--   Coroutine: coroutine/coroutine, Coroutine/Pool: coroutine/coroutine_pool, with proofs in
--     Coroutine/Switching, Coroutine/Growth and Coroutine/Filling. Coroutine/Lifecycle: `CoFunction`, with
--     proofs in Coroutine/Lifecycle/Flags.
--   Hook: coroutine/coroutine_hook, with proofs in Hook/Running, Hook/Waiting (`accept`, `read` and `write`),
--     Hook/Connecting (`connect`) and Hook/Epoll.
--   Server: net/tcp/tcp_server, net/tcp/tcp_acceptor and `addClient` of net/io_thread, with proofs in
--     Server/Dealing, Server/Clients and Server/Services. Server/Startup: the two threads of net/io_thread, and
--     Server/Shutdown: their end, with proofs in Server/Shutdown/Invariant and Server/Shutdown/Ending.
--     Server/Configured: the number of threads. Server/Making: `init` and `start`.
--   Config: common/config.
--   Mutex: common/mutex.h, with proofs in Mutex/Scopes.
--   Log: common/log, Log/Async its asynchronous logger, with proofs in Log/Delivery, Log/Draining,
--     Log/Rolling, Log/Stopping and Log/Levels. Log/Making: `InitGlobalLogger`. Log/Startup: the asynchronous logger's
--     constructor and its thread.
--   Tcp: Tcp/Connection is net/tcp/tcp_connection, Tcp/Listening its setters, Tcp/Rounds its coroutine, and
--     Tcp/Client is net/tcp/tcp_client, with Tcp/Client/Making, and with proofs in Tcp/Reading, Tcp/Writing,
--     Tcp/Serving, Tcp/Calling, Tcp/Stranded and Tcp/Closing. Tcp/Turns, Tcp/Sessions, Tcp/Fragments,
--     Tcp/NewConnections, Tcp/Losing and Tcp/RoundTrip put a client, a server and the dispatcher together.
--   Each Tests module holds inputs and the theorems applied to them.
--
-- Functions and fields keep their names, in snake case. State is passed along; shared objects (timer
-- events, descriptors, coroutines) live in stores, by an identity. `none` as the result of an operation
-- that cannot fail in the code is undefined behaviour: an access outside a vector or array, or an `int`
-- that overflows. Bytes are numbers below 256.
--
-- What the system calls return, and what `epoll_wait` reports, are lists of results, one for each call;
-- when such a list ends, the coroutine waits or the loop is looked at no further. The one function on
-- fuel is `decode`, as one unit for each turn of its loop; `decode-packets` says how much is enough, and
-- two theorems give bytes for which nothing is. Buffers for which the decoder is shown right are below
-- 2 GB and have room behind their bytes. A buffer that is written to has a write index that stays at
-- most 1431655765 (`write_limit`): beyond it the code's `int` sums overflow as it grows.
--
-- `epoll_ctl` may refuse to add a descriptor, and closed ones leave the kernel's set; a deletion of a
-- descriptor that is in the set does not fail. What POSIX leaves undefined, as `sem_destroy` of a
-- semaphore that is still to be waited for, ends what is said of a run.
--
-- Threads are interleaved as sequences of steps. What is done under a mutex is one step. In the code a scope
-- that is unlocked early unlocks its mutex again at its end: nothing is stated of the runs in which that
-- second unlock meets another thread's lock.
--
-- Protobuf's services, `atoi`, `std::to_string`, `inet_addr`, the random bytes and the clock are
-- arguments, and so are XML documents, POSIX's mutexes, the addresses of stacks, and what the file system
-- says. Not modelled are: the set-up of sockets but for the acceptor's; the destruction of loops and
-- clients, which only calls the system; loggers of the type 0; `formatString`, which is
-- `snprintf`; the switch of registers, in assembly; and the generated messages.
pub mod Base
pub mod Buffer
pub mod Coder
pub mod Addr
pub mod Rpc
pub mod Fd
pub mod Threads
pub mod Timer
pub mod MsgId
pub mod Config
pub mod Hook
pub mod Server
pub mod Mutex
pub mod Log
pub mod Loop
pub mod Coroutine
pub mod Tcp
