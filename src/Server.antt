-- ===== src/Server.antt =====
-- RpcFramework/rocket/net/tcp/tcp_server.cpp, tcp_acceptor.cpp and RpcFramework/rocket/net/io_thread.cpp:
-- the main thread accepts clients and deals them to the I/O threads, each with its own loop, coroutines
-- and connections. What the system calls return is an argument; the table of FdEventGroup is passed along.
pub mod Dealing
pub mod Clients
pub mod Configured
pub mod Services
pub mod Startup
pub mod Making
pub mod Shutdown
pub mod Tests
use rpc_framework.Base.{
  ℕ, ◌+◌, ◌-◌, List, [], ◌∷◌, ◌++◌, Option, none, some, ◌>>=◌, Bool, true, false, not, ◌==◌,
  if◌then◌else◌, length, get_elem?, insert,
}
use rpc_framework.Base.Int.{ℤ, pos, negsuc}
use rpc_framework.Addr.{IpNetAddr}
use rpc_framework.Coroutine.{Thread, set_call_back}
use rpc_framework.Coroutine.Pool.{CoroutinePool, get_coroutine_instanse}
use rpc_framework.Fd.{FdEvent}
use rpc_framework.Fd.Group.{get_fd_event}
use rpc_framework.Loop.{EventLoop, Task, calls, add_task, add_coroutine}
use rpc_framework.Rpc.Registry.{AllService, addrs_of}
use rpc_framework.Tcp.Connection.{TcpConnection, new_connection, by_server}
use rpc_framework.Threads.{IoThreadGroup, get_io_thread}
use rpc_framework.Timer.{update}

abbrev is_negative : ℤ → Bool
is_negative (pos n) = false
is_negative (negsuc n) = true

abbrev is_zero : ℤ → Bool
is_zero (pos n) = n == 0
is_zero (negsuc n) = false

pub record TcpAcceptor : Type 0 where
  pub m_local_addr : IpNetAddr
  pub m_is_inet : Bool
  pub m_listenfd : ℤ

-- The constructor, with whether the address is valid and the results of `socket`, `bind` and `listen`;
-- none is `exit(0)`. A `setsockopt` that fails is only logged.
unfoldable pub make_acceptor : IpNetAddr → Bool → ℤ → ℤ → ℤ → Option TcpAcceptor
make_acceptor local_addr valid socket_rt bind_rt listen_rt =
    let acceptor : TcpAcceptor = record {
      m_local_addr = local_addr;
      m_is_inet = true;
      m_listenfd = socket_rt;
    } in
    if not valid
    then none
    else if is_negative socket_rt
    then none
    else if not (is_zero bind_rt)
    then none
    else if not (is_zero listen_rt)
    then none
    else some acceptor

-- `toAccept` on what `accept` returns and the address that it fills in.
unfoldable pub to_accept : ℤ × IpNetAddr → TcpAcceptor → ℤ × Option IpNetAddr
to_accept (client_fd, peer_addr) a =
    if a.m_is_inet then (client_fd, some peer_addr) else (negsuc 0, none)

-- The callback `cb` of `onAccept`, for the thread whose loop gets it.
pub record AddClient : Type 0 where
  pub client_fd : ℤ
  pub peer_addr : Option IpNetAddr
  pub local_addr : Option IpNetAddr

-- A coroutine's callback is `MainServerLoopCorFunc` of a connection, by its place in `m_clients`.
pub record IoThread : Type 0 where
  pub m_event_loop : EventLoop AddClient
  pub m_clients : List TcpConnection
  pub thread : Thread ℕ
  pub pool : CoroutinePool

pub record TcpServer : Type 0 where
  pub m_acceptor : TcpAcceptor
  pub m_local_addr : IpNetAddr
  pub m_io_thread_group : IoThreadGroup
  pub m_client_counts : ℕ
  pub m_service_cache : AllService
  pub io_threads : ℕ → IoThread

-- One turn of `onAccept`.
unfoldable pub accept_one : ℤ × IpNetAddr → TcpServer → Option TcpServer
unfolding to_accept
accept_one result s = do
  chosen ← get_io_thread s.m_io_thread_group
  let re = to_accept result s.m_acceptor
  let io_thread = s.io_threads chosen.0
  let cb : AddClient = record {
    client_fd = re.0;
    peer_addr = re.1;
    local_addr = some s.m_local_addr;
  }
  let queued = record io_thread {
    m_event_loop = add_task (calls (some cb)) false io_thread.m_event_loop;
  }
  some (record s {
    m_client_counts = s.m_client_counts + 1;
    m_io_thread_group = chosen.1;
    io_threads = update s.io_threads chosen.0 queued;
  })

-- `onAccept`, over what `accept` returns, until it waits.
unfoldable pub on_accept : List (ℤ × IpNetAddr) → TcpServer → Option TcpServer
on_accept [] s = some s
on_accept (result ∷ results) s = accept_one result s >>= on_accept results

-- `addClient`, with the constructor of the connection: the table of events and the thread.
unfoldable pub add_client :
    (ℕ → ℕ)
    → AddClient
    → List (FdEvent AddClient)
    → IoThread
    → Option (List (FdEvent AddClient) × IoThread)
add_client stack cb group io_thread = do
  found ← get_fd_event cb.client_fd group
  taken ← get_coroutine_instanse stack io_thread.pool io_thread.thread
  let conn = new_connection found.0.m_fd 128 cb.peer_addr cb.local_addr by_server
  let set = set_call_back taken.0 (some (length io_thread.m_clients)) taken.2
  let added : IoThread = record {
    m_event_loop = add_coroutine taken.0 true io_thread.m_event_loop;
    m_clients = io_thread.m_clients ++ conn ∷ [];
    thread = set.1;
    pool = taken.1;
  }
  some (found.1, added)

unfoldable pub update_service : List ℕ → List (List ℕ) → TcpServer → TcpServer
update_service service_name addr s = record s {
  m_service_cache = insert service_name addr s.m_service_cache;
}

-- `operator[]` makes the entry of an unknown service.
unfoldable pub get_service_all_addr : List ℕ → TcpServer → List (List ℕ) × TcpServer
get_service_all_addr service_name s =
    let addrs = addrs_of s.m_service_cache service_name in
    (addrs, record s { m_service_cache = insert service_name addrs s.m_service_cache })

-- The uniform distribution from 0 to its bound is an argument. Without an address the bound wraps to -1,
-- below 0, which the distribution does not allow: none.
unfoldable pub get_service_with_load_balance :
    (ℕ → ℕ) → List ℕ → TcpServer → Option (List ℕ × TcpServer)
unfolding get_service_all_addr
get_service_with_load_balance dis service_name s =
    let got = get_service_all_addr service_name s in
    if length got.0 == 0
    then none
    else (get_elem? got.0 (dis (length got.0 - 1)) >>= λ addr. some (addr, got.1))
