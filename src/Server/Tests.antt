-- ===== src/Server/Tests.antt =====
-- A server with two I/O threads, and the theorems about servers applied to it.
use rpc_framework.Base.{
  ℕ, ◌+◌, ◌≤◌, ◌≡◌, ◌<◌, ◌↔◌, ◌⊎◌, refl, List, [], ◌∷◌, none, some, true, false, arith, codes,
}
use rpc_framework.Base.Int.{ℤ, pos}
use rpc_framework.Addr.{IpNetAddr}
use rpc_framework.Coroutine.{blank}
use rpc_framework.Coroutine.Pool.{find_free, get_coroutine_instanse}
use rpc_framework.Fd.{FdEvent, new_event}
use rpc_framework.Fd.Group
use rpc_framework.Fd.Group.{Indexed, new_events}
use rpc_framework.Loop.{resumes}
use rpc_framework.Server.{AddClient, IoThread, TcpServer, on_accept, add_client}
use rpc_framework.Server.Dealing.{dealt, tasks_at, wakeups_at, on_accept-deals}
use rpc_framework.Config.{default_config}
use rpc_framework.Server.Configured.{on_accept-configured}
use rpc_framework.Server.Clients.{add_client-serves}
use rpc_framework.Server.Startup.{
  Step, Reach, here, next, IoThreadStart, waits_init, looping, creates, makes_loop, posts_init,
  waits_start, Reach-starts,
}
use rpc_framework.Tcp.Connection.{new_connection, by_server}
use rpc_framework.Threads
use rpc_framework.Threads.{round_robin}

abbrev pub addr : IpNetAddr
addr = record { m_ip = codes "0"; m_port = 80 }

abbrev io_thread : IoThread
io_thread = record {
  m_event_loop = record {
    m_thread_id = 1;
    m_listen_fds = [];
    m_pending_tasks = [];
    m_stop_flag = false;
    m_is_looping = true;
    events = new_event;
    epoll_log = [];
    wakeups = 0;
  };
  m_clients = [];
  thread = record {
    t_main_coroutine = some 0;
    t_cur_coroutine = some 0;
    t_cur_run_time = none;
    t_coroutine_count = 2;
    t_cur_coroutine_id = 2;
    cors = λ id. blank 64 1;
  };
  pool = record {
    m_index = 1;
    m_pool_size = 2;
    m_stack_size = 64;
    m_free_cors = (none, false) ∷ (some 1, false) ∷ [];
  };
}

abbrev pub server : TcpServer
server = record {
  m_acceptor = record { m_local_addr = addr; m_is_inet = true; m_listenfd = pos 3 };
  m_local_addr = addr;
  m_io_thread_group = record { m_io_thread_groups = 0 ∷ 1 ∷ []; m_index = 0 };
  m_client_counts = 0;
  m_service_cache = [];
  io_threads = λ id. io_thread;
}

abbrev clients : List (ℤ × IpNetAddr)
clients = (pos 5, addr) ∷ (pos 6, addr) ∷ (pos 7, addr) ∷ []

on_accept-deals_example :
    (ts : List ℕ) × (round_robin (0 ∷ 1 ∷ []) 3 0 ≡ some ts)
    × (s' : TcpServer) × (on_accept clients server ≡ some s')
    × (s'.m_client_counts ≡ 3)
    × (tasks_at 0 s' ≡ dealt server.m_acceptor addr 0 clients ts)
    × (wakeups_at 0 s' ≡ 0)
on_accept-deals_example = on_accept-deals 0 0 clients server (omega arith) refl

add_client-serves_example :
    (grown : List (FdEvent AddClient)) × (io' : IoThread) × (add_client
        (λ id. 64)
        (record { client_fd = pos 5; peer_addr = none; local_addr = some addr })
        (Group.make 2)
        io_thread
      ≡ some (grown, io'))
    × Indexed 0 grown
    × (io'.m_clients ≡ new_connection 5 128 none (some addr) by_server ∷ [])
    × ((io'.thread.cors 1).m_call_back ≡ some 0)
    × (io'.m_event_loop.m_pending_tasks ≡ resumes 1 ∷ [])
    × (io'.m_event_loop.wakeups ≡ 1)
unfolding Group.make new_events new_event get_coroutine_instanse find_free
add_client-serves_example =
    add_client-serves (λ id. 64) 5 1 none (some addr) (Group.make 2) io_thread
      (record io_thread.pool { m_free_cors = (none, false) ∷ (some 1, true) ∷ [] }) io_thread.thread
      (refl, (refl, tt)) (omega arith) refl refl refl

abbrev posted : IoThreadStart
posted = record {
  m_init_semaphore = 1;
  m_start_semaphore = 0;
  m_event_loop = true;
  creator = waits_init;
  main = waits_start;
}

posted-Reach : Reach posted
posted-Reach = next (next (next here (creates refl refl)) (makes_loop refl)) (posts_init refl)

Reach-starts_example :
    (0 ≤ 1)
    × (0 ≤ 0)
    × (1 + 0 ≤ 1)
    × ((waits_start ≡ looping) ⊎ ((t : IoThreadStart) × Step posted t))
Reach-starts_example = Reach-starts posted-Reach

on_accept-configured_example :
    (0 < 2) ↔ ((s' : TcpServer) × (on_accept ((pos 5, addr) ∷ []) server ≡ some s'))
unfolding Threads.make
on_accept-configured_example =
    on_accept-configured 2 (record default_config { m_io_threads = pos 2 }) (pos 5, addr) [] server
      refl refl
