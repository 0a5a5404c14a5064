-- ===== src/Server/Making/Tests.antt =====
-- A configuration and a started group, and the theorems about the server's start applied to them.
use rpc_framework.Base.{List, ◌++◌, ℕ, ◌+◌, ◌≡◌, refl, [], ◌∷◌, none, some, true, arith}
use rpc_framework.Base.Int.{ℤ, pos}
use rpc_framework.Config.{Config, default_config}
use rpc_framework.Coroutine.{switches, blank, resume}
use rpc_framework.Coroutine.Filling.{new_thread}
use rpc_framework.Server.{TcpServer}
use rpc_framework.Server.Making.{MainThread, init, init-accepts}
use rpc_framework.Addr.{IpNetAddr}
use rpc_framework.Server.Dealing.{dealt, tasks_at}
use rpc_framework.Threads.{round_robin}
use rpc_framework.Server.Tests.{addr, server}

abbrev two_threads : Config
two_threads = record default_config { m_io_threads = pos 2 }

abbrev clients : List (ℤ × IpNetAddr)
clients = (pos 8, addr) ∷ (pos 9, addr) ∷ (pos 10, addr) ∷ []

init-accepts_example :
    (s : TcpServer) × (m : MainThread ℕ) × (ts : List ℕ) × (init
        (λ id. id + 64)
        7
        two_threads
        (record { valid = true; socket_rt = pos 3; bind_rt = pos 0; listen_rt = pos 0 })
        addr
        server.io_threads
        clients
        none
        (new_thread (λ id. blank 0 0))
      ≡ some (s, m))
    × (m.m_accept_cor ≡ 1)
    × (m.thread.t_cur_coroutine ≡ some 0)
    × ((m.thread.cors 1).m_is_in_cofunc ≡ true)
    × ((m.thread.cors 1).m_call_back ≡ some 7)
    × ((resume (some 1) m.thread).0 ≡ switches 0 1)
    × (s.m_client_counts ≡ 3)
    × (round_robin (0 ∷ 1 ∷ []) 3 0 ≡ some ts)
    × (tasks_at 1 s
        ≡ (server.io_threads 1).m_event_loop.m_pending_tasks
          ++ dealt
              (record { m_local_addr = addr; m_is_inet = true; m_listenfd = pos 3 })
              addr
              1
              clients
              ts)
unfolding default_config
init-accepts_example =
    init-accepts (λ id. id + 64) 7 two_threads addr server.io_threads clients (λ id. blank 0 0) 3 1
      1 (λ id e. omega (arith, e)) refl
