-- ===== src/Tcp/Losing/Tests.antt =====
-- 130 bytes on a new connection, and the theorem about lost bytes applied to them.
use rpc_framework.Base.{ℕ, ◌≡◌, refl, [], ◌∷◌, none, some, replicate, arith}
use rpc_framework.Buffer.{readable}
use rpc_framework.Rpc.Tests.{services, idle}
use rpc_framework.Tcp.Connection.{reads, new_connection, by_server}
use rpc_framework.Tcp.Losing.{new_connection-loses}
use rpc_framework.Tcp.RoundTrip.Tests.{server_side}
use rpc_framework.Tcp.Rounds.{Turn, server_turn}

abbrev new_side : Turn ℕ ℕ
new_side = record server_side { connection = new_connection 4 128 none none by_server }

new_connection-loses_example :
    (t' : Turn ℕ ℕ) × (server_turn services 1 1
        (reads 2 (replicate 127 7) ∷ reads 1 (3 ∷ []) ∷ [], [])
        new_side
      ≡ some t')
    × (t'.sent ≡ [])
    × (t'.world ≡ 5)
    × (t'.run_time ≡ idle)
    × (readable t'.connection.m_in_buffer ≡ 1 ∷ 3 ∷ [])
new_connection-loses_example =
    new_connection-loses services 1 0 2 1 (replicate 127 7) (3 ∷ []) 4 none none new_side refl refl
      (omega arith) (ground arith)
