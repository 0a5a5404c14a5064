-- ===== src/Tcp/Rounds.antt =====
-- RpcFramework/rocket/net/tcp/tcp_connection.cpp: the coroutine of a server's connection, turn by turn.
use rpc_framework.Base.{ℕ, List, [], ◌∷◌, ◌++◌, Option, some, ◌>>=◌, Bool, true, not, if◌then◌else◌}
use rpc_framework.Loop.{EventLoop}
use rpc_framework.Rpc.Dispatcher.{RunTime, ServiceMap}
use rpc_framework.Tcp.Connection.{
  TcpConnection, ReadResult, on_read, WriteResult, on_write, excute_server,
}

-- What the connection's coroutine works on, with the bytes that the socket has taken. `is_waiting` tells
-- that a system call does not return.
pub record Turn (C World : Type 0) : Type 0 where
  pub connection : TcpConnection
  pub loop : EventLoop C
  pub run_time : RunTime
  pub world : World
  pub sent : List ℕ
  pub is_waiting : Bool

module _ {C Method Message World : Type 0} (services : ServiceMap Method Message World)
    (thread fuel : ℕ) where
  -- One turn: `onRead`, `excute` and `onWrite` on the results of the system calls. Behind a call that does
  -- not return nothing more is done.
  unfoldable pub server_turn :
      List ReadResult × List (WriteResult × Bool) → Turn C World → Option (Turn C World)
  server_turn (read_results, write_results) t = do
    read ← on_read thread read_results t.connection t.loop
    let after : Turn C World = record t { connection = read.1; loop = read.2 }
    if not read.0 then some (record after { is_waiting = true }) else do
      done ← excute_server services fuel read.1 t.run_time t.world
      wrote ← on_write write_results done.0
      some (record after {
        connection = wrote.2;
        run_time = done.1;
        world = done.2;
        sent = t.sent ++ wrote.0;
        is_waiting = not wrote.1;
      })

  -- `MainServerLoopCorFunc`, until `m_stop`, or a turn that waits.
  unfoldable pub main_server_loop :
      List (List ReadResult × List (WriteResult × Bool)) → Turn C World → Option (Turn C World)
  unfolding server_turn
  main_server_loop [] t = some t
  main_server_loop (r ∷ results) t =
      let next = server_turn r t >>= main_server_loop results in
      if t.connection.m_stop then some t else if t.is_waiting then some t else next
