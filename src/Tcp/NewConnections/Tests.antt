-- ===== src/Tcp/NewConnections/Tests.antt =====
-- Connections that were just made, and the theorems about them applied to these.
use rpc_framework.Base.{none, List, ℕ, ◌≡◌, refl, [], ◌∷◌, some, length, arith, lookup, text_eq}
use rpc_framework.Addr.{split_first}
use rpc_framework.Coder.{packet, packet_size, net_bytes}
use rpc_framework.Coder.RoundTrip.{packets}
use rpc_framework.Coder.Tests.{ping, ping-IsSendable}
use rpc_framework.Rpc.Dispatcher.{dispatch, invoke, parse_service_full_name, set_tiny_pb_error}
use rpc_framework.Rpc.Tests.{services}
use rpc_framework.Tcp.Rounds.{Turn}
use rpc_framework.Tcp.RoundTrip.Tests.{server_side}
use rpc_framework.Fd.{FdEvent, new_event}
use rpc_framework.Fd.Group
use rpc_framework.Fd.Group.{new_events}
use rpc_framework.Base.Int.{pos}
use rpc_framework.Coder.Fields.{arrived}
use rpc_framework.Tcp.Connection.{new_connection, by_server, connected}
use rpc_framework.Tcp.Client.{TcpClient}
use rpc_framework.Tcp.Client.Making.{new_client}
use rpc_framework.Tcp.NewConnections.{new_client-calls}
use rpc_framework.Tcp.RoundTrip.{remote_call}
use rpc_framework.Tcp.RoundTrip.Tests.{ping_reply, reply-AllSendable}
use rpc_framework.Tcp.Tests.{client_loop}

abbrev new_side : Turn ℕ ℕ
new_side = record server_side { connection = new_connection 4 128 none none by_server }

new_client-calls_example :
    (client : TcpClient) × (grown : List (FdEvent ℕ)) × (new_client (pos 5) none [] (Group.make 2)
      ≡ some (some client, grown))
    × (client.m_connection.m_fd_event ≡ 5)
    × (remote_call services 1 ping
          (length (packets (ping_reply ∷ [])))
          (record client.m_connection { m_state = connected })
          client_loop
          new_side
        ≡ some (some (arrived (record ping { m_pb_data = 1 ∷ [] })), 6))
unfolding packet packet_size net_bytes dispatch invoke parse_service_full_name split_first lookup
    text_eq set_tiny_pb_error new_connection Group.make new_events new_event
new_client-calls_example =
    new_client-calls services 1 ping [] 5 4 none none none (Group.make 2) client_loop new_side
      (refl, (refl, tt)) (omega arith) refl refl (omega arith) (omega arith) (ping-IsSendable, tt)
      reply-AllSendable
