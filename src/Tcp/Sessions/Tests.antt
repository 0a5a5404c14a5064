-- ===== src/Tcp/Sessions/Tests.antt =====
-- Two requests on one connection, and the theorem about sessions applied to them.
use rpc_framework.Base.{ℕ, ◌≡◌, refl, [], ◌∷◌, some, length, arith, lookup, text_eq}
use rpc_framework.Addr.{split_first}
use rpc_framework.Buffer.{CanTake, readable}
use rpc_framework.Coder.{packet, packet_size, net_bytes}
use rpc_framework.Coder.RoundTrip.{AllSendable, packets}
use rpc_framework.Coder.Tests.{ping, ping-IsSendable}
use rpc_framework.Rpc.Dispatcher.{dispatch, invoke, parse_service_full_name, set_tiny_pb_error}
use rpc_framework.Rpc.Tests.{services}
use rpc_framework.Tcp.Connection.{serve}
use rpc_framework.Tcp.Rounds.{main_server_loop, Turn}
use rpc_framework.Tcp.RoundTrip.Tests.{server_side}
use rpc_framework.Tcp.Sessions.{resent, at_once, one_by_one, main_server_loop-serves}
use rpc_framework.Tcp.Turns.{HasRoom}

server-HasRoom : HasRoom (length (packets (ping ∷ ping ∷ []))) server_side.connection.m_in_buffer
unfolding packet packet_size net_bytes
server-HasRoom = record {
  open_in = record {
    valid = record { ordered = omega arith; within = omega arith };
    room = omega arith;
    small = omega arith;
  };
  nothing_in = refl;
  room = omega arith;
}

pub replies-AllSendable : AllSendable (at_once services 1 (ping ∷ ping ∷ []) server_side).0
unfolding serve dispatch invoke parse_service_full_name split_first lookup text_eq set_tiny_pb_error
    packet_size
replies-AllSendable = (
  record {
    id_fits = record { short = omega arith; no_nul = ground arith };
    name_fits = record { short = omega arith; no_nul = ground arith };
    info_fits = record { short = omega arith; no_nul = tt };
    code_fits = omega arith;
    size_fits = omega arith;
  },
  (
    record {
      id_fits = record { short = omega arith; no_nul = ground arith };
      name_fits = record { short = omega arith; no_nul = ground arith };
      info_fits = record { short = omega arith; no_nul = tt };
      code_fits = omega arith;
      size_fits = omega arith;
    },
    tt,
  ),
)

replies-CanTake :
    CanTake
      (length (packets (at_once services 1 (ping ∷ ping ∷ []) server_side).0))
      server_side.connection.m_out_buffer
unfolding serve dispatch invoke parse_service_full_name split_first lookup text_eq set_tiny_pb_error
    packet packet_size net_bytes
replies-CanTake = record {
  valid = record { ordered = omega arith; within = omega arith };
  small = omega arith;
}

main_server_loop-serves_example :
    (t' : Turn ℕ ℕ) × (main_server_loop services 1 2
        (one_by_one services 1 [] (ping ∷ ping ∷ []) server_side)
        server_side
      ≡ some t')
    × (t'.run_time ≡ (at_once services 1 (ping ∷ ping ∷ []) server_side).1)
    × (t'.world ≡ 7)
    × (readable t'.connection.m_in_buffer ≡ [])
    × (readable t'.connection.m_out_buffer
        ≡ packets (at_once services 1 (ping ∷ ping ∷ []) server_side).0)
    × (t'.sent ≡ resent [] (at_once services 1 (ping ∷ ping ∷ []) server_side).0)
unfolding serve dispatch invoke parse_service_full_name split_first lookup text_eq set_tiny_pb_error
main_server_loop-serves_example =
    main_server_loop-serves services 1 (ping ∷ ping ∷ []) [] server_side server-HasRoom
      (record {
        valid = record { ordered = omega arith; within = omega arith };
        in_time = refl;
        state = refl;
      })
      refl refl refl (ping-IsSendable, (ping-IsSendable, tt)) replies-AllSendable replies-CanTake
