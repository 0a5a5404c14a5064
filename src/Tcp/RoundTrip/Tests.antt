-- ===== src/Tcp/RoundTrip/Tests.antt =====
-- Idle connections and a request, and the theorems about whole calls and turns applied to them.
use rpc_framework.Base.{
  ℕ, ◌≡◌, refl, List, [], ◌∷◌, some, true, false, length, replicate, arith, lookup, text_eq,
}
use rpc_framework.Addr.{split_first}
use rpc_framework.Buffer.{TcpBuffer, CanTake, readable}
use rpc_framework.Coder.{TinyPbProtocol, packet, packet_size, net_bytes, int_length}
use rpc_framework.Coder.RoundTrip.{AllSendable, packets}
use rpc_framework.Coder.Tests.{ping, ping-IsSendable}
use rpc_framework.Rpc.Dispatcher.{dispatch, invoke, parse_service_full_name, set_tiny_pb_error}
use rpc_framework.Rpc.Tests.{services, idle}
use rpc_framework.Tcp.Connection.{ends, reads, closed, TcpConnection, by_server}
use rpc_framework.Tcp.Rounds.{main_server_loop, Turn, server_turn}
use rpc_framework.Tcp.RoundTrip.{its_reply}
use rpc_framework.Tcp.Closing.{main_server_loop-ends}
use rpc_framework.Tcp.Fragments.{first_piece, main_server_loop-assembles}
use rpc_framework.Tcp.Turns.{IsIdle, receives, takes}
use rpc_framework.Tcp.Tests.{waiting, client_loop}

abbrev empty_buffer : TcpBuffer
empty_buffer = record {
  m_read_index = 0;
  m_write_index = 0;
  m_size = 64;
  m_buffer = replicate 64 0;
}

abbrev client_side : TcpConnection
client_side = record waiting { m_in_buffer = empty_buffer; m_out_buffer = empty_buffer }

abbrev pub server_side : Turn ℕ ℕ
server_side = record {
  connection = record client_side { m_connection_type = by_server };
  loop = client_loop;
  run_time = idle;
  world = 5;
  sent = [];
  is_waiting = false;
}

abbrev pub ping_reply : TinyPbProtocol
ping_reply = its_reply services 1 ping client_side client_loop server_side

server-IsIdle : IsIdle (length (packets (ping ∷ []))) server_side.connection
unfolding packet packet_size net_bytes
server-IsIdle = record {
  inbox = record {
    open_in = record {
      valid = record { ordered = omega arith; within = omega arith };
      room = omega arith;
      small = omega arith;
    };
    nothing_in = refl;
    room = omega arith;
  };
  writable = record {
    valid = record { ordered = omega arith; within = omega arith };
    in_time = refl;
    state = refl;
  };
  nothing_out = refl;
}

pub reply-AllSendable : AllSendable (ping_reply ∷ [])
unfolding dispatch invoke parse_service_full_name split_first lookup text_eq set_tiny_pb_error
    packet_size
reply-AllSendable = (
  record {
    id_fits = record { short = omega arith; no_nul = ground arith };
    name_fits = record { short = omega arith; no_nul = ground arith };
    info_fits = record { short = omega arith; no_nul = tt };
    code_fits = omega arith;
    size_fits = omega arith;
  },
  tt,
)

main_server_loop-ends_example :
    (t' : Turn ℕ ℕ) × (main_server_loop services 1 1
        ((ends ∷ [], []) ∷ (reads 3 [] ∷ [], []) ∷ [])
        server_side
      ≡ some t')
    × (t'.connection.m_stop ≡ true)
    × (t'.connection.m_state ≡ closed)
    × (t'.sent ≡ [])
    × (t'.world ≡ 5)
main_server_loop-ends_example =
    main_server_loop-ends services 1 [] ((reads 3 [] ∷ [], []) ∷ []) server_side refl refl refl
      server-IsIdle.inbox.open_in refl server-IsIdle.writable.valid

-- The request's rest behind its length and five more bytes.
abbrev ping_back : List ℕ
ping_back =
    0 ∷ 0 ∷ 0 ∷ 3 ∷ 65 ∷ 46 ∷ 98 ∷ 0 ∷ 0 ∷ 0 ∷ 0 ∷ 0 ∷ 0 ∷ 0 ∷ 0 ∷ 7 ∷ 0 ∷ 0 ∷ 0 ∷ 1 ∷ 3 ∷ []

abbrev ping_body : List ℕ
ping_body = 0 ∷ 0 ∷ 0 ∷ 1 ∷ 49 ∷ []

reply-CanTake : CanTake (length (packets (ping_reply ∷ []))) server_side.connection.m_out_buffer
unfolding dispatch invoke parse_service_full_name split_first lookup text_eq set_tiny_pb_error
    packet packet_size net_bytes
reply-CanTake = record {
  valid = record { ordered = omega arith; within = omega arith };
  small = omega arith;
}

main_server_loop-assembles_example :
    (t1 t2 : Turn ℕ ℕ) × (server_turn services 1 2
        (receives (first_piece ping ping_body), [])
        server_side
      ≡ some t1)
    × (main_server_loop services 1 2
          ((receives (first_piece ping ping_body), [])
            ∷ (receives ping_back, takes (packets (ping_reply ∷ [])))
            ∷ [])
          server_side
        ≡ some t2)
    × (t1.sent ≡ [])
    × (t2.sent ≡ packets (ping_reply ∷ []))
    × (readable t2.connection.m_in_buffer ≡ [])
    × (t2.world ≡ 6)
unfolding packet packet_size net_bytes int_length dispatch invoke parse_service_full_name
    split_first lookup text_eq set_tiny_pb_error
main_server_loop-assembles_example =
    main_server_loop-assembles services 1 ping ping_body ping_back server_side server-IsIdle refl
      refl refl (omega arith) (ground arith) (ping-IsSendable, tt) reply-AllSendable reply-CanTake
