-- ===== src/Tcp/Tests.antt =====
-- Connections and what arrives on them, and the theorems about connections and clients applied to them.
use rpc_framework.Base.{
  ℕ, ◌≡◌, ◌⊎◌, refl, List, [], ◌∷◌, ◌++◌, Option, none, some, true, false, arith, lookup, text_eq,
  length, ◌≤◌,
}
use rpc_framework.Base.Int.{pos}
use rpc_framework.Addr.{split_first}
use rpc_framework.Buffer.{TcpBuffer, CanTake, readable}
use rpc_framework.Coder.{TinyPbProtocol, packet, packet_size, net_bytes}
use rpc_framework.Coder.Fields.{arrived, IsSendable}
use rpc_framework.Coder.RoundTrip.{IsOpen, AllSendable, packets}
use rpc_framework.Coder.Tests.{ping, pong, inbox, ping-IsSendable, inbox-IsOpen}
use rpc_framework.Fd.{new_event}
use rpc_framework.Loop.{EventLoop}
use rpc_framework.Rpc.Dispatcher.{dispatch, invoke, parse_service_full_name, set_tiny_pb_error}
use rpc_framework.Rpc.Tests.{services, idle}
use rpc_framework.Rpc.Errors.{error_peer_closed, error_rpc_call_timeout}
use rpc_framework.Tcp.Connection.{
  TcpConnection, connected, by_server, by_client, reads, ends, ReadEnd, leaves, read_loop,
  make_room, on_read, on_write, write_loop, serve, excute_server, excute_client,
  get_res_package_data, clear,
}
use rpc_framework.Tcp.Reading.{left_buffer, read_loop-IsOpen, read_loop-appends}
use rpc_framework.Tcp.Serving.{served_by, excute_server-replies, get_res_package_data-arrived}
use rpc_framework.Tcp.Stranded.{send_and_recv_tiny_pb-strands}
use rpc_framework.Tcp.Client.{
  TcpClient, Exchange, send_and_recv_tiny_pb, exchange, reply_loop, err_deal,
}
use rpc_framework.Tcp.Calling.{send_and_recv_tiny_pb-EndsWell}

-- A server's connection on which two requests have arrived.
abbrev server : TcpConnection
server = record {
  m_local_addr = none;
  m_peer_addr = none;
  m_in_buffer = inbox (packets (ping ∷ pong ∷ []));
  m_out_buffer = inbox [];
  m_fd_event = 4;
  m_state = connected;
  m_stop = false;
  m_is_over_time = false;
  m_connection_type = by_server;
  m_reply_msg = [];
}

-- A client's connection on which the answer has arrived.
abbrev pub waiting : TcpConnection
waiting = record server { m_in_buffer = inbox (packets (ping ∷ [])); m_connection_type = by_client }

get_res_package_data-arrived_example :
    (d d' : TcpConnection) × (excute_client 2 waiting ≡ some d)
    × (get_res_package_data (49 ∷ []) d ≡ (some (arrived ping), d'))
    × ((get_res_package_data (49 ∷ []) d').0 ≡ none)
unfolding lookup packet packet_size net_bytes
get_res_package_data-arrived_example =
    get_res_package_data-arrived ping waiting (inbox-IsOpen (packets (ping ∷ [])) (omega arith))
      (ping-IsSendable, tt) refl refl

-- A buffer with the unread bytes 1 and 2 and room for two more.
abbrev roomy : TcpBuffer
roomy = record { m_read_index = 0; m_write_index = 2; m_size = 4; m_buffer = 1 ∷ 2 ∷ 0 ∷ 0 ∷ [] }

roomy-IsOpen : IsOpen roomy
roomy-IsOpen = record {
  valid = record { ordered = omega arith; within = omega arith };
  room = omega arith;
  small = omega arith;
}

read_loop-appends_example :
    (c : TcpBuffer) × (read_loop (reads 3 [] ∷ []) roomy ≡ some (leaves false true c))
    × IsOpen c
    × (readable c ≡ 1 ∷ 2 ∷ 3 ∷ [])
    × (c.m_write_index ≤ 3)
    × (length c.m_buffer ≡ 4)
read_loop-appends_example = read_loop-appends 3 [] [] roomy roomy-IsOpen (omega arith)

abbrev after_close : ReadEnd
after_close = leaves true false roomy

read_loop-IsOpen_example :
    IsOpen (left_buffer after_close)
    × ((more : List ℕ) × (readable (left_buffer after_close) ≡ (1 ∷ 2 ∷ []) ++ more))
unfolding read_loop make_room
read_loop-IsOpen_example = read_loop-IsOpen (ends ∷ []) roomy after_close roomy-IsOpen refl

served_fits : AllSendable (served_by services server (ping ∷ pong ∷ []) idle 5).0
unfolding serve dispatch invoke parse_service_full_name split_first lookup text_eq set_tiny_pb_error
    packet_size
served_fits = (
  record {
    id_fits = record { short = omega arith; no_nul = ground arith };
    name_fits = record { short = omega arith; no_nul = ground arith };
    info_fits = record { short = omega arith; no_nul = tt };
    code_fits = omega arith;
    size_fits = omega arith;
  },
  (
    record {
      id_fits = record { short = omega arith; no_nul = ground arith };
      name_fits = record { short = omega arith; no_nul = ground arith };
      info_fits = record { short = omega arith; no_nul = ground arith };
      code_fits = omega arith;
      size_fits = omega arith;
    },
    tt,
  ),
)

pong-IsSendable : IsSendable pong
unfolding packet_size
pong-IsSendable = record {
  id_fits = record { short = omega arith; no_nul = ground arith };
  name_fits = record { short = omega arith; no_nul = ground arith };
  info_fits = record { short = omega arith; no_nul = tt };
  code_fits = omega arith;
  size_fits = omega arith;
}

replies-CanTake :
    CanTake
      (length (packets (served_by services server (ping ∷ pong ∷ []) idle 5).0))
      server.m_out_buffer
unfolding serve dispatch invoke parse_service_full_name split_first lookup text_eq set_tiny_pb_error
    packet packet_size net_bytes
replies-CanTake = record {
  valid = record { ordered = omega arith; within = omega arith };
  small = omega arith;
}

excute_server-replies_example :
    (d : TcpConnection) × (excute_server services 3 server idle 5
      ≡ some (
        d,
        (served_by services server (ping ∷ pong ∷ []) idle 5).1,
        (served_by services server (ping ∷ pong ∷ []) idle 5).2,
      ))
    × (readable d.m_in_buffer ≡ [])
    × (readable d.m_out_buffer ≡ packets (served_by services server (ping ∷ pong ∷ []) idle 5).0)
unfolding packet packet_size net_bytes
excute_server-replies_example =
    excute_server-replies services (ping ∷ pong ∷ []) server idle 5
      (inbox-IsOpen (packets (ping ∷ pong ∷ [])) (omega arith)) replies-CanTake
      (ping-IsSendable, (pong-IsSendable, tt)) refl served_fits

-- A client with a connection on which the reply to "1" is still to be read, or the peer closes.
abbrev pub client : TcpClient
client = record {
  m_fd = pos 4;
  m_connection = record waiting { m_in_buffer = inbox [] };
  m_connect_error_code = 0;
  m_connect_error_info = [];
  peer_addr_text = [];
  timer_pending = false;
  reopened = 0;
}

abbrev pub client_loop : EventLoop ℕ
client_loop = record {
  m_thread_id = 1;
  m_listen_fds = 4 ∷ [];
  m_pending_tasks = [];
  m_stop_flag = false;
  m_is_looping = true;
  events = new_event;
  epoll_log = [];
  wakeups = 0;
}

abbrev pub closing : Exchange
closing = record {
  connects = [];
  write_results = [];
  write_fired = false;
  rounds = ((ends ∷ []), false) ∷ [];
  new_fd = pos 5;
  strerror = [];
}

abbrev client_of :
    Option (Option ℕ × Option TinyPbProtocol × TcpClient × EventLoop ℕ) → TcpClient × EventLoop ℕ
client_of none = (client, client_loop)
client_of (some out) = (out.2, out.3)

abbrev left : TcpClient × EventLoop ℕ
left = client_of (send_and_recv_tiny_pb 1 3 closing (49 ∷ []) client client_loop)

closing_run :
    send_and_recv_tiny_pb 1 3 closing (49 ∷ []) client client_loop
    ≡ some (some error_peer_closed, none, left.0, left.1)
unfolding send_and_recv_tiny_pb exchange reply_loop err_deal on_read read_loop make_room on_write
    write_loop clear get_res_package_data lookup
closing_run = refl

send_and_recv_tiny_pb-EndsWell_example :
    ((error_peer_closed ≡ error_peer_closed) ⊎ (error_peer_closed ≡ error_rpc_call_timeout))
    × (left.0.m_connect_error_code ≡ error_peer_closed)
    × (left.0.reopened ≡ 1)
    × (left.0.m_fd ≡ pos 5)
send_and_recv_tiny_pb-EndsWell_example =
    send_and_recv_tiny_pb-EndsWell 1 3 closing (49 ∷ []) client client_loop
      (some error_peer_closed, none, left.0, left.1) closing_run

send_and_recv_tiny_pb-strands_example : (left.0.m_fd ≡ pos 5) × (left.0.m_connection.m_fd_event ≡ 4)
send_and_recv_tiny_pb-strands_example =
    send_and_recv_tiny_pb-strands 1 3 closing (49 ∷ []) client left.0 client_loop left.1 none
      error_peer_closed closing_run (λ e. omega (arith, e))
