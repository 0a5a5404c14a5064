-- ===== src/Rpc/Calls/Tests.antt =====
-- A call that is answered, and the theorem about calls applied to it.
use rpc_framework.Base.{
  ℕ, ◌≡◌, refl, List, [], ◌∷◌, Option, none, some, true, false, lookup, insert_new, text_eq, drop,
}
use rpc_framework.Buffer.{
  make, write_to_buffer, move_read_index, adjust_buffer, resize_buffer, copy_from, copy_into,
  move_write_index, in_buffer,
}
use rpc_framework.Base.Int.{pos}
use rpc_framework.Coder.{packet, packet_size, net_bytes, encode, encode_tiny_pb, int_length}
use rpc_framework.Coder.RoundTrip.{packets}
use rpc_framework.Coder.Tests.{ping}
use rpc_framework.Coder.Decoder.{
  decode, decode_round, find_packet, packet_at, packet_end, parse_fields, string_field, c_string,
  get_int32_from_net_byte, net_int,
}
use rpc_framework.Rpc.Controller.{new_controller, failed, set_local_addr, set_peer_addr, get_msg_id}
use rpc_framework.Rpc.Channel.{
  Messages, CallState, choose_id, take_reply, take_result, send_request, call_method,
}
use rpc_framework.Rpc.Calls.{IsSettled, call_method-IsSettled}
use rpc_framework.Tcp.Client.{Exchange, send_and_recv_tiny_pb, exchange, reply_loop}
use rpc_framework.Tcp.Connection.{
  reads, writes, on_read, read_loop, make_room, on_write, write_loop, excute_client, keep_replies,
  get_res_package_data,
}
use rpc_framework.Tcp.Tests.{client, client_loop, waiting}

-- Messages are their bytes.
abbrev bytes : Messages (List ℕ) (List ℕ)
bytes = record {
  serialize_to_string = λ request. (true, request);
  parse_from_string = λ response text. (true, text);
}

abbrev calling : CallState ℕ (List ℕ)
calling = record {
  controller = record new_controller { m_msg_id = 49 ∷ [] };
  response = [];
  ids = record { t_msg_id_no = []; t_max_msg_id_no = [] };
  client = record client {
    m_connection = record waiting { m_in_buffer = make 64; m_out_buffer = make 64 };
  };
  loop = client_loop;
  has_run = false;
  waiting = false;
}

-- The server takes the request's 31 bytes and sends the packet of `ping`.
abbrev answered : Exchange
answered = record {
  connects = [];
  write_results = (writes 31, false) ∷ [];
  write_fired = false;
  rounds = ((reads 2 (drop 1 (packets (ping ∷ []))) ∷ []), false) ∷ [];
  new_fd = pos 5;
  strerror = [];
}

abbrev state_of : Option (CallState ℕ (List ℕ)) → CallState ℕ (List ℕ)
state_of none = calling
state_of (some s) = s

abbrev run : Option (CallState ℕ (List ℕ))
run = call_method bytes 1 3 none answered none none true true ping.m_method_name (7 ∷ []) calling

run_lem :
    (run ≡ some (state_of run)) × ((state_of run).has_run ≡ true) × ((state_of run).waiting ≡ false)
unfolding call_method choose_id send_request take_result take_reply send_and_recv_tiny_pb exchange
    reply_loop on_read read_loop make_room on_write write_loop excute_client keep_replies
    get_res_package_data lookup insert_new text_eq encode encode_tiny_pb packet packet_size
    net_bytes int_length write_to_buffer copy_from copy_into resize_buffer adjust_buffer
    move_read_index move_write_index in_buffer decode decode_round find_packet packet_at packet_end
    parse_fields string_field c_string get_int32_from_net_byte net_int make set_local_addr
    set_peer_addr get_msg_id
run_lem = (refl, refl, refl)

call_method-IsSettled_example : IsSettled (state_of run)
unfolding failed
call_method-IsSettled_example =
    call_method-IsSettled bytes 1 3 none answered none none true ping.m_method_name (7 ∷ []) calling
      (state_of run) (record { ready = refl; not_run = refl }) run_lem.0 run_lem.2
