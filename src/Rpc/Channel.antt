-- ===== src/Rpc/Channel.antt =====
-- RpcFramework/rocket/net/rpc/rpc_channel.h and rpc_channel.cpp: a client's call through its channel.
-- The protobuf messages and what the system calls return are arguments.
pub mod Making
use rpc_framework.Base.{
  ℕ, List, [], ◌∷◌, Option, none, some, ◌>>=◌, Bool, true, false, not, if◌then◌else◌, codes, ◌==◌,
  get_elem?,
}
use rpc_framework.Base.Int.{ℤ, pos}
use rpc_framework.Addr.{IpNetAddr}
use rpc_framework.Coder.{TinyPbProtocol, new_message, encode}
use rpc_framework.Loop.{EventLoop}
use rpc_framework.MsgId.{MsgIds, gen_msg_id}
use rpc_framework.Rpc.Controller.{
  RpcController, set_local_addr, set_peer_addr, set_msg_id, get_msg_id, set_error,
}
use rpc_framework.Rpc.Errors.{
  error_rpc_channel_init, error_failed_serialize, error_failed_deserialize,
}
use rpc_framework.Tcp.Client.{TcpClient, Exchange, send_and_recv_tiny_pb}

-- `SerializeToString` and `ParseFromString` with what they leave in their target.
pub record Messages (Request Response : Type 0) : Type 0 where
  pub serialize_to_string : Request → Bool × List ℕ
  pub parse_from_string : Response → List ℕ → Bool × Response

-- The objects that a call changes. `has_run` tells that the closure was run, and `waiting` that the
-- coroutine waits inside the call.
pub record CallState (C Response : Type 0) : Type 0 where
  pub controller : RpcController
  pub response : Response
  pub ids : MsgIds
  pub client : TcpClient
  pub loop : EventLoop C
  pub has_run : Bool
  pub waiting : Bool

-- The id of the request: the controller's, or a new one, which the controller gets.
unfoldable pub choose_id :
    Option (List ℕ) → RpcController → MsgIds → Option (RpcController × MsgIds)
choose_id random controller ids = elim (get_msg_id controller) [
  | [] ↦ do made ← gen_msg_id random ids; some (set_msg_id made.0 controller, made.1)
  | c ∷ cs ↦ some (controller, ids)
]

-- `m_err_code == 0`
abbrev pub is_zero : ℤ → Bool
is_zero (pos n) = n == 0
is_zero other = false

module _ {C Request Response : Type 0} (messages : Messages Request Response) where
  abbrev pub fails_with : ℤ → List ℕ → CallState C Response → CallState C Response
  fails_with code info s = record s { controller = set_error code info s.controller }

  -- The part behind a reply that has arrived: the closure is run where there is one.
  unfoldable pub take_reply : Bool → TinyPbProtocol → CallState C Response → CallState C Response
  take_reply has_closure res s =
      let parsed = messages.parse_from_string s.response res.m_pb_data in
      let s' : CallState C Response = record s { response = parsed.1 } in
      if not parsed.0
      then fails_with (pos error_failed_deserialize)
          (codes "failed to deserialize data from server") s'
      else if not (is_zero res.m_err_code)
      then fails_with res.m_err_code res.m_err_info s'
      else record s' { has_run = has_closure }

  -- What `sendAndRecvTinyPb` gives: its code, where it returned, and the reply.
  unfoldable pub take_result :
      Bool → Option ℕ → Option TinyPbProtocol → CallState C Response → Option (CallState C Response)
  unfolding take_reply
  take_result has_closure none reply s = some (record s { waiting = true })
  take_result has_closure (some rt) reply s =
      if not (rt == 0)
      then some (fails_with (pos rt) s.client.m_connect_error_info s)
      else do res ← reply; some (take_reply has_closure res s)

  -- The part from the encoding on, for a message with its payload. The coder may name the message.
  unfoldable pub send_request :
      ℕ
      → ℕ
      → Exchange
      → Bool
      → TinyPbProtocol
      → CallState C Response
      → Option (CallState C Response)
  unfolding take_result
  send_request thread fuel x has_closure req s = do
    let c = s.client.m_connection
    encoded ← encode (req ∷ []) c.m_out_buffer
    let client' = record s.client { m_connection = record c { m_out_buffer = encoded.1 } }
    sent ← get_elem? encoded.0 0
    r ← send_and_recv_tiny_pb thread fuel x sent.m_msg_id client' s.loop
    take_result has_closure r.0 r.1 (record s { client = r.2; loop = r.3 })

  -- `CallMethod`. The coder marks every message as encoded, so `ERROR_FAILED_ENCODE` is never set.
  unfoldable pub call_method :
      ℕ
      → ℕ
      → Option (List ℕ)
      → Exchange
      → Option IpNetAddr
      → Option IpNetAddr
      → Bool
      → Bool
      → List ℕ
      → Request
      → CallState C Response
      → Option (CallState C Response)
  unfolding choose_id send_request
  call_method thread fuel random x local peer is_init has_closure full_name request s = do
    chosen ← choose_id random (set_peer_addr peer (set_local_addr local s.controller)) s.ids
    let s' : CallState C Response = record s { controller = chosen.0; ids = chosen.1 }
    let payload = messages.serialize_to_string request
    let req = record new_message {
      m_msg_id = get_msg_id chosen.0;
      m_method_name = full_name;
      m_pb_data = payload.1;
    }
    if not is_init
        then some (fails_with (pos error_rpc_channel_init) (codes "RpcChannel not init") s')
        else if not payload.0
        then some (fails_with (pos error_failed_serialize) (codes "failed to serialize") s')
        else send_request thread fuel x has_closure req s'
