-- ===== src/Rpc/Calls.antt =====
-- rpc_channel.cpp: how a call through a channel ends.
pub mod Tests
use rpc_framework.Base.{
  ℕ, bind-some, ◌≡◌, ◌≢◌, ◌⊎◌, inl, inr, List, [], ◌∷◌, Option, none, some, ◌>>=◌, Bool, true,
  false, not, refl, if◌then◌else◌, get_elem?, ◌==◌, arith,
}
use rpc_framework.Base.Int.{ℤ, pos, negsuc}
use rpc_framework.Addr.{IpNetAddr}
use rpc_framework.Coder.{TinyPbProtocol, new_message, encode}
use rpc_framework.Loop.{EventLoop}
use rpc_framework.MsgId.{MsgIds, gen_msg_id}
use rpc_framework.Rpc.Controller.{
  RpcController, set_local_addr, set_peer_addr, set_msg_id, get_msg_id, set_error, failed,
  get_error_code,
}
use rpc_framework.Rpc.Channel.{
  Messages, CallState, is_zero, choose_id, fails_with, take_reply, take_result, send_request,
  call_method,
}
use rpc_framework.Tcp.Client.{TcpClient, Exchange, send_and_recv_tiny_pb}

-- What a finished call shows: success with the closure run, or an error with a code that is not 0 and
-- the closure not run.
abbrev pub IsSettled : {C Response : Type 0} → CallState C Response → Type 0
IsSettled s =
    ((s.has_run ≡ true) × (failed s.controller ≡ false))
    ⊎ ((s.has_run ≡ false) × (failed s.controller ≡ true) × (get_error_code s.controller ≢ pos 0))

-- A call that is still to be made.
pub record IsNew {C Response : Type 0} (s : CallState C Response) : Type 0 where
  pub ready : failed s.controller ≡ false
  pub not_run : s.has_run ≡ false

is_zero_lem : (z : ℤ) → not (is_zero z) ≡ true → z ≢ pos 0
is_zero_lem (pos n) e = ground arith
is_zero_lem (negsuc n) e = ground arith

choose_id-ready :
    (random : Option (List ℕ)) (c : RpcController) (ids : MsgIds) (chosen : RpcController × MsgIds)
    → failed c ≡ false
    → choose_id random c ids ≡ some chosen
    → failed chosen.0 ≡ false
unfolding choose_id failed set_msg_id get_msg_id
choose_id-ready random c ids chosen h e = ground (arith, h, e)

module _ {C Request Response : Type 0} (messages : Messages Request Response) where
  take_reply-IsSettled :
      (res : TinyPbProtocol) (s : CallState C Response)
      → IsNew s
      → IsSettled (take_reply messages true res s)
  unfolding take_reply set_error failed get_error_code
  take_reply-IsSettled res s n = ground (arith, n.ready, n.not_run, is_zero_lem res.m_err_code)

  take_result-IsSettled :
      (code : Option ℕ) (reply : Option TinyPbProtocol) (s t : CallState C Response)
      → IsNew s
      → take_result messages true code reply s ≡ some t
      → t.waiting ≡ false
      → IsSettled t
  unfolding take_result set_error failed get_error_code
  take_result-IsSettled none reply s t n e w = absurd (ground (arith, e, w))
  take_result-IsSettled (some rt) none s t n e w = ground (arith, n.not_run, e)
  take_result-IsSettled (some rt) (some res) s t n e w =
      ground (arith, n.not_run, e, take_reply-IsSettled res s n)

  send_request-IsSettled :
      (thread fuel : ℕ) (x : Exchange) (req : TinyPbProtocol) (s t : CallState C Response)
      → IsNew s
      → send_request messages thread fuel x true req s ≡ some t
      → t.waiting ≡ false
      → IsSettled t
  unfolding send_request
  send_request-IsSettled thread fuel x req s t n e w =
      let (encoded, f, e1) = bind-some (encode (req ∷ []) s.client.m_connection.m_out_buffer) _ e in
      let client' : TcpClient = record s.client {
        m_connection = record s.client.m_connection { m_out_buffer = encoded.1 };
      } in
      let (sent, g, e2) = bind-some (get_elem? encoded.0 0) _ e1 in
      let (r, h, e3) =
        bind-some (send_and_recv_tiny_pb thread fuel x sent.m_msg_id client' s.loop) _ e2 in
      take_result-IsSettled r.0 r.1 (record s { client = r.2; loop = r.3 }) t
        (record { ready = n.ready; not_run = n.not_run }) e3 w

  -- A new call that finishes, with a closure given, shows success with the closure run, or an
  -- error whose code is not 0 with the closure not run, whichever of its steps fails.
  pub call_method-IsSettled :
      (thread fuel : ℕ) (random : Option (List ℕ)) (x : Exchange) (local peer : Option IpNetAddr)
      (is_init : Bool) (full_name : List ℕ) (request : Request) (s t : CallState C Response)
      → IsNew s
      → call_method messages thread fuel random x local peer is_init true full_name request s
        ≡ some t
      → t.waiting ≡ false
      → IsSettled t
  unfolding call_method set_error failed get_error_code set_local_addr set_peer_addr
  call_method-IsSettled thread fuel random x local peer is_init full_name request s t n e w =
      let (chosen, f, e1) =
        bind-some (choose_id random (set_peer_addr peer (set_local_addr local s.controller)) s.ids)
          _ e in
      let ready =
        choose_id-ready random (set_peer_addr peer (set_local_addr local s.controller)) s.ids chosen
          n.ready f in
      let s' : CallState C Response = record s { controller = chosen.0; ids = chosen.1 } in
      let req : TinyPbProtocol = record new_message {
        m_msg_id = get_msg_id chosen.0;
        m_method_name = full_name;
        m_pb_data = (messages.serialize_to_string request).1;
      } in
      ground (
        arith,
        e1,
        w,
        n.not_run,
        send_request-IsSettled thread fuel x req s' t
            (record { ready = ready; not_run = n.not_run }),
      )
