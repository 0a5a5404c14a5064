-- ===== src/Tcp/RoundTrip.antt =====
-- tcp_connection.cpp, tinypb_coder.cpp and rpc_dispatcher.cpp together: a request goes from a client's
-- connection to a server's and its reply comes back.
pub mod Tests
use rpc_framework.Base.{
  ℕ, zero, suc, ◌+◌, ◌-◌, ◌<◌, ◌≡◌, ◌≢◌, refl, ap, sym, ◌∙◌, List, [], ◌∷◌, ◌++◌, Option, none,
  some, ◌>>=◌, Bool, true, false, not, if◌then◌else◌, length, arith, lookup, append-nil,
  length-append,
}
use rpc_framework.Buffer.{TcpBuffer, IsValid, CanTake, readable}
use rpc_framework.Buffer.Laws.{length-readable}
use rpc_framework.Coder.{TinyPbProtocol, new_message, encode, packet, packet_size, or_default}
use rpc_framework.Coder.Decoder.{returns, decode}
use rpc_framework.Coder.Fields.{arrived}
use rpc_framework.Coder.RoundTrip.{
  IsOpen, named, AllSendable, packets, decode-packets, encode-readable,
}
use rpc_framework.Loop.{EventLoop}
use rpc_framework.Rpc.Dispatcher.{RunTime, ServiceMap, dispatch}
use rpc_framework.Rpc.Dispatch.{dispatch-keeps_id}
use rpc_framework.Tcp.Connection.{
  TcpConnection, connected, ReadResult, reads, again, leaves, WriteResult, writes, on_read,
  read_loop, on_write, serve, excute_server, excute_client, get_res_package_data,
}
use rpc_framework.Tcp.Reading.{read_loop-appends}
use rpc_framework.Tcp.Rounds.{Turn, server_turn}
use rpc_framework.Tcp.Serving.{excute_server-buffers, get_res_package_data-arrived}
use rpc_framework.Tcp.Writing.{IsWritable, on_write-all}
use rpc_framework.Tcp.Turns.{
  IsIdle, receives, takes, send_all, on_read-receives, packets_pos, answer, server_turn-answers,
}

module _ {C Method Message World : Type 0} (services : ServiceMap Method Message World)
    (thread : ℕ) where
  -- A request from a client's connection to a server's and back: the client encodes and writes it, the
  -- bytes arrive at the server, whose turn writes `n` bytes, and these arrive at the client, which decodes
  -- them and looks for its reply.
  unfoldable pub remote_call :
      TinyPbProtocol
      → ℕ
      → TcpConnection
      → EventLoop C
      → Turn C World
      → Option (Option TinyPbProtocol × World)
  remote_call m n c l t = do
    encoded ← encode (m ∷ []) c.m_out_buffer
    wrote ← on_write (takes (readable encoded.1)) (record c { m_out_buffer = encoded.1 })
    turn ← server_turn services thread 2 (receives wrote.0, (writes n, false) ∷ []) t
    read ← on_read thread (receives turn.sent) wrote.2 l
    done ← excute_client 2 read.1
    some ((get_res_package_data (named m).m_msg_id done).0, turn.world)

or_default_twice : (id : List ℕ) → or_default (or_default id) ≡ or_default id
or_default_twice [] = refl
or_default_twice (c ∷ cs) = refl

module _ {C Method Message World : Type 0} (services : ServiceMap Method Message World) (thread : ℕ)
    (m : TinyPbProtocol) (c : TcpConnection) (l : EventLoop C) (t : Turn C World) where
  abbrev pub its_reply : TinyPbProtocol
  its_reply = (answer services thread m t).0

  reply-named : (named its_reply).m_msg_id ≡ (named m).m_msg_id
  reply-named =
      ap or_default
        (dispatch-keeps_id services (arrived (named m)) new_message t.connection.m_local_addr
          t.connection.m_peer_addr t.run_time t.world).0
      ∙ or_default_twice m.m_msg_id

  -- Between idle connections with room for the packets, in their out buffers, too, a sendable request that has no reply yet is served
  -- as `dispatch` serves it: the client gets the server's reply, unchanged, and the world is what the
  -- handler leaves.
  pub remote_call-replies :
      IsIdle (length (packets (its_reply ∷ []))) c
      → CanTake (length (packets (m ∷ []))) c.m_out_buffer
      → IsIdle (length (packets (m ∷ []))) t.connection
      → CanTake (length (packets (its_reply ∷ []))) t.connection.m_out_buffer
      → t.sent ≡ []
      → AllSendable (m ∷ [])
      → AllSendable (its_reply ∷ [])
      → lookup (named m).m_msg_id c.m_reply_msg ≡ none
      → remote_call services thread m (length (packets (its_reply ∷ []))) c l t
        ≡ some (some (arrived (named its_reply)), (answer services thread m t).2)
  unfolding remote_call
  remote_call-replies i room j fits s h k none_yet =
      let (sent, x, e, v, q, _g) = encode-readable (m ∷ []) c.m_out_buffer room h in
      let c1 : TcpConnection = record c { m_out_buffer = x } in
      let bytes : readable x ≡ packets (m ∷ []) =
        q ∙ ap (λ z. z ++ packets (m ∷ [])) i.nothing_out in
      let wrote =
        send_all (packets (m ∷ [])) c1 (packets_pos m)
          (record { valid = v; in_time = i.writable.in_time; state = i.writable.state }) bytes in
      let (t', f, g, w) = server_turn-answers services thread m t j fits s h k in
      let (b, r, o, n) =
        on_read-receives thread l (packets (its_reply ∷ [])) c1 (packets_pos its_reply)
          i.writable.state i.inbox in
      let c2 : TcpConnection = record c1 { m_in_buffer = b } in
      let (d, d', p, u, z) =
        get_res_package_data-arrived its_reply c2 o k n
          (ap (λ z. lookup z c.m_reply_msg) reply-named ∙ none_yet) in
      let found : get_res_package_data (named m).m_msg_id d
          ≡ (some (arrived (named its_reply)), d') =
        ap (λ z. get_res_package_data z d) (sym reply-named) ∙ u in
      rw (e, bytes, wrote, f, g, r, p, found, w) refl
