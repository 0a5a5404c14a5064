-- ===== src/Tcp/Serving.antt =====
-- tcp_connection.cpp: a server answers the requests that have arrived, and a client finds its reply.
use rpc_framework.Base.{
  ℕ, ◌+◌, ◌≤◌, suc, ◌≡◌, refl, List, [], ◌∷◌, ◌++◌, Option, none, some, length, map, lookup, erase,
  insert_new, text_eq_refl, lookup-insert_new, lookup-erase,
}
use rpc_framework.Addr.{IpNetAddr}
use rpc_framework.Buffer.{TcpBuffer, IsValid, CanTake, readable}
use rpc_framework.Coder.{TinyPbProtocol, new_message, encode}
use rpc_framework.Coder.Fields.{arrived}
use rpc_framework.Coder.RoundTrip.{
  IsOpen, IsDrained, named, AllSendable, packets, decode-packets, encode-readable,
}
use rpc_framework.Coder.Decoder.{decode_round, decode}
use rpc_framework.Rpc.Dispatcher.{RunTime, ServiceMap, dispatch}
use rpc_framework.Rpc.Dispatch.{dispatch-keeps_id}
use rpc_framework.Tcp.Connection.{
  TcpConnection, serve, excute_server, excute_client, get_res_package_data,
}

-- The requests as they arrive.
abbrev pub received : List TinyPbProtocol → List TinyPbProtocol
received ms = map (λ m. arrived (named m)) ms

module _ {Method Message World : Type 0} (services : ServiceMap Method Message World) where
  -- Where `decode` finds no packet `excute` does nothing.
  pub excute_server-nothing :
      (fuel : ℕ) (c : TcpConnection) (run_time : RunTime) (world : World)
      → decode_round c.m_in_buffer ≡ some none
      → excute_server services (suc fuel) c run_time world ≡ some (c, run_time, world)
  unfolding excute_server serve encode decode
  excute_server-nothing fuel c run_time world e = rw (e, excute_server, decode) refl

  -- There is one reply to each request, in order, and it carries the request's id.
  pub serve-ids :
      (local peer : Option IpNetAddr) (requests : List TinyPbProtocol) (run_time : RunTime)
      (world : World)
      → map (λ m. m.m_msg_id) (serve services local peer requests run_time world).0
        ≡ map (λ m. m.m_msg_id) requests
  unfolding serve
  serve-ids local peer [] run_time world = refl
  serve-ids local peer (r ∷ requests) run_time world =
      let d = dispatch services r new_message local peer run_time world in
      rw
        (
          (dispatch-keeps_id services r new_message local peer run_time world).0,
          serve-ids local peer requests d.1 d.2,
        )
        refl

  abbrev pub served_by :
      TcpConnection → List TinyPbProtocol → RunTime → World → List TinyPbProtocol × RunTime × World
  served_by c requests run_time world =
      serve services c.m_local_addr c.m_peer_addr (received requests) run_time world

  -- What `excute` does to the two buffers of a connection.
  pub excute_server-buffers :
      (requests : List TinyPbProtocol) (c : TcpConnection) (run_time : RunTime) (world : World)
      → IsOpen c.m_in_buffer
      → CanTake (length (packets (served_by c requests run_time world).0)) c.m_out_buffer
      → AllSendable requests
      → readable c.m_in_buffer ≡ packets requests
      → AllSendable (served_by c requests run_time world).0
      → (b x : TcpBuffer) × (excute_server services (suc (length requests)) c run_time world
          ≡ some (
            record c { m_in_buffer = b; m_out_buffer = x },
            (served_by c requests run_time world).1,
            (served_by c requests run_time world).2,
          ))
        × IsDrained c.m_in_buffer b
        × IsValid x
        × (readable b ≡ [])
        × (readable x ≡ readable c.m_out_buffer ++ packets (served_by c requests run_time world).0)
        × (x.m_write_index
            ≤ c.m_out_buffer.m_write_index
              + length (packets (served_by c requests run_time world).0))
  unfolding excute_server
  excute_server-buffers requests c run_time world o v s e r =
      let served = served_by c requests run_time world in
      let (b, f, p, q) = decode-packets requests c.m_in_buffer [] o s e in
      let (sent, x, g, v', q', k) = encode-readable served.0 c.m_out_buffer v r in
      (b, x, rw (f, excute_server, g) refl, p, v', q, q', k)

  -- Where the unread bytes of a server's connection are the packets of sendable requests, its in
  -- buffer is below 2 GB with room behind them, its out buffer is valid, its write index and the packets of the replies
  -- are together at most `write_limit` (about 1.43 GB), and the replies can be sent, `excute` answers them all: the packets of the replies, in order, go behind what is still
  -- to be sent, nothing stays unread, and the world is what the handlers leave.
  pub excute_server-replies :
      (requests : List TinyPbProtocol) (c : TcpConnection) (run_time : RunTime) (world : World)
      → IsOpen c.m_in_buffer
      → CanTake (length (packets (served_by c requests run_time world).0)) c.m_out_buffer
      → AllSendable requests
      → readable c.m_in_buffer ≡ packets requests
      → AllSendable (served_by c requests run_time world).0
      → (d : TcpConnection) × (excute_server services (suc (length requests)) c run_time world
          ≡ some
              (d, (served_by c requests run_time world).1, (served_by c requests run_time world).2))
        × (readable d.m_in_buffer ≡ [])
        × (readable d.m_out_buffer
            ≡ readable c.m_out_buffer ++ packets (served_by c requests run_time world).0)
  excute_server-replies requests c run_time world o v s e r =
      let (b, x, f, p, v', q, q', _k) = excute_server-buffers requests c run_time world o v s e r in
      (record c { m_in_buffer = b; m_out_buffer = x }, f, q, q')

-- A reply that arrives at a client is found by its id, and taken out: where its packet is all that
-- is unread, in a buffer below 2 GB with room behind it, and the id has no reply yet, `excute` and
-- then `getResPackageData` return it; asking again finds nothing.
pub get_res_package_data-arrived :
    (m : TinyPbProtocol) (c : TcpConnection)
    → IsOpen c.m_in_buffer
    → AllSendable (m ∷ [])
    → readable c.m_in_buffer ≡ packets (m ∷ [])
    → lookup (named m).m_msg_id c.m_reply_msg ≡ none
    → (d d' : TcpConnection) × (excute_client 2 c ≡ some d)
      × (get_res_package_data (named m).m_msg_id d ≡ (some (arrived (named m)), d'))
      × ((get_res_package_data (named m).m_msg_id d').0 ≡ none)
unfolding excute_client get_res_package_data
get_res_package_data-arrived m c o s e n =
    let id = (named m).m_msg_id in
    let reply = arrived (named m) in
    let (b, f, p, q) = decode-packets (m ∷ []) c.m_in_buffer [] o s e in
    let replies = insert_new id reply c.m_reply_msg in
    let found : lookup id replies ≡ some reply =
      rw (lookup-insert_new id id reply c.m_reply_msg n, text_eq_refl id) refl in
    let gone : lookup id (erase id replies) ≡ none =
      rw (lookup-erase id id replies, text_eq_refl id) refl in
    (
      record c { m_in_buffer = b; m_reply_msg = replies },
      record c { m_in_buffer = b; m_reply_msg = erase id replies },
      rw (f, excute_client) refl,
      rw (found, get_res_package_data) refl,
      rw (gone, get_res_package_data) refl,
    )
