-- ===== src/Tcp/Connection.antt =====
-- RpcFramework/rocket/net/tcp/tcp_connection.h and tcp_connection.cpp. What `read` and `write` return is
-- a list of results, one for each call; a list that ends while a loop still calls means that the
-- coroutine waits. Buffers and events are the models of their own modules; faults are none.
use rpc_framework.Base.{
  ℕ, ◌*◌, List, [], ◌∷◌, ◌++◌, Option, none, some, ◌>>=◌, Bool, true, false, not, ◌==◌, ltb, ◌||◌,
  if◌then◌else◌, length, lookup, erase, insert_new,
}
use rpc_framework.Base.Int.{in_int, pos, index}
use rpc_framework.Addr.{IpNetAddr}
use rpc_framework.Buffer
use rpc_framework.Buffer.{
  TcpBuffer, write_able, resize_buffer, copy_into, copy_from, move_write_index, read_able,
}
use rpc_framework.Coder.{TinyPbProtocol, new_message, encode}
use rpc_framework.Coder.Decoder.{returns, faults, runs_on, decode}
use rpc_framework.Fd
use rpc_framework.Fd.{in_event, out_event}
use rpc_framework.Loop.{EventLoop, delete_epoll_event}
use rpc_framework.Rpc.Dispatcher.{RunTime, ServiceMap, dispatch}

pub data TcpState : Type 0 where
  not_connected connected half_closing closed : TcpState

pub data TcpConnectionType : Type 0 where
  by_server by_client : TcpConnectionType

pub record TcpConnection : Type 0 where
  pub m_local_addr : Option IpNetAddr
  pub m_peer_addr : Option IpNetAddr
  pub m_in_buffer : TcpBuffer
  pub m_out_buffer : TcpBuffer
  pub m_fd_event : ℕ
  pub m_state : TcpState
  pub m_stop : Bool
  pub m_is_over_time : Bool
  pub m_connection_type : TcpConnectionType
  pub m_reply_msg : List (List ℕ × TinyPbProtocol)

abbrev pub first_state : TcpConnectionType → TcpState
first_state by_server = connected
first_state by_client = not_connected

-- The constructor's fields.
unfoldable pub new_connection :
    ℕ → ℕ → Option IpNetAddr → Option IpNetAddr → TcpConnectionType → TcpConnection
new_connection fd_event buffer_size peer_addr local_addr type = record {
  m_local_addr = local_addr;
  m_peer_addr = peer_addr;
  m_in_buffer = Buffer.make buffer_size;
  m_out_buffer = Buffer.make buffer_size;
  m_fd_event = fd_event;
  m_state = first_state type;
  m_stop = false;
  m_is_over_time = false;
  m_connection_type = type;
  m_reply_msg = [];
}

abbrev pub is_connected : TcpState → Bool
is_connected connected = true
is_connected other = false

abbrev pub is_closed : TcpState → Bool
is_closed closed = true
is_closed other = false

-- What `read` returns: some bytes, 0, -1 with EAGAIN, or -1 with another error.
pub data ReadResult : Type 0 where
  reads : ℕ → List ℕ → ReadResult
  ends again fails : ReadResult

-- How the loop of `onRead` is left: `is_close`, `is_read_all` and the buffer; or that it waits.
pub data ReadEnd : Type 0 where
  leaves : Bool → Bool → TcpBuffer → ReadEnd
  waits : TcpBuffer → ReadEnd

-- A full buffer is doubled. A length past 2 GB is a negative `int`, of which no vector is made.
unfoldable pub make_room : TcpBuffer → Option TcpBuffer
make_room b =
    if b.m_write_index == length b.m_buffer
    then (in_int (2 * length b.m_buffer) >>= λ new_size. resize_buffer new_size b)
    else some b

-- The loop of `onRead`. A `read` that returns more bytes than were asked for is a fault.
unfoldable pub read_loop : List ReadResult → TcpBuffer → Option ReadEnd
unfolding make_room
read_loop [] b = do room ← make_room b; some (waits room)
read_loop (ends ∷ results) b = do room ← make_room b; some (leaves true false room)
read_loop (again ∷ results) b = do room ← make_room b; some (leaves false true room)
read_loop (fails ∷ results) b = do room ← make_room b; read_loop results room
read_loop (reads x xs ∷ results) b = do
  room ← make_room b
  read_count ← index (write_able room)
  let rt = length (x ∷ xs)
  stored ← copy_into room.m_buffer room.m_write_index (x ∷ xs)
  let moved = move_write_index (pos rt) (record room { m_buffer = stored })
  let next = read_loop results moved
  if ltb read_count rt
      then none
      else if rt == read_count
      then next
      else some (leaves false true moved)

module _ {C : Type 0} where
  -- `clear`, in a thread with this id.
  unfoldable pub clear : ℕ → TcpConnection → EventLoop C → TcpConnection × EventLoop C
  clear thread c l =
      let canceled = Fd.cancel out_event (Fd.cancel in_event (l.events c.m_fd_event)) in
      let l' = record l { events = λ e. if e == c.m_fd_event then canceled else l.events e } in
      if is_closed c.m_state
      then (c, l)
      else (record c { m_stop = true; m_state = closed }, delete_epoll_event thread c.m_fd_event l')

  -- `onRead`: whether it returned, the connection and the loop.
  unfoldable pub on_read :
      ℕ
      → List ReadResult
      → TcpConnection
      → EventLoop C
      → Option (Bool × TcpConnection × EventLoop C)
  unfolding read_loop clear
  on_read thread results c l = if not (is_connected c.m_state) then some (true, c, l) else do
    end ← read_loop results c.m_in_buffer
    elim end [
      | leaves true all b ↦
          let cleared = clear thread (record c { m_in_buffer = b }) l in
          some (true, cleared.0, cleared.1)
      | leaves false all b ↦ some (true, record c { m_in_buffer = b }, l)
      | waits b ↦ some (false, record c { m_in_buffer = b }, l)
    ]

-- `shutdown`: whether the socket is shut down, and the connection.
unfoldable pub shutdown : TcpConnection → Bool × TcpConnection
shutdown c = elim c.m_state [
  | closed ↦ (false, c)
  | not_connected ↦ (false, c)
  | other ↦ (true, record c { m_state = half_closing })
]

module _ {Method Message World : Type 0} (services : ServiceMap Method Message World) where
  -- The server's loop over the requests.
  unfoldable pub serve :
      Option IpNetAddr
      → Option IpNetAddr
      → List TinyPbProtocol
      → RunTime
      → World
      → List TinyPbProtocol × RunTime × World
  serve local peer [] run_time world = ([], run_time, world)
  serve local peer (request ∷ result) run_time world =
      let d = dispatch services request new_message local peer run_time world in
      let rest = serve local peer result d.1 d.2 in (d.0 ∷ rest.0, rest.1, rest.2)

  -- `excute` of a server's connection; `decode` may take `fuel` turns, and none stands for its faults and
  -- for running on.
  unfoldable pub excute_server :
      ℕ → TcpConnection → RunTime → World → Option (TcpConnection × RunTime × World)
  unfolding serve
  excute_server fuel c run_time world = elim (decode fuel [] c.m_in_buffer) [
    | faults ↦ none
    | runs_on ↦ none
    | returns result in_buffer ↦ do
      let served = serve c.m_local_addr c.m_peer_addr result run_time world
      encoded ← encode served.0 c.m_out_buffer
      some (record c { m_in_buffer = in_buffer; m_out_buffer = encoded.1 }, served.1, served.2)
  ]

-- The client's loop over the replies: `m_reply_msg.insert`.
unfoldable pub keep_replies :
    List TinyPbProtocol → List (List ℕ × TinyPbProtocol) → List (List ℕ × TinyPbProtocol)
keep_replies [] replies = replies
keep_replies (m ∷ result) replies = keep_replies result (insert_new m.m_msg_id m replies)

-- `excute` of a client's connection.
unfoldable pub excute_client : ℕ → TcpConnection → Option TcpConnection
unfolding keep_replies
excute_client fuel c = elim (decode fuel [] c.m_in_buffer) [
  | faults ↦ none
  | runs_on ↦ none
  | returns result in_buffer ↦
      some (record c { m_in_buffer = in_buffer; m_reply_msg = keep_replies result c.m_reply_msg })
]

-- `getResPackageData`: the reply, which is taken out.
unfoldable pub get_res_package_data : List ℕ → TcpConnection → Option TinyPbProtocol × TcpConnection
get_res_package_data msg_id c = elim (lookup msg_id c.m_reply_msg) [
  | none ↦ (none, c)
  | some m ↦ (some m, record c { m_reply_msg = erase msg_id c.m_reply_msg })
]

-- What `write` returns: how many bytes it took, -1 with EAGAIN, or -1 with another error.
pub data WriteResult : Type 0 where
  writes : ℕ → WriteResult
  write_again write_fails : WriteResult

-- The loop of `onWrite`: the bytes that the socket took, and whether the loop ended. Each result comes
-- with the value of `m_is_over_time` after the call.
unfoldable pub write_loop : List (WriteResult × Bool) → TcpBuffer → Option (List ℕ × Bool)
write_loop [] b = if b.m_write_index == b.m_read_index then some ([], true) else some ([], false)
write_loop ((r, over) ∷ results) b =
    let rest = write_loop results b in
    if b.m_write_index == b.m_read_index then some ([], true) else do
      write_size ← index (read_able b)
      elim r [
        | write_again ↦ some ([], true)
        | write_fails ↦ if over then some ([], true) else rest
        | writes n ↦ do
          taken ← copy_from b.m_buffer b.m_read_index n
          if not (ltb n write_size) || over
              then some (taken, true)
              else do more ← rest; some (taken ++ more.0, more.1)
      ]

-- `onWrite`: the bytes that the socket took, whether it returned, and the connection.
unfoldable pub on_write :
    List (WriteResult × Bool) → TcpConnection → Option (List ℕ × Bool × TcpConnection)
unfolding write_loop
on_write results c =
    if c.m_is_over_time || not (is_connected c.m_state)
    then some ([], true, c)
    else do sent ← write_loop results c.m_out_buffer; some (sent.0, sent.1, c)
