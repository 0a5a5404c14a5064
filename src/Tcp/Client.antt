-- ===== src/Tcp/Client.antt =====
-- RpcFramework/rocket/net/tcp/tcp_client.h and tcp_client.cpp: one call over a connection. What the system
-- calls return, and whether the call's 10-second timer fires while they wait, are lists of results; a
-- list that ends means that the coroutine waits. `peer_addr_text` is what `toString` says of the peer's address.
pub mod Making
use rpc_framework.Base.{
  ℕ, ◌+◌, List, [], ◌∷◌, ◌++◌, codes, Option, none, some, ◌>>=◌, Bool, true, false, not, ◌||◌,
  if◌then◌else◌,
}
use rpc_framework.Base.Int.{ℤ}
use rpc_framework.Coder.{TinyPbProtocol}
use rpc_framework.Loop.{EventLoop, delete_epoll_event}
use rpc_framework.Rpc.Errors.{error_peer_closed, error_rpc_call_timeout}
use rpc_framework.Tcp.Connection.{
  TcpConnection, connected, is_connected, is_closed, ReadResult, on_read, WriteResult, on_write,
  excute_client, get_res_package_data,
}

-- `timer_pending` tells that the call's timer event is still in the loop's timer, and `reopened` counts
-- the sockets that were closed and made anew. The connection has the event of the first socket.
pub record TcpClient : Type 0 where
  pub m_fd : ℤ
  pub m_connection : TcpConnection
  pub m_connect_error_code : ℕ
  pub m_connect_error_info : List ℕ
  pub peer_addr_text : List ℕ
  pub timer_pending : Bool
  pub reopened : ℕ

-- What `connect` returns: 0, -1 with ECONNREFUSED, or -1 with another error.
pub data ConnectResult : Type 0 where
  links refuses errs : ConnectResult

-- How the loop around `connect` is left; a link may come after the timer has fired.
pub data ConnectEnd : Type 0 where
  linked : Bool → ConnectEnd
  timed_out peer_refused connect_waits : ConnectEnd

-- Each result comes with whether the timer fired during the call.
unfoldable pub connect_loop : List (ConnectResult × Bool) → ConnectEnd
connect_loop [] = connect_waits
connect_loop ((links, fired) ∷ results) = linked fired
connect_loop ((refuses, true) ∷ results) = timed_out
connect_loop ((errs, true) ∷ results) = timed_out
connect_loop ((refuses, false) ∷ results) = peer_refused
connect_loop ((errs, false) ∷ results) = connect_loop results

-- How the loop for the reply is left.
pub data ReplyEnd : Type 0 where
  replied : TinyPbProtocol → ReplyEnd
  over_time peer_gone reply_waits : ReplyEnd

-- What the environment does in one call. `new_fd` is what `socket` returns, where a new one is asked for,
-- and `strerror` the text of the error of `connect`.
pub record Exchange : Type 0 where
  pub connects : List (ConnectResult × Bool)
  pub write_results : List (WriteResult × Bool)
  pub write_fired : Bool
  pub rounds : List (List ReadResult × Bool)
  pub new_fd : ℤ
  pub strerror : List ℕ

abbrev pub set_over : Bool → TcpConnection → TcpConnection
set_over fired c = record c { m_is_over_time = c.m_is_over_time || fired }

module _ {C : Type 0} (thread fuel : ℕ) where
  -- `while (!m_connection->getResPackageData(msg_id, res))`.
  unfoldable pub reply_loop :
      List (List ReadResult × Bool)
      → List ℕ
      → TcpConnection
      → EventLoop C
      → Option (ReplyEnd × TcpConnection × EventLoop C)
  reply_loop [] msg_id c l =
      let got = get_res_package_data msg_id c in
      elim got.0 [ some res ↦ some (replied res, got.1, l) | none ↦ some (reply_waits, c, l) ]
  reply_loop ((results, fired) ∷ rounds) msg_id c l =
      let got = get_res_package_data msg_id c in
      elim got.0 [
        | some res ↦ some (replied res, got.1, l)
        | none ↦ do
          read ← on_read thread results c l
          let after = set_over fired read.1
          elim read.0 [
            | false ↦ some (reply_waits, after, read.2)
            | true ↦ elim after.m_is_over_time [
              | true ↦ some (over_time, after, read.2)
              | false ↦ elim (is_closed after.m_state) [
                | true ↦ some (peer_gone, after, read.2)
                | false ↦ do done ← excute_client fuel after; reply_loop rounds msg_id done read.2
              ]
            ]
          ]
      ]

  -- `err_deal`: the code that the call returns. The timer event is not deleted here; it is gone where it
  -- has fired.
  unfoldable pub err_deal : ℤ → Bool → TcpClient → EventLoop C → ℕ × TcpClient × EventLoop C
  err_deal new_fd is_timeout client l =
      let c = client.m_connection in
      let l' = delete_epoll_event thread c.m_fd_event l in
      let anew = record client { m_fd = new_fd; reopened = client.reopened + 1 } in
      if is_timeout
      then (
        error_rpc_call_timeout,
        record anew {
          m_connection = record c { m_is_over_time = false };
          m_connect_error_code = error_rpc_call_timeout;
          m_connect_error_info = codes "call rpc falied, over 10000 ms";
          timer_pending = false;
        },
        l',
      )
      else (
        error_peer_closed,
        record anew {
          m_connect_error_code = error_peer_closed;
          m_connect_error_info =
              codes "call rpc falied, peer closed [" ++ (client.peer_addr_text ++ codes "]");
        },
        l',
      )

  -- The part of `sendAndRecvTinyPb` behind the connection: none for the code while the coroutine waits.
  unfoldable pub exchange :
      Exchange
      → List ℕ
      → TcpClient
      → EventLoop C
      → Option (Option ℕ × Option TinyPbProtocol × TcpClient × EventLoop C)
  unfolding reply_loop err_deal
  exchange x msg_id client l = do
    let up = record client.m_connection { m_state = connected }
    wrote ← on_write x.write_results up
    let c = set_over x.write_fired wrote.2
    let failed = err_deal x.new_fd true (record client { m_connection = c }) l
    if not wrote.1
        then some (none, none, record client { m_connection = c }, l)
        else if c.m_is_over_time
        then some (some failed.0, none, failed.1, failed.2)
        else do
          r ← reply_loop x.rounds msg_id c l
          let client' = record client { m_connection = r.1 }
          elim r.0 [
            | replied res ↦ some (
              some 0,
              some res,
              record client' { timer_pending = false; m_connect_error_info = [] },
              r.2,
            )
            | over_time ↦
                let e = err_deal x.new_fd true client' r.2 in some (some e.0, none, e.1, e.2)
            | peer_gone ↦
                let e = err_deal x.new_fd false client' r.2 in some (some e.0, none, e.1, e.2)
            | reply_waits ↦ some (none, none, client', r.2)
          ]

  -- `sendAndRecvTinyPb`: the code, the reply, the client and its loop.
  unfoldable pub send_and_recv_tiny_pb :
      Exchange
      → List ℕ
      → TcpClient
      → EventLoop C
      → Option (Option ℕ × Option TinyPbProtocol × TcpClient × EventLoop C)
  unfolding exchange connect_loop
  send_and_recv_tiny_pb x msg_id client l =
      let timed = record client { timer_pending = true } in
      let c = client.m_connection in
      if is_connected c.m_state then exchange x msg_id timed l else elim (connect_loop x.connects) [
        | linked fired ↦ exchange x msg_id (record timed { m_connection = set_over fired c }) l
        | timed_out ↦
            let e = err_deal x.new_fd true (record timed { m_connection = set_over true c }) l in
            some (some e.0, none, e.1, e.2)
        | peer_refused ↦ some (
          some error_peer_closed,
          none,
          record timed {
            m_fd = x.new_fd;
            m_connect_error_code = error_peer_closed;
            m_connect_error_info = codes "connect refused, sys error = " ++ x.strerror;
            timer_pending = false;
            reopened = client.reopened + 1;
          },
          delete_epoll_event thread c.m_fd_event l,
        )
        | connect_waits ↦ some (none, none, timed, l)
      ]
