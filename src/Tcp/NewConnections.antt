-- ===== src/Tcp/NewConnections.antt =====
-- tcp_connection.cpp, tcp_client.cpp and io_thread.cpp: what connections do that were just made.
pub mod Tests
use rpc_framework.Base.{
  lookup, none, ◌≤◌, ◌<◌, subst, ℕ, ◌+◌, ◌<◌, ◌≤◌, ◌≡◌, refl, ap, sym, ◌∙◌, List, [], ◌∷◌, ◌++◌,
  Option, some, Bool, true, false, length, arith, length-append, append-nil, append_assoc,
}
use rpc_framework.Addr.{IpNetAddr}
use rpc_framework.Buffer
use rpc_framework.Buffer.{TcpBuffer, CanTake, write_limit, readable}
use rpc_framework.Coder.{TinyPbProtocol, new_message, packet, packet_size}
use rpc_framework.Base.Int.{pos}
use rpc_framework.Coder.Fields.{arrived}
use rpc_framework.Coder.RoundTrip.{IsOpen, named, AllSendable, packets}
use rpc_framework.Rpc.Dispatcher.{RunTime, ServiceMap, dispatch}
use rpc_framework.Tcp.Closing.{main_server_loop-turn}
use rpc_framework.Tcp.Connection.{
  TcpConnectionType, connected, by_client, new_connection, by_server, TcpConnection, ReadResult,
  WriteResult, serve,
}
use rpc_framework.Tcp.Rounds.{Turn, main_server_loop}
use rpc_framework.Tcp.Serving.{received}
use rpc_framework.Tcp.Turns.{
  answer, IsIdle, HasRoom, receives, takes, packets_pos, server_turn-completes,
}
use rpc_framework.Tcp.Writing.{IsWritable}
use rpc_framework.Fd.{FdEvent}
use rpc_framework.Fd.Group.{Indexed, get_fd_event-finds}
use rpc_framework.Loop.{EventLoop}
use rpc_framework.Tcp.Client.{TcpClient}
use rpc_framework.Tcp.Client.Making.{new_client, get_connection}
use rpc_framework.Tcp.RoundTrip.{remote_call, remote_call-replies}
use rpc_framework.Tcp.Sessions.{resent, at_once, one_by_one, main_server_loop-serves}

-- A connection as its constructor makes it, with buffers of 128 bytes, is idle once it is connected, with room for up to
-- 127 bytes.
new_connection-IsIdle :
    (n fd : ℕ) (peer local : Option IpNetAddr) (type : TcpConnectionType)
    → n < 128
    → IsIdle n (record (new_connection fd 128 peer local type) { m_state = connected })
unfolding new_connection Buffer.make
new_connection-IsIdle n fd peer local type h = record {
  inbox = record {
    open_in = record {
      valid = record { ordered = omega arith; within = omega arith };
      room = omega arith;
      small = omega arith;
    };
    nothing_in = refl;
    room = omega arith;
  };
  writable = record {
    valid = record { ordered = omega arith; within = omega arith };
    in_time = refl;
    state = refl;
  };
  nothing_out = refl;
}

new_connection-CanTake :
    (n fd : ℕ) (peer local : Option IpNetAddr) (type : TcpConnectionType)
    → n ≤ write_limit
    → CanTake n (new_connection fd 128 peer local type).m_out_buffer
unfolding new_connection Buffer.make
new_connection-CanTake n fd peer local type h = record {
  valid = record { ordered = omega arith; within = omega arith };
  small = omega (arith, h);
}

server-CanTake :
    (n fd : ℕ) (peer local : Option IpNetAddr) (c : TcpConnection)
    → c ≡ new_connection fd 128 peer local by_server
    → n ≤ write_limit
    → CanTake n c.m_out_buffer
unfolding new_connection
server-CanTake n fd peer local c e h =
    subst (λ c. CanTake n c.m_out_buffer) (sym e)
      (new_connection-CanTake n fd peer local by_server h)

pub server-IsIdle :
    (n fd : ℕ) (peer local : Option IpNetAddr) (c : TcpConnection)
    → c ≡ new_connection fd 128 peer local by_server
    → n < 128
    → IsIdle n c
unfolding new_connection
server-IsIdle n fd peer local c e h =
    subst (IsIdle n) (sym e) (new_connection-IsIdle n fd peer local by_server h)

module _ {C Method Message World : Type 0} (services : ServiceMap Method Message World)
    (thread : ℕ) where
  -- The coroutine of a connection that `addClient` has made, on which nothing was sent, serves sendable requests, of fewer
  -- than 128 bytes together, that come one in each turn: where the replies are sendable, of at most `write_limit` bytes together, and the socket takes what
  -- is written, the world in the end and the replies in the out buffer are what `serve` makes of all the requests at
  -- once, and the socket has taken all replies so far with each turn.
  pub new_connection-serves :
      (ms : List TinyPbProtocol) (fd : ℕ) (peer local : Option IpNetAddr) (t : Turn C World)
      → t.connection ≡ new_connection fd 128 peer local by_server
      → t.is_waiting ≡ false
      → t.sent ≡ []
      → length (packets ms) < 128
      → AllSendable ms
      → AllSendable (at_once services thread ms t).0
      → length (packets (at_once services thread ms t).0) ≤ write_limit
      → (t' : Turn C World) × (main_server_loop services thread 2
            (one_by_one services thread [] ms t)
            t
          ≡ some t')
        × (t'.world ≡ (at_once services thread ms t).2)
        × (readable t'.connection.m_out_buffer ≡ packets (at_once services thread ms t).0)
        × (t'.sent ≡ resent [] (at_once services thread ms t).0)
  unfolding new_connection
  new_connection-serves ms fd peer local t new awake empty short h k fits =
      let i = server-IsIdle (length (packets ms)) fd peer local t.connection new short in
      let (t', f, _r, world, _i, out, sent) =
        main_server_loop-serves services thread ms [] t i.inbox i.writable (ap (λ c. c.m_stop) new)
          awake i.nothing_out h k
          (server-CanTake (length (packets (at_once services thread ms t).0)) fd peer local
            t.connection new fits) in
      (t', f, world, out, sent ∙ ap (λ z. z ++ resent [] (at_once services thread ms t).0) empty)

  -- A client that was just made for a descriptor, from a table indexed by descriptor with two entries at least, and then
  -- connected, to a connection that `addClient` has made and that has sent nothing: a sendable request of fewer than 128 bytes, whose reply is sendable
  -- and of fewer than 128 bytes, brings the client this reply, as `dispatch` makes it, and the world is what
  -- the handler leaves. The client's connection has the event of its descriptor.
  pub new_client-calls :
      (m : TinyPbProtocol) (text : List ℕ) (client_fd fd : ℕ) (server peer local : Option IpNetAddr)
      (group : List (FdEvent C)) (l : EventLoop C) (t : Turn C World)
      → Indexed 0 group
      → 2 ≤ length group
      → t.connection ≡ new_connection fd 128 peer local by_server
      → t.sent ≡ []
      → length (packets (m ∷ [])) < 128
      → length (packets ((answer services thread m t).0 ∷ [])) < 128
      → AllSendable (m ∷ [])
      → AllSendable ((answer services thread m t).0 ∷ [])
      → (client : TcpClient) × (grown : List (FdEvent C)) × (new_client
            (pos client_fd)
            server
            text
            group
          ≡ some (some client, grown))
        × (client.m_connection.m_fd_event ≡ client_fd)
        × (remote_call services thread m
              (length (packets ((answer services thread m t).0 ∷ [])))
              (record client.m_connection { m_state = connected })
              l
              t
            ≡ some (
              some (arrived (named (answer services thread m t).0)),
              (answer services thread m t).2,
            ))
  unfolding new_client get_connection new_connection lookup
  new_client-calls m text client_fd fd server peer local group l t h two new empty short short' s
        k =
      let (e, more, f, at, indexed) = get_fd_event-finds client_fd group h two in
      let c = new_connection e.m_fd 128 server none by_client in
      let reply = (answer services thread m t).0 in
      let i =
        new_connection-IsIdle (length (packets (reply ∷ []))) e.m_fd server none by_client short' in
      let j = server-IsIdle (length (packets (m ∷ []))) fd peer local t.connection new short in
      (
        record {
          m_fd = pos client_fd;
          m_connection = c;
          m_connect_error_code = 0;
          m_connect_error_info = [];
          peer_addr_text = text;
          timer_pending = false;
          reopened = 0;
        },
        group ++ more,
        rw f refl,
        at,
        remote_call-replies services thread m (record c { m_state = connected }) l t i
            (new_connection-CanTake (length (packets (m ∷ []))) e.m_fd server none by_client
              (omega (arith, short)))
            j
            (server-CanTake (length (packets (reply ∷ []))) fd peer local t.connection new
              (omega (arith, short')))
            empty s k refl,
      )
