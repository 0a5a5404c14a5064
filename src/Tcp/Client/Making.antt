-- ===== src/Tcp/Client/Making.antt =====
-- tcp_client.cpp: how a client is made and stopped.
use rpc_framework.Base.{ℕ, List, [], Option, none, some, ◌>>=◌, false, if◌then◌else◌}
use rpc_framework.Base.Int.{ℤ, pos, negsuc}
use rpc_framework.Addr.{IpNetAddr}
use rpc_framework.Fd.{FdEvent}
use rpc_framework.Fd.Group.{get_fd_event}
use rpc_framework.Loop
use rpc_framework.Loop.{EventLoop}
use rpc_framework.Tcp.Client.{TcpClient}
use rpc_framework.Tcp.Connection.{TcpConnection, new_connection, by_client}

module _ {C : Type 0} where
  -- `getConnection`, with the connection that the client has, if it is not null. The table of FdEventGroup is
  -- passed along.
  unfoldable pub get_connection :
      ℤ
      → Option IpNetAddr
      → Option TcpConnection
      → List (FdEvent C)
      → Option (TcpConnection × List (FdEvent C))
  get_connection fd peer_addr (some c) group = some (c, group)
  get_connection fd peer_addr none group = do
    found ← get_fd_event fd group
    some (new_connection found.0.m_fd 128 peer_addr none by_client, found.1)

  -- The constructor, on what `socket` returns, with the text of the address. Where that fails the client has no connection: none.
  unfoldable pub new_client :
      ℤ
      → Option IpNetAddr
      → List ℕ
      → List (FdEvent C)
      → Option (Option TcpClient × List (FdEvent C))
  unfolding get_connection
  new_client (negsuc n) peer_addr peer_addr_text group = some (none, group)
  new_client (pos fd) peer_addr peer_addr_text group = do
    made ← get_connection (pos fd) peer_addr none group
    some (
      some (record {
        m_fd = pos fd;
        m_connection = made.0;
        m_connect_error_code = 0;
        m_connect_error_info = [];
        peer_addr_text = peer_addr_text;
        timer_pending = false;
        reopened = 0;
      }),
      made.1,
    )

  -- `TcpClient::stop`
  unfoldable pub stop : EventLoop C → EventLoop C
  stop l = if l.m_is_looping then Loop.stop l else l
