-- ===== src/Tcp/Calling.antt =====
-- tcp_client.cpp: how a call over a connection ends.
use rpc_framework.Base.{ℕ, ◌+◌, ◌≡◌, ◌⊎◌, List, Option, none, some, true, false, arith}
use rpc_framework.Base.Int.{ℤ}
use rpc_framework.Coder.{TinyPbProtocol}
use rpc_framework.Loop.{EventLoop}
use rpc_framework.Rpc.Errors.{error_peer_closed, error_rpc_call_timeout}
use rpc_framework.Tcp.Connection.{connected}
use rpc_framework.Tcp.Client.{TcpClient, Exchange, err_deal, exchange, send_and_recv_tiny_pb}

module _ {C : Type 0} (thread fuel : ℕ) where
  -- What a finished call says: code 0 with a reply and no timer left behind, or one of two error codes
  -- without a reply, which the client remembers, and a socket made anew.
  abbrev pub EndsWell :
      ℤ → TcpClient → Option ℕ × Option TinyPbProtocol × TcpClient × EventLoop C → Type 0
  EndsWell new_fd before (none, res, client, l) = res ≡ none
  EndsWell new_fd before (some code, none, client, l) =
      ((code ≡ error_peer_closed) ⊎ (code ≡ error_rpc_call_timeout))
      × (client.m_connect_error_code ≡ code)
      × (client.reopened ≡ before.reopened + 1)
      × (client.m_fd ≡ new_fd)
  EndsWell new_fd before (some code, some res, client, l) =
      (code ≡ 0)
      × (client.timer_pending ≡ false)
      × (client.reopened ≡ before.reopened)
      × (client.m_fd ≡ before.m_fd)

  exchange-EndsWell :
      (x : Exchange) (msg_id : List ℕ) (client : TcpClient) (l : EventLoop C)
      (out : Option ℕ × Option TinyPbProtocol × TcpClient × EventLoop C)
      → exchange thread fuel x msg_id client l ≡ some out
      → EndsWell x.new_fd client out
  unfolding exchange err_deal
  exchange-EndsWell x msg_id client l out e = ground (arith, e)

  -- However a call over a new or an open connection goes, where it finishes it returns 0 and a reply
  -- with its timer gone and on its socket, or the code for a peer that is gone or for a call that
  -- took too long, no reply, the code remembered and the socket made anew.
  pub send_and_recv_tiny_pb-EndsWell :
      (x : Exchange) (msg_id : List ℕ) (client : TcpClient) (l : EventLoop C)
      (out : Option ℕ × Option TinyPbProtocol × TcpClient × EventLoop C)
      → send_and_recv_tiny_pb thread fuel x msg_id client l ≡ some out
      → EndsWell x.new_fd client out
  unfolding send_and_recv_tiny_pb exchange err_deal
  send_and_recv_tiny_pb-EndsWell x msg_id client l out e = ground (arith, e)

  -- A call on an open connection that returns the code for a peer that is gone leaves its timer event
  -- in the loop's timer.
  pub send_and_recv_tiny_pb-leaves_timer :
      (x : Exchange) (msg_id : List ℕ) (client client' : TcpClient) (l l' : EventLoop C)
      (res : Option TinyPbProtocol)
      → client.m_connection.m_state ≡ connected
      → send_and_recv_tiny_pb thread fuel x msg_id client l
        ≡ some (some error_peer_closed, res, client', l')
      → client'.timer_pending ≡ true
  unfolding send_and_recv_tiny_pb exchange err_deal
  send_and_recv_tiny_pb-leaves_timer x msg_id client client' l l' res h e = ground (arith, h, e)
