-- ===== src/Tcp/Listening.antt =====
-- RpcFramework/rocket/net/tcp/tcp_connection.cpp: the setters of a connection, and its interest in events.
-- The callbacks that are bound to `onRead` and `onWrite` are arguments.
use rpc_framework.Base.{ℕ, some, none, Bool}
use rpc_framework.Fd
use rpc_framework.Fd.{FdEvent, TriggerEvent, in_event, out_event}
use rpc_framework.Loop.{EventLoop, add_epoll_event}
use rpc_framework.Loop.Epoll.{InStep, add_epoll_event-InStep}
use rpc_framework.Tcp.Connection.{TcpConnection, TcpState, TcpConnectionType}
use rpc_framework.Timer.{update}

unfoldable pub set_state : TcpState → TcpConnection → TcpConnection
set_state state c = record c { m_state = state }

unfoldable pub set_connection_type : TcpConnectionType → TcpConnection → TcpConnection
set_connection_type type c = record c { m_connection_type = type }

unfoldable pub set_over_time_flag : Bool → TcpConnection → TcpConnection
set_over_time_flag value c = record c { m_is_over_time = value }

module _ {C : Type 0} where
  abbrev listen_for : TriggerEvent → ℕ → C → TcpConnection → EventLoop C → EventLoop C
  listen_for trigger thread cb c l =
      let event = Fd.listen trigger (some cb) none (l.events c.m_fd_event) in
      add_epoll_event thread c.m_fd_event (record l { events = update l.events c.m_fd_event event })

  unfoldable pub listen_write : ℕ → C → TcpConnection → EventLoop C → EventLoop C
  listen_write thread on_write c l = listen_for out_event thread on_write c l

  unfoldable pub listen_read : ℕ → C → TcpConnection → EventLoop C → EventLoop C
  listen_read thread on_read c l = listen_for in_event thread on_read c l

  -- From a loop in step with the kernel, a connection's interest in either event leaves it in step.
  listen_read-InStep :
      (thread : ℕ) (cb : C) (c : TcpConnection) (l : EventLoop C)
      → InStep l
      → InStep (listen_read thread cb c l) × InStep (listen_write thread cb c l)
  unfolding listen_read listen_write
  listen_read-InStep thread cb c l s = (
    (add_epoll_event-InStep thread c.m_fd_event
        (record l {
          events =
              update l.events c.m_fd_event
                (Fd.listen in_event (some cb) none (l.events c.m_fd_event));
        })
        s).0,
    (add_epoll_event-InStep thread c.m_fd_event
        (record l {
          events =
              update l.events c.m_fd_event
                (Fd.listen out_event (some cb) none (l.events c.m_fd_event));
        })
        s).0,
  )
