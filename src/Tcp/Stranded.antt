-- ===== src/Tcp/Stranded.antt =====
-- tcp_client.cpp: the descriptor that a client's connection uses after a call that failed.
use rpc_framework.Base.{
  ℕ, ◌≡◌, ◌≢◌, refl, List, [], ◌∷◌, Option, some, Bool, true, arith, Option-cases, inl, inr,
}
use rpc_framework.Coder.{TinyPbProtocol}
use rpc_framework.Loop.{EventLoop}
use rpc_framework.Tcp.Connection.{
  TcpConnection, connected, ReadResult, on_read, clear, excute_client, get_res_package_data,
  on_write, WriteResult,
}
use rpc_framework.Tcp.Calling.{send_and_recv_tiny_pb-EndsWell}
use rpc_framework.Tcp.Client.{
  TcpClient, ConnectEnd, linked, connect_loop, Exchange, ReplyEnd, set_over, err_deal, exchange,
  reply_loop, send_and_recv_tiny_pb,
}

get_res_package_data-event :
    (msg_id : List ℕ) (c : TcpConnection)
    → (get_res_package_data msg_id c).1.m_fd_event ≡ c.m_fd_event
unfolding get_res_package_data
get_res_package_data-event msg_id c = ground arith

excute_client-event :
    (fuel : ℕ) (c d : TcpConnection) → excute_client fuel c ≡ some d → d.m_fd_event ≡ c.m_fd_event
unfolding excute_client
excute_client-event fuel c d e = ground (arith, e)

on_write-event :
    (results : List (WriteResult × Bool)) (c : TcpConnection) (out : List ℕ × Bool × TcpConnection)
    → on_write results c ≡ some out
    → out.2.m_fd_event ≡ c.m_fd_event
unfolding on_write
on_write-event results c out e = ground (arith, e)

module _ {C : Type 0} (thread fuel : ℕ) where
  on_read-event :
      (results : List ReadResult) (c : TcpConnection) (l : EventLoop C)
      (out : Bool × TcpConnection × EventLoop C)
      → on_read thread results c l ≡ some out
      → out.1.m_fd_event ≡ c.m_fd_event
  unfolding on_read clear
  on_read-event results c l out e = ground (arith, e)

  reply_loop-event :
      (rounds : List (List ReadResult × Bool)) (msg_id : List ℕ) (c : TcpConnection)
      (l : EventLoop C) (out : ReplyEnd × TcpConnection × EventLoop C)
      → reply_loop thread fuel rounds msg_id c l ≡ some out
      → out.1.m_fd_event ≡ c.m_fd_event
  unfolding reply_loop
  reply_loop-event [] msg_id c l out e = ground (arith, e, get_res_package_data-event msg_id c)
  reply_loop-event (r ∷ rounds) msg_id c l out e = elim (Option-cases (on_read thread r.0 c l)) [
    | inl f ↦ ground (arith, e, f, get_res_package_data-event msg_id c)
    | inr (read, f) ↦
        let after = set_over r.1 read.1 in
        let same = on_read-event r.0 c l read f in
        elim (Option-cases (excute_client fuel after)) [
          | inl g ↦ ground (arith, e, f, g, same, get_res_package_data-event msg_id c)
          | inr (done, g) ↦ ground (
            arith,
            e,
            f,
            g,
            same,
            excute_client-event fuel after done g,
            get_res_package_data-event msg_id c,
            reply_loop-event rounds msg_id done read.2 out,
          )
        ]
  ]

  exchange-event :
      (x : Exchange) (msg_id : List ℕ) (client : TcpClient) (l : EventLoop C)
      (out : Option ℕ × Option TinyPbProtocol × TcpClient × EventLoop C)
      → exchange thread fuel x msg_id client l ≡ some out
      → out.2.m_connection.m_fd_event ≡ client.m_connection.m_fd_event
  unfolding exchange err_deal
  exchange-event x msg_id client l out e =
      let up = record client.m_connection { m_state = connected } in
      elim (Option-cases (on_write x.write_results up)) [
        | inl f ↦ ground (arith, e, f)
        | inr (wrote, f) ↦
            let c = set_over x.write_fired wrote.2 in
            let same = on_write-event x.write_results up wrote f in
            elim (Option-cases (reply_loop thread fuel x.rounds msg_id c l)) [
              | inl g ↦ ground (arith, e, f, g, same)
              | inr (r, g) ↦ ground (arith, e, f, g, same, reply_loop-event x.rounds msg_id c l r g)
            ]
      ]

  connected-event :
      (x : Exchange) (msg_id : List ℕ) (client : TcpClient) (l : EventLoop C)
      (out : Option ℕ × Option TinyPbProtocol × TcpClient × EventLoop C) (end : ConnectEnd)
      → connect_loop x.connects ≡ end
      → send_and_recv_tiny_pb thread fuel x msg_id client l ≡ some out
      → out.2.m_connection.m_fd_event ≡ client.m_connection.m_fd_event
  unfolding send_and_recv_tiny_pb err_deal
  connected-event x msg_id client l out (linked fired) q e =
      let timed = record client { timer_pending = true } in
      let late = record timed { m_connection = set_over fired client.m_connection } in
      ground (arith, e, q, exchange-event x msg_id timed l out, exchange-event x msg_id late l out)
  connected-event x msg_id client l out other q e =
      let timed = record client { timer_pending = true } in
      ground (arith, e, q, exchange-event x msg_id timed l out)

  -- Whatever happens in a call that finishes with an error code, the client then has the descriptor of the new socket, and
  -- its connection still has the event of the one that it had before.
  pub send_and_recv_tiny_pb-strands :
      (x : Exchange) (msg_id : List ℕ) (client client' : TcpClient) (l l' : EventLoop C)
      (res : Option TinyPbProtocol) (code : ℕ)
      → send_and_recv_tiny_pb thread fuel x msg_id client l ≡ some (some code, res, client', l')
      → code ≢ 0
      → (client'.m_fd ≡ x.new_fd)
        × (client'.m_connection.m_fd_event ≡ client.m_connection.m_fd_event)
  send_and_recv_tiny_pb-strands x msg_id client client' l l' res code e n = (
    ground (
      arith,
      n,
      send_and_recv_tiny_pb-EndsWell thread fuel x msg_id client l (some code, res, client', l') e,
    ),
    connected-event x msg_id client l (some code, res, client', l') (connect_loop x.connects) refl
        e,
  )
