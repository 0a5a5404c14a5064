-- ===== src/Tcp/Writing.antt =====
-- tcp_connection.cpp: what `onWrite` puts on the socket.
use rpc_framework.Base.{
  ℕ, ◌-◌, ◌<◌, ◌≡◌, ◌≢◌, refl, ap, List, [], ◌∷◌, some, Bool, true, false, length, arith, ==_false,
  le→ltb_false,
}
use rpc_framework.Base.Int.{index}
use rpc_framework.Buffer.{TcpBuffer, IsValid, readable, read_able}
use rpc_framework.Buffer.Laws.{copy_from_lem, length-readable}
use rpc_framework.Tcp.Connection.{
  TcpConnection, connected, WriteResult, writes, write_loop, on_write,
}

index-read_able :
    (b : TcpBuffer) → IsValid b → index (read_able b) ≡ some (b.m_write_index - b.m_read_index)
index-read_able b v = ground arith

-- A connection that `onWrite` writes for.
pub record IsWritable (c : TcpConnection) : Type 0 where
  pub valid : IsValid c.m_out_buffer
  pub in_time : c.m_is_over_time ≡ false
  pub state : c.m_state ≡ connected

pub on_write-all :
    (over : Bool) (results : List (WriteResult × Bool)) (c : TcpConnection)
    → IsWritable c
    → c.m_out_buffer.m_read_index < c.m_out_buffer.m_write_index
    → on_write
        ((writes (c.m_out_buffer.m_write_index - c.m_out_buffer.m_read_index), over) ∷ results)
        c
      ≡ some (readable c.m_out_buffer, true, c)
unfolding on_write write_loop
on_write-all over results c w h =
    let b = c.m_out_buffer in
    let n = b.m_write_index - b.m_read_index in
    rw
      (
        w.in_time,
        w.state,
        ==_false b.m_write_index b.m_read_index (omega arith),
        index-read_able b w.valid,
        copy_from_lem b.m_buffer b.m_read_index n (omega (arith, w.valid.within)),
        le→ltb_false n n (omega arith),
      )
      refl

-- On a connected connection that is not over time and has bytes to send in a valid out buffer,
-- `onWrite` sends them all when the socket takes them, and never marks them as read: calling it
-- again, with nothing new to send, sends the same bytes a second time.
pub on_write-resends :
    (over over' : Bool) (results results' : List (WriteResult × Bool)) (c : TcpConnection)
    → IsWritable c
    → c.m_out_buffer.m_read_index < c.m_out_buffer.m_write_index
    → let n = c.m_out_buffer.m_write_index - c.m_out_buffer.m_read_index in
      (first : List ℕ × Bool × TcpConnection) × (on_write ((writes n, over) ∷ results) c
        ≡ some first)
      × (on_write ((writes n, over') ∷ results') first.2 ≡ some first)
      × (first.0 ≡ readable c.m_out_buffer)
      × (first.0 ≢ [])
on_write-resends over over' results results' c w h = (
  (readable c.m_out_buffer, true, c),
  on_write-all over results c w h,
  on_write-all over' results' c w h,
  refl,
  λ e. omega (arith, ap length e, length-readable w.valid),
)

-- Whatever `write` returns, `onWrite` leaves the connection as it was; where it is over time or not
-- connected, it sends nothing.
pub on_write-keeps :
    (results : List (WriteResult × Bool)) (c : TcpConnection) (sent : List ℕ) (done : Bool)
    (d : TcpConnection)
    → on_write results c ≡ some (sent, done, d)
    → (d ≡ c) × (c.m_is_over_time ≡ true → sent ≡ []) × (c.m_state ≢ connected → sent ≡ [])
unfolding on_write
on_write-keeps results c sent done d e = (ground arith, λ h. ground arith, λ h. ground arith)
