-- ===== src/Tcp/Losing.antt =====
-- tcp_connection.cpp and tcp_buffer.cpp: a first read that fills the buffer of a connection.
pub mod Tests
use rpc_framework.Base.{
  ℕ, suc, ◌+◌, ◌-◌, ◌<◌, ◌≡◌, refl, ap, sym, ◌∙◌, List, [], ◌∷◌, ◌++◌, Option, none, some, true,
  false, length, arith, append-nil, subst,
}
use rpc_framework.Addr.{IpNetAddr}
use rpc_framework.Buffer.{TcpBuffer, IsValid, readable}
use rpc_framework.Buffer
use rpc_framework.Buffer.Laws.{length-readable}
use rpc_framework.Coder.Decoder.{decode_round}
use rpc_framework.Coder.Located.{At, At-readable}
use rpc_framework.Coder.RoundTrip.{IsOpen}
use rpc_framework.Coder.Search.{HasNoStart, HasNoStart-Quiet, Quiet, decode_round-Quiet}
use rpc_framework.Loop.{EventLoop}
use rpc_framework.Rpc.Dispatcher.{ServiceMap}
use rpc_framework.Tcp.Connection.{
  TcpConnection, connected, reads, new_connection, by_server, on_read,
}
use rpc_framework.Tcp.Fragments.{on_write-nothing}
use rpc_framework.Tcp.Serving.{excute_server-nothing}
use rpc_framework.Tcp.NewConnections.{server-IsIdle}
use rpc_framework.Tcp.Reading.{read_loop-loses, read_loop-appends}
use rpc_framework.Tcp.Rounds.{Turn, server_turn}
use rpc_framework.Tcp.Turns.{IsIdle}
use rpc_framework.Tcp.Writing.{IsWritable}

-- Unread bytes without a start byte are left where they are.
decode_round-no_start :
    (b : TcpBuffer) → IsValid b → HasNoStart (readable b) → decode_round b ≡ some none
decode_round-no_start b v h = decode_round-Quiet b (
    subst (λ n. Quiet b.m_buffer b.m_write_index n b.m_read_index) (length-readable v)
      (HasNoStart-Quiet (readable b) b.m_buffer b.m_write_index b.m_read_index (At-readable b v) h))

module _ {C : Type 0} (thread : ℕ) (l : EventLoop C) where
  -- A read that fills the buffer, and one that does not.
  on_read-loses :
      (x y : ℕ) (xs ys : List ℕ) (c : TcpConnection)
      → c.m_state ≡ connected
      → IsOpen c.m_in_buffer
      → c.m_in_buffer.m_write_index + length (x ∷ xs) ≡ length c.m_in_buffer.m_buffer
      → c.m_in_buffer.m_write_index + length (y ∷ ys) < length c.m_in_buffer.m_buffer
      → (b : TcpBuffer) × (on_read thread (reads x xs ∷ reads y ys ∷ []) c l
          ≡ some (true, record c { m_in_buffer = b }, l))
        × IsOpen b
        × (readable b ≡ readable c.m_in_buffer ++ y ∷ ys)
  unfolding on_read
  on_read-loses x y xs ys c up o fills fits =
      let (d, f, p, r, w, n) = read_loop-loses x xs (reads y ys ∷ []) c.m_in_buffer o fills in
      let (b, g, q, s, _w, _l) = read_loop-appends y ys [] d p (omega (arith, w, n, fits)) in
      (b, simp (up, f, g), q, s ∙ ap (λ z. z ++ y ∷ ys) r)

module _ {C Method Message World : Type 0} (services : ServiceMap Method Message World)
    (thread fuel : ℕ) where
  -- On a connection that `addClient` has made, the first 128 bytes are lost if one `read` returns them all: where the
  -- next returns fewer than 128 more, none of which is a start byte, the turn sends nothing, leaves the world and the
  -- run time, and has only those unread that came later.
  pub new_connection-loses :
      (x y : ℕ) (xs ys : List ℕ) (fd : ℕ) (peer local : Option IpNetAddr) (t : Turn C World)
      → t.connection ≡ new_connection fd 128 peer local by_server
      → length (x ∷ xs) ≡ 128
      → length (y ∷ ys) < 128
      → HasNoStart (y ∷ ys)
      → (t' : Turn C World) × (server_turn services thread
            (suc fuel)
            (reads x xs ∷ reads y ys ∷ [], [])
            t
          ≡ some t')
        × (t'.sent ≡ t.sent)
        × (t'.world ≡ t.world)
        × (t'.run_time ≡ t.run_time)
        × (readable t'.connection.m_in_buffer ≡ y ∷ ys)
  unfolding server_turn new_connection Buffer.make
  new_connection-loses x y xs ys fd peer local t new full rest h =
      let i = server-IsIdle (length (y ∷ ys)) fd peer local t.connection new rest in
      let at : t.connection.m_in_buffer.m_write_index ≡ 0 =
        ap (λ c. c.m_in_buffer.m_write_index) new in
      let size : length t.connection.m_in_buffer.m_buffer ≡ 128 =
        ap (λ c. length c.m_in_buffer.m_buffer) new in
      let (b, f, o, r) =
        on_read-loses thread t.loop x y xs ys t.connection i.writable.state i.inbox.open_in
          (omega (arith, at, size, full)) i.inbox.room in
      let unread = r ∙ ap (λ z. z ++ y ∷ ys) i.inbox.nothing_in in
      let arrived_on : TcpConnection = record t.connection { m_in_buffer = b } in
      let found = decode_round-no_start b o.valid (subst HasNoStart (sym unread) h) in
      let w : IsWritable arrived_on = record {
        valid = i.writable.valid;
        in_time = i.writable.in_time;
        state = i.writable.state;
      } in
      (
        record t { connection = arrived_on; sent = t.sent ++ []; is_waiting = false },
        rw
            (
              f,
              server_turn,
              excute_server-nothing services fuel arrived_on t.run_time t.world found,
              on_write-nothing arrived_on w i.nothing_out,
            )
            refl,
        append-nil t.sent,
        refl,
        refl,
        unread,
      )
