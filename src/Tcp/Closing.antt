-- ===== src/Tcp/Closing.antt =====
-- tcp_connection.cpp: the coroutine of a server's connection ends when the peer closes.
use rpc_framework.Base.{
  ℕ, ◌≡◌, refl, ◌∙◌, List, [], ◌∷◌, ◌++◌, some, Bool, true, false, length, arith, ==_false,
  append-nil, Bool-cases, inl, inr,
}
use rpc_framework.Buffer.{TcpBuffer, IsValid, readable}
use rpc_framework.Coder.RoundTrip.{IsOpen, decode_round-empty}
use rpc_framework.Loop.{EventLoop}
use rpc_framework.Rpc.Dispatcher.{ServiceMap}
use rpc_framework.Tcp.Connection.{
  TcpConnection, connected, closed, ReadResult, serve, ends, make_room, read_loop, clear, on_read,
  WriteResult, on_write,
}
use rpc_framework.Tcp.Rounds.{Turn, server_turn, main_server_loop}
use rpc_framework.Tcp.Serving.{excute_server-nothing}

make_room-IsOpen : (b : TcpBuffer) → IsOpen b → make_room b ≡ some b
unfolding make_room
make_room-IsOpen b o =
    rw (==_false b.m_write_index (length b.m_buffer) (λ e. omega (arith, o.room, e)), make_room)
      refl

-- `onWrite` on a connection that is not up.
on_write-closed :
    (results : List (WriteResult × Bool)) (c : TcpConnection)
    → c.m_state ≡ closed
    → on_write results c ≡ some ([], true, c)
unfolding on_write
on_write-closed results c e = elim (Bool-cases c.m_is_over_time) [
  | inl o ↦ rw (o, on_write) refl
  | inr o ↦ simp (o, e)
]

module _ {C : Type 0} (thread : ℕ) where
  on_read-ends :
      (c : TcpConnection) (l : EventLoop C)
      → IsOpen c.m_in_buffer
      → c.m_state ≡ connected
      → on_read thread (ends ∷ []) c l
        ≡ some (true, record c { m_stop = true; m_state = closed }, (clear thread c l).1)
  unfolding on_read read_loop clear
  on_read-ends c l o up = rw (make_room-IsOpen c.m_in_buffer o, on_read, read_loop) (simp up)

module _ {C Method Message World : Type 0} (services : ServiceMap Method Message World)
    (thread fuel : ℕ) where
  pub main_server_loop-stopped :
      (results : List (List ReadResult × List (WriteResult × Bool))) (t : Turn C World)
      → t.connection.m_stop ≡ true
      → main_server_loop services thread fuel results t ≡ some t
  unfolding main_server_loop
  main_server_loop-stopped [] t e = refl
  main_server_loop-stopped (r ∷ results) t e = rw e refl

  -- A turn that does not wait is followed by the next.
  pub main_server_loop-turn :
      (r : List ReadResult × List (WriteResult × Bool))
      (results : List (List ReadResult × List (WriteResult × Bool))) (t t' : Turn C World)
      → t.connection.m_stop ≡ false
      → t.is_waiting ≡ false
      → server_turn services thread fuel r t ≡ some t'
      → main_server_loop services thread fuel (r ∷ results) t
        ≡ main_server_loop services thread fuel results t'
  unfolding main_server_loop
  main_server_loop-turn r results t t' going awake turned = simp (turned, going, awake)

module _ {C Method Message World : Type 0} (services : ServiceMap Method Message World)
    (thread : ℕ) where
  server_turn-ends :
      (write_results : List (WriteResult × Bool)) (t : Turn C World)
      → t.connection.m_state ≡ connected
      → IsOpen t.connection.m_in_buffer
      → readable t.connection.m_in_buffer ≡ []
      → IsValid t.connection.m_out_buffer
      → (t' : Turn C World) × (server_turn services thread 1 (ends ∷ [], write_results) t ≡ some t')
        × (t'.connection.m_stop ≡ true)
        × (t'.connection.m_state ≡ closed)
        × (t'.sent ≡ t.sent)
        × (t'.world ≡ t.world)
  unfolding server_turn serve
  server_turn-ends write_results t up o empty v =
      let c = record t.connection { m_stop = true; m_state = closed } in
      let f = on_read-ends thread t.connection t.loop o up in
      let g =
        excute_server-nothing services 0 c t.run_time t.world
          (decode_round-empty c.m_in_buffer o empty) in
      (
        record t {
          connection = c;
          loop = (clear thread t.connection t.loop).1;
          sent = t.sent ++ [];
          is_waiting = false;
        },
        rw (f, server_turn, g, on_write-closed write_results c refl) refl,
        refl,
        refl,
        append-nil t.sent,
        refl,
      )

  -- Where the peer closes a connection that is up, not waiting and not stopped, on which nothing is unread, with an in
  -- buffer below 2 GB that has room and a valid out buffer, the coroutine ends with this turn, whatever would come
  -- later: the connection is closed and stopped, nothing more is sent, and the world is as before.
  pub main_server_loop-ends :
      (write_results : List (WriteResult × Bool))
      (later : List (List ReadResult × List (WriteResult × Bool))) (t : Turn C World)
      → t.connection.m_state ≡ connected
      → t.connection.m_stop ≡ false
      → t.is_waiting ≡ false
      → IsOpen t.connection.m_in_buffer
      → readable t.connection.m_in_buffer ≡ []
      → IsValid t.connection.m_out_buffer
      → (t' : Turn C World) × (main_server_loop services thread 1
            ((ends ∷ [], write_results) ∷ later)
            t
          ≡ some t')
        × (t'.connection.m_stop ≡ true)
        × (t'.connection.m_state ≡ closed)
        × (t'.sent ≡ t.sent)
        × (t'.world ≡ t.world)
  main_server_loop-ends write_results later t up going awake o empty v =
      let (t', f, stopped, shut, sent, same) = server_turn-ends write_results t up o empty v in
      (
        t',
        main_server_loop-turn services thread 1 (ends ∷ [], write_results) later t t' going awake f
            ∙ main_server_loop-stopped services thread 1 later t' stopped,
        stopped,
        shut,
        sent,
        same,
      )
