-- ===== src/Tcp/Fragments.antt =====
-- tcp_connection.cpp and tinypb_coder.cpp: a request that arrives in two pieces.
use rpc_framework.Base.{
  ℕ, suc, ◌+◌, ◌<◌, ◌≡◌, refl, ap, sym, ◌∙◌, List, [], ◌∷◌, ◌++◌, some, true, false, length, arith,
  length-append, append-nil, ==_refl,
}
use rpc_framework.Base.Int.{pos}
use rpc_framework.Buffer.{TcpBuffer, CanTake, readable}
use rpc_framework.Buffer.Laws.{length-readable}
use rpc_framework.Coder.{TinyPbProtocol, net_bytes, packet, packet_size, pb_start}
use rpc_framework.Coder.RoundTrip.{IsOpen, named, AllSendable, packets, length-packet}
use rpc_framework.Coder.Search.{HasNoStart, decode_round-Quiet}
use rpc_framework.Coder.Waiting.{IsPartial, IsPartial-Quiet}
use rpc_framework.Rpc.Dispatcher.{RunTime, ServiceMap}
use rpc_framework.Tcp.Closing.{main_server_loop-turn}
use rpc_framework.Tcp.Connection.{TcpConnection, excute_server, on_write, write_loop}
use rpc_framework.Tcp.Serving.{excute_server-nothing}
use rpc_framework.Tcp.Rounds.{Turn, server_turn, main_server_loop}
use rpc_framework.Tcp.Turns.{
  IsIdle, receives, takes, on_read-appends, answer, server_turn-completes,
}
use rpc_framework.Tcp.Writing.{IsWritable}

-- With nothing to send `onWrite` calls no `write`.
pub on_write-nothing :
    (c : TcpConnection)
    → IsWritable c
    → readable c.m_out_buffer ≡ []
    → on_write [] c ≡ some ([], true, c)
unfolding on_write write_loop
on_write-nothing c w e =
    let b = c.m_out_buffer in
    let same : b.m_write_index ≡ b.m_read_index =
      omega (arith, w.valid.ordered, length-readable w.valid, ap length e) in
    simp (w.in_time, w.state, same, ==_refl b.m_read_index)

-- The first piece of a request: its head, and some bytes behind it.
abbrev pub first_piece : TinyPbProtocol → List ℕ → List ℕ
first_piece m body = pb_start ∷ (net_bytes (pos (packet_size (named m))) ++ body)

length-packets : (m : TinyPbProtocol) → length (packets (m ∷ [])) ≡ packet_size (named m)
length-packets m =
    ap length (append-nil (packet (named m) (pos (packet_size (named m)))))
    ∙ length-packet (named m) (pos (packet_size (named m)))

module _ {Method Message World : Type 0} (services : ServiceMap Method Message World) where
  -- Of a packet that has not arrived whole, `excute` takes nothing.
  excute_server-waits :
      (fuel size : ℕ) (body : List ℕ) (c : TcpConnection) (run_time : RunTime) (world : World)
      → IsPartial size body c.m_in_buffer
      → excute_server services (suc fuel) c run_time world ≡ some (c, run_time, world)
  excute_server-waits fuel size body c run_time world p =
      excute_server-nothing services fuel c run_time world
        (decode_round-Quiet c.m_in_buffer (IsPartial-Quiet size body c.m_in_buffer p))

module _ {C Method Message World : Type 0} (services : ServiceMap Method Message World)
    (thread : ℕ) where
  -- The turn that reads the first piece.
  server_turn-waits :
      (m : TinyPbProtocol) (body back : List ℕ) (t : Turn C World)
      → IsIdle (length (packets (m ∷ []))) t.connection
      → packets (m ∷ []) ≡ first_piece m body ++ back
      → 0 < length back
      → HasNoStart (net_bytes (pos (packet_size (named m))) ++ body)
      → (b : TcpBuffer) × (server_turn services thread 2 (receives (first_piece m body), []) t
          ≡ some (record t {
            connection = record t.connection { m_in_buffer = b };
            sent = t.sent ++ [];
            is_waiting = false;
          }))
        × IsOpen b
        × (readable b ≡ first_piece m body)
        × (b.m_write_index + length back < length b.m_buffer)
  unfolding server_turn
  server_turn-waits m body back t i e p h =
      let front = first_piece m body in
      let size = packet_size (named m) in
      let whole : size ≡ length front + length back =
        sym (length-packets m) ∙ ap length e ∙ length-append front back in
      let c = t.connection in
      let room : c.m_in_buffer.m_write_index + size < length c.m_in_buffer.m_buffer =
        omega (arith, i.inbox.room, length-packets m) in
      let (b, f, o, r, w, l) =
        on_read-appends thread t.loop front c (omega arith) i.writable.state i.inbox.open_in
          (omega (arith, whole, room)) in
      let bytes = r ∙ ap (λ z. z ++ front) i.inbox.nothing_in in
      let partial : IsPartial size body b = record {
        valid = o.valid;
        bytes = bytes;
        others = h;
        short = omega (arith, ap length bytes, whole, p);
        small = omega (
          arith,
          o.valid.ordered,
          length-readable o.valid,
          ap length bytes,
          whole,
          w,
          l,
          room,
          i.inbox.open_in.small,
        );
      } in
      let arrived_on : TcpConnection = record c { m_in_buffer = b } in
      let nothing =
        on_write-nothing arrived_on
          (record {
            valid = i.writable.valid;
            in_time = i.writable.in_time;
            state = i.writable.state;
          })
          i.nothing_out in
      (
        b,
        rw
            (
              f,
              server_turn,
              excute_server-waits services 1 size body arrived_on t.run_time t.world partial,
              nothing,
            )
            refl,
        o,
        bytes,
        omega (arith, w, l, room, whole),
      )

  -- A request comes in two pieces: its start byte, its length and the bytes `body`, none of which but the first is a start
  -- byte, and then the rest. On an idle connection that is not stopped or waiting, where the request and its reply
  -- are sendable and the out buffer's write index and the reply are together at most `write_limit` (about 1.43 GB), the coroutine's two turns answer it as if it had come at once: nothing is sent for the first piece, then
  -- exactly the reply that `dispatch` makes, once. Nothing stays unread, and the world is what the handler leaves.
  pub main_server_loop-assembles :
      (m : TinyPbProtocol) (body back : List ℕ) (t : Turn C World)
      → IsIdle (length (packets (m ∷ []))) t.connection
      → t.connection.m_stop ≡ false
      → t.is_waiting ≡ false
      → packets (m ∷ []) ≡ first_piece m body ++ back
      → 0 < length back
      → HasNoStart (net_bytes (pos (packet_size (named m))) ++ body)
      → AllSendable (m ∷ [])
      → AllSendable ((answer services thread m t).0 ∷ [])
      → CanTake (length (packets ((answer services thread m t).0 ∷ []))) t.connection.m_out_buffer
      → (t1 t2 : Turn C World) × (server_turn services thread 2
            (receives (first_piece m body), [])
            t
          ≡ some t1)
        × (main_server_loop services thread 2
              ((receives (first_piece m body), [])
                ∷ (receives back, takes (packets ((answer services thread m t).0 ∷ [])))
                ∷ [])
              t
            ≡ some t2)
        × (t1.sent ≡ t.sent)
        × (t2.sent ≡ t.sent ++ packets ((answer services thread m t).0 ∷ []))
        × (readable t2.connection.m_in_buffer ≡ [])
        × (t2.world ≡ (answer services thread m t).2)
  unfolding main_server_loop
  main_server_loop-assembles m body back t i going awake e p h s k fits =
      let (b, f, o, r, w) = server_turn-waits m body back t i e p h in
      let t1 : Turn C World = record t {
        connection = record t.connection { m_in_buffer = b };
        sent = t.sent ++ [];
        is_waiting = false;
      } in
      let reply = packets ((answer services thread m t).0 ∷ []) in
      let (b', x, g, _o, _w, _l, r', _v, _x, _g) =
        server_turn-completes services thread m [] back t1 p o w (ap (λ z. z ++ back) r ∙ sym e)
          (record {
            valid = i.writable.valid;
            in_time = i.writable.in_time;
            state = i.writable.state;
          })
          fits i.nothing_out s k in
      let t2 : Turn C World = record t1 {
        connection = record t1.connection { m_in_buffer = b'; m_out_buffer = x };
        run_time = (answer services thread m t).1;
        world = (answer services thread m t).2;
        sent = (t.sent ++ []) ++ reply;
      } in
      let first =
        main_server_loop-turn services thread 2 (receives (first_piece m body), [])
          ((receives back, takes reply) ∷ []) t t1 going awake f in
      let second =
        main_server_loop-turn services thread 2 (receives back, takes reply) [] t1 t2 going refl
          g in
      (
        t1,
        t2,
        f,
        first ∙ second,
        append-nil t.sent,
        ap (λ z. z ++ reply) (append-nil t.sent),
        r',
        refl,
      )
