-- ===== src/Tcp/Turns.antt =====
-- tcp_connection.cpp, tinypb_coder.cpp and rpc_dispatcher.cpp together: a request arrives and its reply
-- goes out.
use rpc_framework.Base.{
  ℕ, ◌+◌, ◌-◌, ◌<◌, ◌≤◌, ◌≡◌, refl, ap, sym, ◌∙◌, List, [], ◌∷◌, ◌++◌, some, Bool, true, false,
  length, arith, length-append,
}
use rpc_framework.Buffer.{TcpBuffer, IsValid, CanTake, readable}
use rpc_framework.Buffer.Laws.{length-readable}
use rpc_framework.Coder.{TinyPbProtocol, new_message, packet}
use rpc_framework.Coder.Fields.{arrived}
use rpc_framework.Coder.RoundTrip.{IsOpen, named, AllSendable, packets}
use rpc_framework.Loop.{EventLoop}
use rpc_framework.Rpc.Dispatcher.{RunTime, ServiceMap, dispatch}
use rpc_framework.Tcp.Connection.{
  TcpConnection, connected, ReadResult, reads, again, WriteResult, writes, on_read, on_write, serve,
}
use rpc_framework.Tcp.Reading.{read_loop-appends}
use rpc_framework.Tcp.Rounds.{Turn, server_turn}
use rpc_framework.Tcp.Serving.{excute_server-buffers}
use rpc_framework.Tcp.Writing.{IsWritable, on_write-all}

-- An in buffer with nothing unread and room for `n` bytes and one more.
pub record HasRoom (n : ℕ) (b : TcpBuffer) : Type 0 where
  pub open_in : IsOpen b
  pub nothing_in : readable b ≡ []
  pub room : b.m_write_index + n < length b.m_buffer

-- A connection that is up, with room for `n` bytes and nothing to send.
pub record IsIdle (n : ℕ) (c : TcpConnection) : Type 0 where
  pub inbox : HasRoom n c.m_in_buffer
  pub writable : IsWritable c
  pub nothing_out : readable c.m_out_buffer ≡ []

-- `read` gives these bytes and then waits for more.
abbrev pub receives : List ℕ → List ReadResult
receives [] = again ∷ []
receives (x ∷ xs) = reads x xs ∷ []

-- The socket takes so many bytes.
abbrev pub takes : List ℕ → List (WriteResult × Bool)
takes xs = (writes (length xs), false) ∷ []

pub send_all :
    (xs : List ℕ) (c : TcpConnection)
    → 0 < length xs
    → IsWritable c
    → readable c.m_out_buffer ≡ xs
    → on_write (takes xs) c ≡ some (xs, true, c)
send_all xs c h w e =
    let b = c.m_out_buffer in
    let n : length xs ≡ b.m_write_index - b.m_read_index =
      ap length (sym e) ∙ length-readable w.valid in
    rw (n, ← e) (on_write-all false [] c w (omega (arith, n)))

module _ {C : Type 0} (thread : ℕ) (l : EventLoop C) where
  -- All bytes arrive on a connection with room for them.
  pub on_read-appends :
      (xs : List ℕ) (c : TcpConnection)
      → 0 < length xs
      → c.m_state ≡ connected
      → IsOpen c.m_in_buffer
      → c.m_in_buffer.m_write_index + length xs < length c.m_in_buffer.m_buffer
      → (b : TcpBuffer) × (on_read thread (receives xs) c l
          ≡ some (true, record c { m_in_buffer = b }, l))
        × IsOpen b
        × (readable b ≡ readable c.m_in_buffer ++ xs)
        × (b.m_write_index ≤ c.m_in_buffer.m_write_index + length xs)
        × (length b.m_buffer ≡ length c.m_in_buffer.m_buffer)
  unfolding on_read
  on_read-appends [] c h up o i = elim h [ ]
  on_read-appends (x ∷ xs) c h up o i =
      let (b, f, p, r, w, l) = read_loop-appends x xs [] c.m_in_buffer o i in
      (b, simp (up, f), p, r, w, l)

  -- So they do where nothing is unread.
  pub on_read-receives :
      (xs : List ℕ) (c : TcpConnection)
      → 0 < length xs
      → c.m_state ≡ connected
      → HasRoom (length xs) c.m_in_buffer
      → (b : TcpBuffer) × (on_read thread (receives xs) c l
          ≡ some (true, record c { m_in_buffer = b }, l))
        × IsOpen b
        × (readable b ≡ xs)
  on_read-receives xs c h up i =
      let (b, f, o, r, _w, _l) = on_read-appends xs c h up i.open_in i.room in
      (b, f, o, r ∙ ap (λ l. l ++ xs) i.nothing_in)

pub packets_pos : (m : TinyPbProtocol) → 0 < length (packets (m ∷ []))
unfolding packet
packets_pos m = omega arith

appended_pos : (xs : List ℕ) (m : TinyPbProtocol) → 0 < length (xs ++ packets (m ∷ []))
appended_pos xs m = omega (arith, length-append xs (packets (m ∷ [])), packets_pos m)

module _ {C Method Message World : Type 0} (services : ServiceMap Method Message World)
    (thread : ℕ) where
  -- The server's answer to a request that has arrived.
  abbrev pub answer : TinyPbProtocol → Turn C World → TinyPbProtocol × RunTime × World
  answer m t =
      dispatch services (arrived (named m)) new_message t.connection.m_local_addr
        t.connection.m_peer_addr t.run_time t.world

  -- On a connection that is up, where the bytes that arrive complete a sendable request, there is room for
  -- them, the bytes `earlier` are in the out buffer, which can take the reply, and the reply is sendable: the turn that reads them
  -- sends `earlier` and the reply, as `dispatch` makes it, and both still stand in the out buffer. The
  -- in buffer has nothing unread, and the world is what the handler leaves.
  pub server_turn-completes :
      (m : TinyPbProtocol) (earlier xs : List ℕ) (t : Turn C World)
      → 0 < length xs
      → IsOpen t.connection.m_in_buffer
      → t.connection.m_in_buffer.m_write_index + length xs
        < length t.connection.m_in_buffer.m_buffer
      → readable t.connection.m_in_buffer ++ xs ≡ packets (m ∷ [])
      → IsWritable t.connection
      → CanTake (length (packets ((answer m t).0 ∷ []))) t.connection.m_out_buffer
      → readable t.connection.m_out_buffer ≡ earlier
      → AllSendable (m ∷ [])
      → AllSendable ((answer m t).0 ∷ [])
      → (b x : TcpBuffer) × (server_turn services thread 2
            (receives xs, takes (earlier ++ packets ((answer m t).0 ∷ [])))
            t
          ≡ some (record t {
            connection = record t.connection { m_in_buffer = b; m_out_buffer = x };
            run_time = (answer m t).1;
            world = (answer m t).2;
            sent = t.sent ++ (earlier ++ packets ((answer m t).0 ∷ []));
            is_waiting = false;
          }))
        × IsOpen b
        × (b.m_write_index ≤ t.connection.m_in_buffer.m_write_index + length xs)
        × (length b.m_buffer ≡ length t.connection.m_in_buffer.m_buffer)
        × (readable b ≡ [])
        × IsValid x
        × (readable x ≡ earlier ++ packets ((answer m t).0 ∷ []))
        × (x.m_write_index
            ≤ t.connection.m_out_buffer.m_write_index + length (packets ((answer m t).0 ∷ [])))
  unfolding server_turn serve
  server_turn-completes m earlier xs t p i room whole writable fits e h k =
      let reply = (answer m t).0 in
      let (b, f, o, r, lower, same) =
        on_read-appends thread t.loop xs t.connection p writable.state i room in
      let arrived_on : TcpConnection = record t.connection { m_in_buffer = b } in
      let (b', out, g, o', v, r', q, grows) =
        excute_server-buffers services (m ∷ []) arrived_on t.run_time t.world o fits h (r ∙ whole)
          k in
      let done : TcpConnection = record t.connection { m_in_buffer = b'; m_out_buffer = out } in
      let w : IsWritable done = record {
        valid = v;
        in_time = writable.in_time;
        state = writable.state;
      } in
      let bytes : readable out ≡ earlier ++ packets (reply ∷ []) =
        q ∙ ap (λ z. z ++ packets (reply ∷ [])) e in
      let wrote =
        send_all (earlier ++ packets (reply ∷ [])) done (appended_pos earlier reply) w bytes in
      (
        b',
        out,
        rw (f, server_turn, g, wrote) refl,
        o'.still_open,
        omega (arith, lower, o'.lower),
        o'.capacity ∙ same,
        r',
        v,
        bytes,
        grows,
      )

  -- On a connection that is up, with nothing unread and room for a sendable request, and with the bytes
  -- `earlier` in the out buffer, which can take the reply, where the reply is sendable: the turn that reads the request sends `earlier` and the reply, as
  -- `dispatch` makes it, and both still stand in the out buffer, where the next turn finds them. The world
  -- is what the handler leaves.
  pub server_turn-resends :
      (m : TinyPbProtocol) (earlier : List ℕ) (t : Turn C World)
      → HasRoom (length (packets (m ∷ []))) t.connection.m_in_buffer
      → IsWritable t.connection
      → CanTake (length (packets ((answer m t).0 ∷ []))) t.connection.m_out_buffer
      → readable t.connection.m_out_buffer ≡ earlier
      → AllSendable (m ∷ [])
      → AllSendable ((answer m t).0 ∷ [])
      → (t' : Turn C World) × (server_turn services thread 2
            (receives (packets (m ∷ [])), takes (earlier ++ packets ((answer m t).0 ∷ [])))
            t
          ≡ some t')
        × (t'.sent ≡ t.sent ++ (earlier ++ packets ((answer m t).0 ∷ [])))
        × (readable t'.connection.m_out_buffer ≡ earlier ++ packets ((answer m t).0 ∷ []))
        × (t'.world ≡ (answer m t).2)
        × (t'.is_waiting ≡ false)
  server_turn-resends m earlier t i writable fits e h k =
      let reply = (answer m t).0 in
      let (b, x, f, _o, _w, _l, _r, _v, bytes, _g) =
        server_turn-completes m earlier (packets (m ∷ [])) t (packets_pos m) i.open_in i.room
          (ap (λ l. l ++ packets (m ∷ [])) i.nothing_in) writable fits e h k in
      (
        record t {
          connection = record t.connection { m_in_buffer = b; m_out_buffer = x };
          run_time = (answer m t).1;
          world = (answer m t).2;
          sent = t.sent ++ (earlier ++ packets (reply ∷ []));
          is_waiting = false;
        },
        f,
        refl,
        bytes,
        refl,
        refl,
      )

  -- The bytes of one request on an idle connection whose out buffer can take the reply: one turn sends the bytes of its reply.
  pub server_turn-answers :
      (m : TinyPbProtocol) (t : Turn C World)
      → IsIdle (length (packets (m ∷ []))) t.connection
      → CanTake (length (packets ((answer m t).0 ∷ []))) t.connection.m_out_buffer
      → t.sent ≡ []
      → AllSendable (m ∷ [])
      → AllSendable ((answer m t).0 ∷ [])
      → (t' : Turn C World) × (server_turn services thread 2
            (receives (packets (m ∷ [])), takes (packets ((answer m t).0 ∷ [])))
            t
          ≡ some t')
        × (t'.sent ≡ packets ((answer m t).0 ∷ []))
        × (t'.world ≡ (answer m t).2)
  server_turn-answers m t i fits s h k =
      let (t', f, sent, left, w, waits) =
        server_turn-resends m [] t i.inbox i.writable fits i.nothing_out h k in
      (t', f, sent ∙ ap (λ z. z ++ packets ((answer m t).0 ∷ [])) s, w)
