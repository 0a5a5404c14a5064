-- ===== src/Tcp/Sessions.antt =====
-- tcp_connection.cpp: requests that come one after the other on one connection.
pub mod Tests
use rpc_framework.Base.{
  ◌<◌, subst, ℕ, ◌+◌, ◌<◌, ◌≤◌, ◌≡◌, refl, ap, sym, ◌∙◌, List, [], ◌∷◌, ◌++◌, Option, some, Bool,
  true, false, length, arith, length-append, append-nil, append_assoc,
}
use rpc_framework.Addr.{IpNetAddr}
use rpc_framework.Buffer
use rpc_framework.Buffer.{TcpBuffer, CanTake, readable}
use rpc_framework.Coder.{TinyPbProtocol, new_message, packet, packet_size}
use rpc_framework.Base.Int.{pos}
use rpc_framework.Coder.Fields.{arrived}
use rpc_framework.Coder.RoundTrip.{IsOpen, named, AllSendable, packets}
use rpc_framework.Rpc.Dispatcher.{RunTime, ServiceMap, dispatch}
use rpc_framework.Tcp.Closing.{main_server_loop-turn}
use rpc_framework.Tcp.Connection.{
  new_connection, by_server, TcpConnection, ReadResult, WriteResult, serve,
}
use rpc_framework.Tcp.Rounds.{Turn, main_server_loop}
use rpc_framework.Tcp.Serving.{received}
use rpc_framework.Tcp.Turns.{IsIdle, HasRoom, receives, takes, packets_pos, server_turn-completes}
use rpc_framework.Tcp.Writing.{IsWritable}

-- What the socket takes in the turns that make these replies, where the out buffer held `earlier`: each turn
-- sends all replies so far.
pub resent : List ℕ → List TinyPbProtocol → List ℕ
resent earlier [] = []
resent earlier (r ∷ replies) = let all = earlier ++ packets (r ∷ []) in all ++ resent all replies

packets_cons :
    (m : TinyPbProtocol) (ms : List TinyPbProtocol)
    → packets (m ∷ ms) ≡ packets (m ∷ []) ++ packets ms
packets_cons m ms =
    sym (ap (λ l. l ++ packets ms) (append-nil (packet (named m) (pos (packet_size (named m))))))

module _ {Method Message World : Type 0} (services : ServiceMap Method Message World) where
  -- One request in each turn, and a socket that takes all that the turn writes.
  pub session :
      Option IpNetAddr
      → Option IpNetAddr
      → List ℕ
      → List TinyPbProtocol
      → RunTime
      → World
      → List (List ReadResult × List (WriteResult × Bool))
  session local peer earlier [] run_time world = []
  session local peer earlier (m ∷ ms) run_time world =
      let d = dispatch services (arrived (named m)) new_message local peer run_time world in
      let all = earlier ++ packets (d.0 ∷ []) in
      (receives (packets (m ∷ [])), takes all) ∷ session local peer all ms d.1 d.2

module _ {C Method Message World : Type 0} (services : ServiceMap Method Message World)
    (thread : ℕ) where
  -- What `serve` makes of requests that the turn's connection has received at once.
  abbrev pub at_once : List TinyPbProtocol → Turn C World → List TinyPbProtocol × RunTime × World
  at_once ms t =
      serve services t.connection.m_local_addr t.connection.m_peer_addr (received ms) t.run_time
        t.world

  abbrev pub one_by_one :
      List ℕ
      → List TinyPbProtocol
      → Turn C World
      → List (List ReadResult × List (WriteResult × Bool))
  one_by_one earlier ms t =
      session services t.connection.m_local_addr t.connection.m_peer_addr earlier ms t.run_time
        t.world

  -- Sendable requests come one in each turn on a connection that is up, not stopped or waiting, where nothing is
  -- unread, there is room for them all, the bytes `earlier` are in the out buffer, its write index and the packets of the replies are together at most
  -- `write_limit` (about 1.43 GB), the replies are sendable and the
  -- socket takes what is written. Then the coroutine's turns leave the run time, the world and in the out buffer
  -- the replies, in order, behind `earlier`, as `serve` does on all the requests at once. The socket has taken, with each
  -- turn, `earlier` and all the replies so far.
  pub main_server_loop-serves :
      (ms : List TinyPbProtocol) (earlier : List ℕ) (t : Turn C World)
      → HasRoom (length (packets ms)) t.connection.m_in_buffer
      → IsWritable t.connection
      → t.connection.m_stop ≡ false
      → t.is_waiting ≡ false
      → readable t.connection.m_out_buffer ≡ earlier
      → AllSendable ms
      → AllSendable (at_once ms t).0
      → CanTake (length (packets (at_once ms t).0)) t.connection.m_out_buffer
      → (t' : Turn C World) × (main_server_loop services thread 2 (one_by_one earlier ms t) t
          ≡ some t')
        × (t'.run_time ≡ (at_once ms t).1)
        × (t'.world ≡ (at_once ms t).2)
        × (readable t'.connection.m_in_buffer ≡ [])
        × (readable t'.connection.m_out_buffer ≡ earlier ++ packets (at_once ms t).0)
        × (t'.sent ≡ t.sent ++ resent earlier (at_once ms t).0)
  unfolding main_server_loop serve session resent
  main_server_loop-serves [] earlier t i w going awake e h k fits =
      (t, refl, refl, refl, i.nothing_in, e ∙ sym (append-nil earlier), sym (append-nil t.sent))
  main_server_loop-serves (m ∷ ms) earlier t i w going awake e h k fits =
      let d =
        dispatch services (arrived (named m)) new_message t.connection.m_local_addr
          t.connection.m_peer_addr t.run_time t.world in
      let reply = packets (d.0 ∷ []) in
      let count : length (packets (m ∷ ms)) ≡ length (packets (m ∷ [])) + length (packets ms) =
        ap length (packets_cons m ms) ∙ length-append (packets (m ∷ [])) (packets ms) in
      let later =
        (serve services t.connection.m_local_addr t.connection.m_peer_addr (received ms) d.1
          d.2).0 in
      let replies : length (packets (d.0 ∷ later)) ≡ length reply + length (packets later) =
        ap length (packets_cons d.0 later) ∙ length-append reply (packets later) in
      let (b, x, f, o, lower, same, r, v, q, grows) =
        server_turn-completes services thread m earlier (packets (m ∷ [])) t (packets_pos m)
          i.open_in (omega (arith, i.room, count)) (ap (λ l. l ++ packets (m ∷ [])) i.nothing_in) w
          (record { valid = fits.valid; small = omega (arith, fits.small, replies) }) e (h.0, tt)
          (k.0, tt) in
      let next : Turn C World = record t {
        connection = record t.connection { m_in_buffer = b; m_out_buffer = x };
        run_time = d.1;
        world = d.2;
        sent = t.sent ++ (earlier ++ reply);
        is_waiting = false;
      } in
      let (t', g, rt, world, empty, out, sent) =
        main_server_loop-serves ms (earlier ++ reply) next
          (record { open_in = o; nothing_in = r; room = omega (arith, i.room, count, lower, same) })
          (record { valid = v; in_time = w.in_time; state = w.state }) going refl q h.1 k.1
          (record { valid = v; small = omega (arith, fits.small, replies, grows) }) in
      let rest = (at_once ms next).0 in
      let first =
        main_server_loop-turn services thread 2
          (receives (packets (m ∷ [])), takes (earlier ++ reply))
          (one_by_one (earlier ++ reply) ms next) t next going awake f in
      (
        t',
        first ∙ g,
        rt,
        world,
        empty,
        out
            ∙ append_assoc earlier reply (packets rest)
            ∙ ap (λ l. earlier ++ l) (sym (packets_cons d.0 rest)),
        sent ∙ append_assoc t.sent (earlier ++ reply) (resent (earlier ++ reply) rest),
      )
