-- ===== src/Server/Making.antt =====
-- tcp_server.cpp and io_thread_group.cpp: `init` of the server on the main thread, and `start`.
pub mod Tests
use rpc_framework.Base.{
  ℕ, ◌<◌, ◌==◌, suc, length, ◌++◌, ◌+◌, ◌≤◌, ◌*◌, ◌≡◌, ◌≢◌, refl, ap, sym, ◌∙◌, List, [], ◌∷◌,
  Option, none, some, ◌>>=◌, Bool, true, false, arith, map, All, ==_false, ==_refl,
}
use rpc_framework.Base.Int.{ℤ, pos}
use rpc_framework.Addr.{IpNetAddr}
use rpc_framework.Config.{Config}
use rpc_framework.Coroutine.{
  Coroutine, Thread, Switch, refused, faults, switches, blank, set_call_back, resume, yield,
  set_is_in_co_func,
}
use rpc_framework.Coroutine.Lifecycle.{co_function_begins}
use rpc_framework.Coroutine.Filling.{new_thread, get_coroutine_instanse-first}
use rpc_framework.Coroutine.Pool.{CoroutinePool, get_coroutine_pool, get_coroutine_instanse}
use rpc_framework.Server.{TcpAcceptor, TcpServer, IoThread, make_acceptor, on_accept}
use rpc_framework.Server.Configured.{either_zero}
use rpc_framework.Server.Dealing.{dealt, tasks_at, on_accept-deals}
use rpc_framework.Server.Startup.{
  has_posted, is_looping, bit, Reach-IsCounted, IoThreadStart, constructed, has_called_start,
  waits_start, looping, Reach, Step, passes_start, MainAt, not_created, entered, loop_made,
}
use rpc_framework.Threads
use rpc_framework.Threads.{threads_from, round_robin}
use native.Mathlib.Nat.{mod-eq_of_lt}

-- What the system answers to the constructor of the acceptor: whether the address is valid, and the results
-- of `socket`, `bind` and `listen`.
pub record Answers : Type 0 where
  pub valid : Bool
  pub socket_rt : ℤ
  pub bind_rt : ℤ
  pub listen_rt : ℤ

-- The main thread, with the coroutine that accepts.
pub record MainThread (C : Type 0) : Type 0 where
  pub m_accept_cor : ℕ
  pub pool : CoroutinePool
  pub thread : Thread C

module _ {C : Type 0} where
  -- Behind the switch of `Resume`: it comes back where the coroutine, in `onAccept`, yields in the hook of
  -- `accept`. What that does to the descriptor and the main loop is in the model of the hooks.
  unfoldable pub accept_in :
      List (ℤ × IpNetAddr)
      → ℕ
      → CoroutinePool
      → TcpServer
      → Switch × Thread C
      → Option (TcpServer × MainThread C)
  unfolding on_accept yield co_function_begins
  accept_in results cor pool server (refused, t) =
      some (server, record { m_accept_cor = cor; pool = pool; thread = t })
  accept_in results cor pool server (faults, t) = none
  accept_in results cor pool server (switches m co, t) = do
    accepted ← on_accept results server
    let waits = yield (co_function_begins co t)
    some (accepted, record { m_accept_cor = cor; pool = pool; thread = waits.1 })

module _ {C : Type 0} (stack : ℕ → ℕ) (accept_cb : C) where
  -- The part of `init` behind the pool.
  unfoldable pub start_accepting :
      List (ℤ × IpNetAddr)
      → ℕ × CoroutinePool × Thread C
      → TcpServer
      → Option (TcpServer × MainThread C)
  unfolding set_call_back resume accept_in
  start_accepting results (cor, pool, thread) server =
      accept_in results cor pool server
        (resume (some cor) (set_call_back cor (some accept_cb) thread).1)

  -- `TcpServer::init`, in a thread with its pool, if it has one. `io_threads` are the threads of the group, and
  -- `results` what `accept` returns before it has to wait.
  unfoldable pub init :
      Config
      → Answers
      → IpNetAddr
      → (ℕ → IoThread)
      → List (ℤ × IpNetAddr)
      → Option CoroutinePool
      → Thread C
      → Option (TcpServer × MainThread C)
  unfolding make_acceptor Threads.make get_coroutine_pool get_coroutine_instanse start_accepting
  init config a local_addr io_threads results pool thread = do
    acceptor ← make_acceptor local_addr a.valid a.socket_rt a.bind_rt a.listen_rt
    io_thread_group ← Threads.make config.m_io_threads
    got ← get_coroutine_pool stack pool thread
    taken ← get_coroutine_instanse stack got.0 got.1
    start_accepting results taken (record {
      m_acceptor = acceptor;
      m_local_addr = local_addr;
      m_io_thread_group = io_thread_group;
      m_client_counts = 0;
      m_service_cache = [];
      io_threads = io_threads;
    })

-- The coroutine 1 of a thread, which was given a callback, from its `Resume` to its first `Yield`.
abbrev once : {C : Type 0} → C → Thread C → Thread C
once cb u = (yield (co_function_begins 1 (resume (some 1) (set_call_back 1 (some cb) u).1).1)).1

begins :
    {C : Type 0} (cb : C) (size stack_ptr : ℕ) (u : Thread C)
    → u.t_main_coroutine ≡ some 0
    → u.t_cur_coroutine ≡ some 0
    → u.cors 1 ≡ blank size stack_ptr
    → ((resume (some 1) (set_call_back 1 (some cb) u).1).0 ≡ switches 0 1)
      × ((once cb u).t_cur_coroutine ≡ some 0)
      × (((once cb u).cors 1).m_is_in_cofunc ≡ true)
      × (((once cb u).cors 1).m_call_back ≡ some cb)
      × ((resume (some 1) (once cb u)).0 ≡ switches 0 1)
unfolding set_call_back resume yield co_function_begins set_is_in_co_func
begins cb size stack_ptr u m c b = (
  ground (arith, m, c, b),
  ground (arith, m, c, b),
  ground (arith, m, c, b),
  ground (arith, m, c, b),
  ground (arith, m, c, b),
)

start_accepting-waits :
    {C : Type 0} (stack : ℕ → ℕ) (cb : C) (results : List (ℤ × IpNetAddr)) (pool : CoroutinePool)
    (u : Thread C) (server accepted : TcpServer)
    → (resume (some 1) (set_call_back 1 (some cb) u).1).0 ≡ switches 0 1
    → on_accept results server ≡ some accepted
    → start_accepting stack cb results (1, pool, u) server
      ≡ some (accepted, record { m_accept_cor = 1; pool = pool; thread = once cb u })
unfolding start_accepting accept_in
start_accepting-waits stack cb results pool u server accepted e f =
    let r = resume (some 1) (set_call_back 1 (some cb) u).1 in
    ap (λ z. accept_in results 1 pool server (z, r.1)) e
    ∙ ap (λ o. (o >>= λ a. some (a, record { m_accept_cor = 1; pool = pool; thread = once cb u })))
        f

-- On a thread that has made no coroutine, where `malloc` gives stacks, the acceptor's system calls succeed and at least
-- one I/O thread is configured, `init` returns, whatever `accept` gave before it had to wait: in the main coroutine, with the
-- coroutine 1 inside `onAccept`, from where `Resume` goes on. Each client that was accepted is counted, and the threads
-- have the callbacks for them in turn, from the first on, behind the tasks that they had.
pub init-accepts :
    {C : Type 0} (stack : ℕ → ℕ) (accept_cb : C) (config : Config) (local_addr : IpNetAddr)
    (io_threads : ℕ → IoThread) (results : List (ℤ × IpNetAddr)) (cors : ℕ → Coroutine C)
    (fd n i : ℕ)
    → ((id : ℕ) → stack id ≢ 0)
    → config.m_io_threads ≡ pos (suc n)
    → (s : TcpServer) × (m : MainThread C) × (ts : List ℕ) × (init stack accept_cb config
          (record { valid = true; socket_rt = pos fd; bind_rt = pos 0; listen_rt = pos 0 })
          local_addr
          io_threads
          results
          none
          (new_thread cors)
        ≡ some (s, m))
      × (m.m_accept_cor ≡ 1)
      × (m.thread.t_cur_coroutine ≡ some 0)
      × ((m.thread.cors 1).m_is_in_cofunc ≡ true)
      × ((m.thread.cors 1).m_call_back ≡ some accept_cb)
      × ((resume (some 1) m.thread).0 ≡ switches 0 1)
      × (s.m_client_counts ≡ length results)
      × (round_robin (threads_from (suc n) 0) (length results) 0 ≡ some ts)
      × (tasks_at i s
          ≡ (io_threads i).m_event_loop.m_pending_tasks
            ++ dealt
                (record { m_local_addr = local_addr; m_is_inet = true; m_listenfd = pos fd })
                local_addr
                i
                results
                ts)
unfolding init make_acceptor Threads.make
init-accepts stack accept_cb config local_addr io_threads results cors fd n i there configured =
    let (p, q, u, got, taken, main, current, first) =
      get_coroutine_instanse-first stack there cors in
    let (switched, back, is_in, cb, again) =
      begins accept_cb (128 * 1024) (stack 0) u main current first in
    let server : TcpServer = record {
      m_acceptor = record { m_local_addr = local_addr; m_is_inet = true; m_listenfd = pos fd };
      m_local_addr = local_addr;
      m_io_thread_group = record { m_io_thread_groups = threads_from (suc n) 0; m_index = 0 };
      m_client_counts = 0;
      m_service_cache = [];
      io_threads = io_threads;
    } in
    let there_are : 0 < length (threads_from (suc n) 0) = omega arith in
    let (ts, r, s, accepted, count, tasks, _w) =
      on_accept-deals i 0 results server there_are
        (either_zero (0 == length (threads_from (suc n) 0)) ∙ sym (mod-eq_of_lt there_are)) in
    (
      s,
      record { m_accept_cor = 1; pool = q; thread = once accept_cb u },
      ts,
      rw (configured, got, init, taken)
          (start_accepting-waits stack accept_cb results q u server s switched accepted),
      refl,
      back,
      is_in,
      cb,
      again,
      omega (arith, count),
      r,
      tasks,
    )

-- `IOThread::start`
unfoldable pub start_thread : IoThreadStart → IoThreadStart
start_thread s = record s {
  m_start_semaphore = s.m_start_semaphore + 1;
  creator = has_called_start;
}

-- `IOThreadGroup::start`
unfoldable pub start : List IoThreadStart → List IoThreadStart
unfolding start_thread
start [] = []
start (s ∷ group) = start_thread s ∷ start group

-- A thread of the group behind its constructor.
abbrev pub IsConstructed : IoThreadStart → Type 0
IsConstructed s = Reach s × (s.creator ≡ constructed)

-- The thread's next step brings it into `loop`, with its loop made.
abbrev pub EntersLoop : IoThreadStart → Type 0
EntersLoop s = (t : IoThreadStart) × Step s t × (t.main ≡ looping) × (t.m_event_loop ≡ true)

has_posted_le : (m : MainAt) → has_posted m ≤ 1
has_posted_le m = ground arith

only_waits : (m : MainAt) → has_posted m ≡ 1 → is_looping m ≡ 0 → m ≡ waits_start
only_waits m h k = ground (arith, h, k)

bit_one : (b : Bool) → bit b ≡ 1 → b ≡ true
bit_one b h = ground (arith, h)

start_thread-EntersLoop : (s : IoThreadStart) → IsConstructed s → EntersLoop (start_thread s)
unfolding start_thread
start_thread-EntersLoop s (r, e) =
    let c = Reach-IsCounted r in
    let init : s.m_init_semaphore + 1 ≡ has_posted s.main = rw e at c.init in
    let empty : s.m_start_semaphore + is_looping s.main ≡ 0 = rw e at c.start in
    let at = only_waits s.main (omega (arith, init, has_posted_le s.main)) (omega (arith, empty)) in
    let loop : bit s.m_event_loop ≡ 1 = rw at at c.loop in
    (
      record (start_thread s) { m_start_semaphore = 0; main = looping },
      passes_start 0 at (omega (arith, empty)),
      refl,
      bit_one s.m_event_loop loop,
    )

-- Once `start` was called on a group whose threads are all behind their constructors, each of them can go into its
-- loop with its next step, whatever the others do.
pub start-EntersLoop :
    (group : List IoThreadStart) → All IsConstructed group → All EntersLoop (start group)
unfolding start
start-EntersLoop [] h = tt
start-EntersLoop (s ∷ group) h = (start_thread-EntersLoop s h.0, start-EntersLoop group h.1)
