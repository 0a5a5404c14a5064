-- ===== src/Server/Dealing.antt =====
-- tcp_server.cpp: which I/O thread gets which client.
use rpc_framework.Base.{
  ℕ, ◌+◌, ◌%◌, ◌<◌, ◌≡◌, refl, ap, sym, ◌∙◌, List, [], ◌∷◌, ◌++◌, some, ◌>>=◌, bind-some, Bool,
  true, false, ◌==◌, if◌then◌else◌, length, append-nil, append_assoc, arith, ==_iff,
}
use rpc_framework.Base.Int.{ℤ}
use rpc_framework.Addr.{IpNetAddr}
use rpc_framework.Loop.{Task, calls, add_task}
use rpc_framework.Server.{
  TcpAcceptor, to_accept, AddClient, IoThread, TcpServer, accept_one, on_accept,
}
use rpc_framework.Threads.{
  IoThreadGroup, wrapped, get_io_thread, next_threads, round_robin, next_threads-round_robin,
}
use rpc_framework.Timer.{update}

-- The callback for what `accept` returns.
abbrev pub callback_of : TcpAcceptor → IpNetAddr → ℤ × IpNetAddr → AddClient
callback_of acceptor addr result = record {
  client_fd = (to_accept result acceptor).0;
  peer_addr = (to_accept result acceptor).1;
  local_addr = some addr;
}

-- The tasks of one thread, where a client goes to the thread `t`.
abbrev pub task_for : TcpAcceptor → IpNetAddr → ℕ → ℕ → ℤ × IpNetAddr → List (Task AddClient)
task_for acceptor addr thread t result =
    if thread == t then calls (some (callback_of acceptor addr result)) ∷ [] else []

-- The tasks of one thread, where the clients go to these threads in turn.
abbrev pub dealt :
    TcpAcceptor → IpNetAddr → ℕ → List (ℤ × IpNetAddr) → List ℕ → List (Task AddClient)
dealt acceptor addr thread [] ts = []
dealt acceptor addr thread (result ∷ results) [] = []
dealt acceptor addr thread (result ∷ results) (t ∷ ts) =
    task_for acceptor addr thread t result ++ dealt acceptor addr thread results ts

abbrev pub tasks_at : ℕ → TcpServer → List (Task AddClient)
tasks_at thread s = (s.io_threads thread).m_event_loop.m_pending_tasks

abbrev pub wakeups_at : ℕ → TcpServer → ℕ
wakeups_at thread s = (s.io_threads thread).m_event_loop.wakeups

-- The server after a client went to a thread.
abbrev accepted : ℤ × IpNetAddr → ℕ × IoThreadGroup → TcpServer → TcpServer
accepted result chosen s = record s {
  m_client_counts = s.m_client_counts + 1;
  m_io_thread_group = chosen.1;
  io_threads = update s.io_threads chosen.0 (record (s.io_threads chosen.0) {
    m_event_loop =
        add_task (calls (some (callback_of s.m_acceptor s.m_local_addr result))) false
          (s.io_threads chosen.0).m_event_loop;
  });
}

accept_one-accepted :
    (result : ℤ × IpNetAddr) (chosen : ℕ × IoThreadGroup) (s : TcpServer)
    → get_io_thread s.m_io_thread_group ≡ some chosen
    → accept_one result s ≡ some (accepted result chosen s)
unfolding accept_one
accept_one-accepted result chosen s f = rw f refl

accepted-queues :
    (thread : ℕ) (result : ℤ × IpNetAddr) (chosen : ℕ × IoThreadGroup) (s : TcpServer)
    → (tasks_at thread (accepted result chosen s)
        ≡ tasks_at thread s ++ task_for s.m_acceptor s.m_local_addr thread chosen.0 result)
      × (wakeups_at thread (accepted result chosen s) ≡ wakeups_at thread s)
unfolding add_task
accepted-queues thread result chosen s = go (thread == chosen.0) refl
  where
    queued : IoThread
    queued = record (s.io_threads chosen.0) {
      m_event_loop =
          add_task (calls (some (callback_of s.m_acceptor s.m_local_addr result))) false
            (s.io_threads chosen.0).m_event_loop;
    }

    go :
        (b : Bool)
        → (thread == chosen.0) ≡ b
        → ((if b then queued else s.io_threads thread).m_event_loop.m_pending_tasks
            ≡ tasks_at thread s
              ++ (if b
                  then calls (some (callback_of s.m_acceptor s.m_local_addr result)) ∷ []
                  else []))
          × ((if b then queued else s.io_threads thread).m_event_loop.wakeups ≡ wakeups_at thread s)
    go true e =
        let same = sym ((==_iff thread chosen.0).0 e) in
        (
          ap
              (λ t.
                tasks_at t s ++ calls (some (callback_of s.m_acceptor s.m_local_addr result)) ∷ [])
              same,
          ap (λ t. wakeups_at t s) same,
        )
    go false e = (sym (append-nil (tasks_at thread s)), refl)

on_accept-deals_to :
    (thread : ℕ) (results : List (ℤ × IpNetAddr)) (ts : List ℕ) (s : TcpServer)
    → next_threads (length results) s.m_io_thread_group ≡ some ts
    → (s' : TcpServer) × (on_accept results s ≡ some s')
      × (s'.m_client_counts ≡ s.m_client_counts + length results)
      × (tasks_at thread s'
          ≡ tasks_at thread s ++ dealt s.m_acceptor s.m_local_addr thread results ts)
      × (wakeups_at thread s' ≡ wakeups_at thread s)
unfolding on_accept next_threads
on_accept-deals_to thread [] ts s e =
    (s, refl, omega arith, sym (append-nil (tasks_at thread s)), refl)
on_accept-deals_to thread (result ∷ results) [] s e = absurd (emptied e)
  where
    emptied :
        (get_io_thread s.m_io_thread_group >>= λ r.
        next_threads (length results) r.1 >>= λ rest. some (r.0 ∷ rest))
          ≡ some []
        → ⊥
    emptied h =
        let (chosen, f, rest) = bind-some (get_io_thread s.m_io_thread_group) _ h in
        let (more, g, same) = bind-some (next_threads (length results) chosen.1) _ rest in
        ground (arith, same)
on_accept-deals_to thread (result ∷ results) (t ∷ ts) s e =
    let (chosen, f, rest) = bind-some (get_io_thread s.m_io_thread_group) _ e in
    let (more, g, same) = bind-some (next_threads (length results) chosen.1) _ rest in
    let first : chosen.0 ≡ t = ground (arith, same) in
    let others : more ≡ ts = ground (arith, same) in
    let after = accepted result chosen s in
    let (s', h, count, tasks, wakes) =
      on_accept-deals_to thread results ts after (g ∙ ap some others) in
    let later = dealt s.m_acceptor s.m_local_addr thread results ts in
    let to : ℕ → List (Task AddClient) =
      λ c. task_for s.m_acceptor s.m_local_addr thread c result in
    let (queued, kept) = accepted-queues thread result chosen s in
    (
      s',
      rw (accept_one-accepted result chosen s f) h,
      omega (arith, count),
      tasks
          ∙ ap (λ q. q ++ later) queued
          ∙ append_assoc (tasks_at thread s) (to chosen.0) later
          ∙ ap (λ c. tasks_at thread s ++ (to c ++ later)) first,
      wakes ∙ kept,
    )

-- From a group of I/O threads that has some, whose next one is number `i` modulo their number, whatever
-- `accept` returns: `onAccept` counts each return, and gives the callbacks to the threads in turn, from number
-- `i` on. Each thread's loop has just its own clients more, in the order in which they came, and no
-- loop is woken up.
pub on_accept-deals :
    (thread i : ℕ) (results : List (ℤ × IpNetAddr)) (s : TcpServer)
    → 0 < length s.m_io_thread_group.m_io_thread_groups
    → wrapped s.m_io_thread_group ≡ i % length s.m_io_thread_group.m_io_thread_groups
    → (ts : List ℕ) × (round_robin s.m_io_thread_group.m_io_thread_groups (length results) i
        ≡ some ts)
      × (s' : TcpServer) × (on_accept results s ≡ some s')
      × (s'.m_client_counts ≡ s.m_client_counts + length results)
      × (tasks_at thread s'
          ≡ tasks_at thread s ++ dealt s.m_acceptor s.m_local_addr thread results ts)
      × (wakeups_at thread s' ≡ wakeups_at thread s)
on_accept-deals thread i results s h e =
    let (ts, f, r) = next_threads-round_robin (length results) i s.m_io_thread_group h e in
    let (s', g, count, tasks, wakes) = on_accept-deals_to thread results ts s f in
    (ts, r, s', g, count, tasks, wakes)
