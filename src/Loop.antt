-- ===== src/Loop.antt =====
-- RpcFramework/rocket/net/eventloop.h, eventloop.cpp and wakeup_fd_event.cpp: the reactor of one thread.
-- Events are shared objects in a store, by an identity. The kernel's epoll set is not modelled: the loop
-- keeps the log of its `epoll_ctl` calls. What a callback and a resumed coroutine do is an argument.
pub mod Epoll
pub mod Making
pub mod Rounds
pub mod Tests
use rpc_framework.Base.{
  ℕ, ◌+◌, List, [], ◌∷◌, ◌++◌, Option, none, some, Bool, true, false, ◌==◌, if◌then◌else◌,
}
use rpc_framework.Fd.{FdEvent, TriggerEvent, in_event, out_event, error_event, handler}

-- The functions that the queue holds: callbacks, of which some may be empty, and those that the loop
-- makes itself.
pub data Task (C : Type 0) : Type 0 where
  calls : Option C → Task C
  adds : ℕ → Task C
  deletes : ℕ → Task C
  resumes : ℕ → Task C

pub data EpollOp : Type 0 where
  ctl_add ctl_mod ctl_del : EpollOp

-- A call of `epoll_ctl`: the operation, the descriptor, and the interest in reading and writing.
pub record EpollCtl : Type 0 where
  pub op : EpollOp
  pub fd : ℕ
  pub reads : Bool
  pub writes : Bool

pub record EventLoop (C : Type 0) : Type 0 where
  pub m_thread_id : ℕ
  pub m_listen_fds : List ℕ
  pub m_pending_tasks : List (Task C)
  pub m_stop_flag : Bool
  pub m_is_looping : Bool
  pub events : ℕ → FdEvent C
  pub epoll_log : List EpollCtl
  pub wakeups : ℕ

-- `std::set<int>`.
unfoldable pub contains : ℕ → List ℕ → Bool
contains fd [] = false
contains fd (x ∷ fds) = if x == fd then true else contains fd fds

unfoldable pub insert_fd : ℕ → List ℕ → List ℕ
insert_fd fd fds = if contains fd fds then fds else fd ∷ fds

unfoldable pub erase_fd : ℕ → List ℕ → List ℕ
erase_fd fd [] = []
erase_fd fd (x ∷ fds) = if x == fd then fds else x ∷ erase_fd fd fds

module _ {C : Type 0} where
  -- `ADD_TO_EPOLL`
  unfoldable pub add_to_epoll : ℕ → EventLoop C → EventLoop C
  add_to_epoll event l =
      let e = l.events event in
      let op = if contains e.m_fd l.m_listen_fds then ctl_mod else ctl_add in
      let ctl : EpollCtl = record {
        op = op;
        fd = e.m_fd;
        reads = e.m_listen_in;
        writes = e.m_listen_out;
      } in
      record l {
        m_listen_fds = insert_fd e.m_fd l.m_listen_fds;
        epoll_log = l.epoll_log ++ ctl ∷ [];
      }

  -- `DELETE_FROM_EPOLL`
  unfoldable pub delete_from_epoll : ℕ → EventLoop C → EventLoop C
  delete_from_epoll event l =
      let e = l.events event in
      let ctl : EpollCtl = record { op = ctl_del; fd = e.m_fd; reads = false; writes = false } in
      if contains e.m_fd l.m_listen_fds
      then record l {
        m_listen_fds = erase_fd e.m_fd l.m_listen_fds;
        epoll_log = l.epoll_log ++ ctl ∷ [];
      }
      else l

  -- `WakeUpFdEvent::wakeup`: eight bytes to the event descriptor.
  unfoldable pub wakeup : EventLoop C → EventLoop C
  wakeup l = record l { wakeups = l.wakeups + 1 }

  unfoldable pub add_task : Task C → Bool → EventLoop C → EventLoop C
  add_task callback is_wake_up l =
      let pushed = record l { m_pending_tasks = l.m_pending_tasks ++ callback ∷ [] } in
      if is_wake_up then wakeup pushed else pushed

  unfoldable pub is_in_loop_thread : ℕ → EventLoop C → Bool
  is_in_loop_thread thread l = thread == l.m_thread_id

  -- The calls by a thread: at once in the loop's own one, and as a task from another.
  unfoldable pub add_epoll_event : ℕ → ℕ → EventLoop C → EventLoop C
  add_epoll_event thread event l =
      if is_in_loop_thread thread l then add_to_epoll event l else add_task (adds event) true l

  unfoldable pub delete_epoll_event : ℕ → ℕ → EventLoop C → EventLoop C
  delete_epoll_event thread event l =
      if is_in_loop_thread thread l
      then delete_from_epoll event l
      else add_task (deletes event) true l

  unfoldable pub add_coroutine : ℕ → Bool → EventLoop C → EventLoop C
  add_coroutine cor is_wake_up l = add_task (resumes cor) is_wake_up l

  unfoldable pub stop : EventLoop C → EventLoop C
  stop l = wakeup (record l { m_stop_flag = true })

-- One entry of `epoll_wait`'s result: the event that its `data.ptr` names, and its bits EPOLLIN, EPOLLOUT
-- and EPOLLERR.
abbrev pub Ready : Type 0
Ready = Option ℕ × Bool × Bool × Bool

module _ {C : Type 0} where
  -- The handlers that a ready event queues.
  unfoldable pub handle_ready : Ready → EventLoop C → EventLoop C
  handle_ready (none, r, w, e) l = l
  handle_ready (some event, r, w, e) l =
      let on_in = if r then add_task (calls (handler in_event (l.events event))) false l else l in
      let on_out =
        if w then add_task (calls (handler out_event (l.events event))) false on_in else on_in in
      if e
      then (let deleted = delete_from_epoll event on_out in
          elim (handler error_event (l.events event)) [
            | none ↦ deleted
            | some c ↦ add_task (calls (handler out_event (l.events event))) false deleted
          ])
      else on_out

  unfoldable pub handle_all : List Ready → EventLoop C → EventLoop C
  handle_all [] l = l
  handle_all (r ∷ ready) l = handle_all ready (handle_ready r l)

module _ {C : Type 0} (exec : C → EventLoop C → EventLoop C)
    (resume : ℕ → EventLoop C → EventLoop C) where
  unfoldable pub run_task : Task C → EventLoop C → EventLoop C
  run_task (calls none) l = l
  run_task (calls (some c)) l = exec c l
  run_task (adds event) l = add_to_epoll event l
  run_task (deletes event) l = delete_from_epoll event l
  run_task (resumes cor) l = resume cor l

  unfoldable pub run_tasks : List (Task C) → EventLoop C → EventLoop C
  run_tasks [] l = l
  run_tasks (task ∷ tasks) l = run_tasks tasks (run_task task l)

  -- One turn of `loop`: the tasks that are queued at its start, then what `epoll_wait` reports; none
  -- where it fails.
  unfoldable pub loop_round : Option (List Ready) → EventLoop C → EventLoop C
  loop_round ready l =
      let ran = run_tasks l.m_pending_tasks (record l { m_pending_tasks = [] }) in
      elim ready [ none ↦ ran | some events ↦ handle_all events ran ]

  -- `loop` over the results of `epoll_wait`, until it is stopped.
  unfoldable pub loop : List (Option (List Ready)) → EventLoop C → EventLoop C
  loop [] l = record l { m_is_looping = true }
  loop (ready ∷ results) l =
      let l' = record l { m_is_looping = true } in
      let rest = loop results (loop_round ready l') in if l.m_stop_flag then l' else rest
