-- ===== src/Loop/Rounds.antt =====
-- eventloop.cpp: the order of tasks, and what becomes of a ready event.
use rpc_framework.Base.{
  ℕ, ◌≡◌, refl, ap, sym, ◌∙◌, List, [], ◌∷◌, ◌++◌, none, some, Bool, true, false, if◌then◌else◌,
  append_assoc, append-nil,
}
use rpc_framework.Fd.{handler, in_event, out_event, error_event}
use rpc_framework.Loop.{
  Task, calls, adds, deletes, resumes, EventLoop, add_to_epoll, delete_from_epoll, add_task,
  handle_ready, handle_all, run_task, run_tasks, loop_round, contains,
}

module _ {C : Type 0} (exec : C → EventLoop C → EventLoop C)
    (resume : ℕ → EventLoop C → EventLoop C) (pushed : C → List (Task C))
    (woken : ℕ → List (Task C))
    (exec-pushes : (c : C) (l : EventLoop C)
      → (exec c l).m_pending_tasks ≡ l.m_pending_tasks ++ pushed c)
    (resume-pushes : (cor : ℕ) (l : EventLoop C)
      → (resume cor l).m_pending_tasks ≡ l.m_pending_tasks ++ woken cor) where
  -- The tasks that running one task adds, and running several.
  abbrev pub added_by : Task C → List (Task C)
  added_by (calls none) = []
  added_by (calls (some c)) = pushed c
  added_by (adds event) = []
  added_by (deletes event) = []
  added_by (resumes cor) = woken cor

  abbrev pub added_by_all : List (Task C) → List (Task C)
  added_by_all [] = []
  added_by_all (task ∷ tasks) = added_by task ++ added_by_all tasks

  run_task-adds :
      (task : Task C) (l : EventLoop C)
      → (run_task exec resume task l).m_pending_tasks ≡ l.m_pending_tasks ++ added_by task
  unfolding run_task add_to_epoll delete_from_epoll
  run_task-adds (calls none) l = sym (append-nil l.m_pending_tasks)
  run_task-adds (calls (some c)) l = exec-pushes c l
  run_task-adds (adds event) l = sym (append-nil l.m_pending_tasks)
  run_task-adds (deletes event) l =
      kept _ (contains (l.events event).m_fd l.m_listen_fds) refl
      ∙ sym (append-nil l.m_pending_tasks)
    where
      kept :
          (m : EventLoop C) (b : Bool)
          → m.m_pending_tasks ≡ l.m_pending_tasks
          → (if b then m else l).m_pending_tasks ≡ l.m_pending_tasks
      kept m true e = e
      kept m false e = refl
  run_task-adds (resumes cor) l = resume-pushes cor l

  run_tasks-adds :
      (tasks : List (Task C)) (l : EventLoop C)
      → (run_tasks exec resume tasks l).m_pending_tasks ≡ l.m_pending_tasks ++ added_by_all tasks
  unfolding run_tasks
  run_tasks-adds [] l = sym (append-nil l.m_pending_tasks)
  run_tasks-adds (task ∷ tasks) l =
      run_tasks-adds tasks (run_task exec resume task l)
      ∙ ap (λ q. q ++ added_by_all tasks) (run_task-adds task l)
      ∙ append_assoc l.m_pending_tasks (added_by task) (added_by_all tasks)

  -- Where callbacks and coroutines only add tasks at the end of the queue, a turn with no ready
  -- event runs each task that was queued at its start once and leaves exactly the tasks that they
  -- added, in the order of running: none is lost, and none runs in the same turn.
  pub loop_round-fifo :
      (l : EventLoop C)
      → (loop_round exec resume (some []) l).m_pending_tasks ≡ added_by_all l.m_pending_tasks
  unfolding loop_round handle_all
  loop_round-fifo l = run_tasks-adds l.m_pending_tasks (record l { m_pending_tasks = [] })

module _ {C : Type 0} where
  -- For an event that is ready with an error alone, and has an error callback, the write callback
  -- is queued, not that one, and its descriptor leaves the loop's set.
  pub handle_ready-error :
      (event : ℕ) (l : EventLoop C) (c : C)
      → handler error_event (l.events event) ≡ some c
      → handle_ready (some event, false, false, true) l
        ≡ add_task (calls (handler out_event (l.events event))) false (delete_from_epoll event l)
  unfolding handle_ready
  handle_ready-error event l c e = rw (e, handle_ready)

  -- An event that is ready for reading and writing, with no error, has its two handlers queued in that
  -- order, and nothing else changes.
  pub handle_ready-io :
      (event : ℕ) (l : EventLoop C)
      → handle_ready (some event, true, true, false) l ≡ record l {
        m_pending_tasks =
            l.m_pending_tasks
            ++ calls (handler in_event (l.events event))
              ∷ calls (handler out_event (l.events event))
              ∷ [];
      }
  unfolding handle_ready add_task
  handle_ready-io event l =
      ap (λ q. record l { m_pending_tasks = q })
        (append_assoc l.m_pending_tasks (calls (handler in_event (l.events event)) ∷ [])
          (calls (handler out_event (l.events event)) ∷ []))
