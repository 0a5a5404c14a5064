-- ===== src/Loop/Tests.antt =====
-- Two event loops, and the theorems about loops applied to them.
use rpc_framework.Base.{
  ℕ, zero, suc, sym, append-nil, ◌≡◌, refl, List, [], ◌∷◌, ◌++◌, none, some, true, false,
}
use rpc_framework.Fd.{new_event}
use rpc_framework.Loop.{EventLoop, Task, calls, adds, add_task, loop}
use rpc_framework.Loop.Epoll.{InStep, start-InStep, loop-InStep}

abbrev idle_loop : EventLoop ℕ
idle_loop = record {
  m_thread_id = 1;
  m_listen_fds = [];
  m_pending_tasks = calls (some 3) ∷ adds 4 ∷ calls (some 0) ∷ [];
  m_stop_flag = false;
  m_is_looping = false;
  events = new_event;
  epoll_log = [];
  wakeups = 0;
}

-- The callback `n + 1` queues the callback `n`.
abbrev exec : ℕ → EventLoop ℕ → EventLoop ℕ
exec zero l = l
exec (suc n) l = add_task (calls (some n)) false l

abbrev pushed : ℕ → List (Task ℕ)
pushed zero = []
pushed (suc n) = calls (some n) ∷ []

exec-InStep : (c : ℕ) (l : EventLoop ℕ) → InStep l → InStep (exec c l)
unfolding add_task
exec-InStep zero l s = s
exec-InStep (suc n) l s = s

exec-pushes : (c : ℕ) (l : EventLoop ℕ) → (exec c l).m_pending_tasks ≡ l.m_pending_tasks ++ pushed c
unfolding add_task
exec-pushes zero l = sym (append-nil l.m_pending_tasks)
exec-pushes (suc n) l = refl

loop-InStep_example : InStep (
    loop exec
      (λ cor l. l)
      (some [] ∷ none ∷ some ((some 4, true, false, false) ∷ []) ∷ [])
      idle_loop)
loop-InStep_example =
    loop-InStep exec (λ cor l. l) exec-InStep (λ cor l s. s)
      (some [] ∷ none ∷ some ((some 4, true, false, false) ∷ []) ∷ []) idle_loop
      (start-InStep idle_loop refl refl)
