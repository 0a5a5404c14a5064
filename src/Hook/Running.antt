-- ===== src/Hook/Running.antt =====
-- coroutine.cpp and fd_event.cpp as the hooks use them: who runs, and the event of a descriptor.
use rpc_framework.Base.{
  ℕ, ◌≡◌, ◌≢◌, refl, ap, sym, ◌∙◌, Bool-cases, inl, inr, none, some, true, false, arith, ==_false,
  ==_refl,
}
use rpc_framework.Coroutine.{
  Thread, switches, yield, resume, get_current_coroutine, is_main_coroutine,
}
use rpc_framework.Fd.{FdEvent}
use rpc_framework.Hook.{Wake, set_event}
use rpc_framework.Loop.{
  EventLoop, add_to_epoll, add_task, wakeup, is_in_loop_thread, add_epoll_event,
}
use rpc_framework.Timer.{update}

-- The coroutine `co` runs, and can be resumed from the main one, `m`.
pub record Runs {A : Type 0} (m co : ℕ) (t : Thread A) : Type 0 where
  pub main : t.t_main_coroutine ≡ some m
  pub current : t.t_cur_coroutine ≡ some co
  pub resumable : (t.cors co).m_can_resume ≡ true
  pub other : m ≢ co

-- The main coroutine runs, and `co` can be resumed.
pub record Rests {A : Type 0} (m co : ℕ) (t : Thread A) : Type 0 where
  pub main : t.t_main_coroutine ≡ some m
  pub current : t.t_cur_coroutine ≡ some m
  pub resumable : (t.cors co).m_can_resume ≡ true
  pub other : m ≢ co

module _ {A : Type 0} where
  pub Runs-not_main : {m co : ℕ} (t : Thread A) → Runs m co t → is_main_coroutine t ≡ false
  unfolding is_main_coroutine
  Runs-not_main {m} {co} t r = rw (r.main, r.current, ==_false co m (λ e. r.other (sym e))) refl

  pub Runs-current :
      {m co : ℕ} (t : Thread A) → Runs m co t → get_current_coroutine t ≡ (some co, t)
  unfolding get_current_coroutine
  Runs-current t r = ground (arith, r.current)

  -- `Yield` goes to the main coroutine, and `Resume` back.
  pub yield-Runs :
      {m co : ℕ} (t : Thread A)
      → Runs m co t
      → yield t ≡ (switches co m, record t { t_cur_coroutine = some m; t_cur_run_time = none })
  unfolding yield
  yield-Runs {m} {co} t r = ground (arith, r.main, r.current, r.other)

  pub resume-Rests :
      {m co : ℕ} (t : Thread A)
      → Rests m co t
      → resume (some co) t
        ≡ (switches m co, record t { t_cur_coroutine = some co; t_cur_run_time = some co })
  unfolding resume
  resume-Rests {m} {co} t r = ground (arith, r.main, r.current, r.resumable, r.other)

add_epoll_event-events :
    {C : Type 0} (thread event : ℕ) (l : EventLoop C)
    → (add_epoll_event thread event l).events ≡ l.events
unfolding add_epoll_event add_to_epoll add_task wakeup
add_epoll_event-events thread event l = elim (Bool-cases (is_in_loop_thread thread l)) [
  | inl e ↦ rw (e, add_epoll_event) refl
  | inr e ↦ rw (e, add_epoll_event) refl
]

pub update-same : {E : Type 0} (events : ℕ → E) (id : ℕ) (e : E) → update events id e id ≡ e
update-same events id e = rw (==_refl id) refl

-- The event of a descriptor that was set and given to epoll.
pub set_event-at :
    (thread fd : ℕ) (e : FdEvent Wake) (l : EventLoop Wake)
    → (add_epoll_event thread fd (set_event fd e l)).events fd ≡ e
set_event-at thread fd e l =
    ap (λ events. events fd) (add_epoll_event-events thread fd (set_event fd e l))
    ∙ update-same l.events fd e
