-- ===== src/Loop/Making.antt =====
-- RpcFramework/rocket/net/eventloop.cpp: the constructor of the loop, with the descriptor that wakes it up
-- and its timer's. What the system calls return is an argument, and so are the two events' identities
-- and callbacks.
use rpc_framework.Base.{
  ℕ, ◌≡◌, refl, [], Option, none, some, ◌>>=◌, Bool, false, ◌==◌, if◌then◌else◌,
}
use rpc_framework.Base.Int.{ℤ, pos, negsuc}
use rpc_framework.Fd
use rpc_framework.Fd.{FdEvent, in_event, new_event, handler}
use rpc_framework.Loop.{EventLoop, add_epoll_event}
use rpc_framework.Loop.Epoll.{InStep, replay, start-InStep, add_epoll_event-InStep}
use rpc_framework.Timer.{update}

abbrev pub is_failure : ℤ → Bool
is_failure (pos n) = false
is_failure (negsuc n) = n == 0

module _ {C : Type 0} where
  -- `initWakeUpFdEvent`, with what `eventfd` returns; none is `exit(0)`.
  unfoldable pub init_wake_up_fd_event : ℕ → C → ℤ → EventLoop C → Option (EventLoop C)
  init_wake_up_fd_event event cb (negsuc n) l = none
  init_wake_up_fd_event event cb (pos wakeup_fd) l =
      let e = Fd.listen in_event (some cb) none (new_event wakeup_fd) in
      some (add_epoll_event l.m_thread_id event (record l { events = update l.events event e }))

  -- `initTimer`, with the descriptor that `timerfd_create` returns.
  unfoldable pub init_timer : ℕ → C → ℕ → EventLoop C → EventLoop C
  init_timer event on_timer timer_fd l =
      let e = Fd.listen in_event (some on_timer) none (new_event timer_fd) in
      add_epoll_event l.m_thread_id event (record l { events = update l.events event e })

  -- The loop's fields before the calls of the constructor, in a thread, over a store of events.
  abbrev pub empty_loop : ℕ → (ℕ → FdEvent C) → EventLoop C
  empty_loop thread events = record {
    m_thread_id = thread;
    m_listen_fds = [];
    m_pending_tasks = [];
    m_stop_flag = false;
    m_is_looping = false;
    events = events;
    epoll_log = [];
    wakeups = 0;
  }

  -- `EventLoop::EventLoop`, with whether the thread has a loop and what `epoll_create` returns.
  unfoldable pub make :
      Bool → ℤ → ℕ → (ℕ → FdEvent C) → ℕ × C × ℤ → ℕ × C × ℕ → Option (EventLoop C)
  unfolding init_wake_up_fd_event init_timer
  make has_loop epoll_fd thread events (wake_event, wake_cb, wakeup_fd)
        (timer_event, on_timer, timer_fd) =
      let made = init_wake_up_fd_event wake_event wake_cb wakeup_fd (empty_loop thread events) in
      if has_loop
      then none
      else if is_failure epoll_fd
      then none
      else (made >>= λ l. some (init_timer timer_event on_timer timer_fd l))

  -- `GetCurrentEventLoop`, with the thread's loop, if it has one.
  unfoldable pub get_current_event_loop :
      Option (EventLoop C) → ℤ → ℕ → (ℕ → FdEvent C) → ℕ × C × ℤ → ℕ × C × ℕ → Option (EventLoop C)
  unfolding make
  get_current_event_loop (some l) epoll_fd thread events wake timer = some l
  get_current_event_loop none epoll_fd thread events wake timer =
      make false epoll_fd thread events wake timer

  -- In a thread without a loop, where the system calls succeed, the constructor gives a loop that
  -- is in step with the kernel.
  pub make-InStep :
      (epoll_fd thread wake_event wakeup_fd timer_event timer_fd : ℕ) (wake_cb on_timer : C)
      (events : ℕ → FdEvent C)
      → (l : EventLoop C) × (make false
            (pos epoll_fd)
            thread
            events
            (wake_event, wake_cb, pos wakeup_fd)
            (timer_event, on_timer, timer_fd)
          ≡ some l)
        × InStep l
  unfolding make init_wake_up_fd_event init_timer replay
  make-InStep epoll_fd thread wake_event wakeup_fd timer_event timer_fd wake_cb on_timer events =
      let wake = Fd.listen in_event (some wake_cb) none (new_event wakeup_fd) in
      let begun = record (empty_loop thread events) { events = update events wake_event wake } in
      let woken = add_epoll_event thread wake_event begun in
      let timer = Fd.listen in_event (some on_timer) none (new_event timer_fd) in
      let timed = record woken { events = update woken.events timer_event timer } in
      let first =
        (add_epoll_event-InStep thread wake_event begun (start-InStep begun refl refl)).0 in
      (_, refl, (add_epoll_event-InStep woken.m_thread_id timer_event timed first).0)
