-- ===== src/Hook.antt =====
-- RpcFramework/rocket/coroutine/coroutine_hook.cpp: `accept`, `read`, `write` and `connect` in a
-- coroutine wait in epoll in place of the kernel. A hook is two functions: what it does until it returns
-- or calls `Yield`, and what it does behind `Yield`. What the system call returns, the first and the
-- second time, is an argument. The event of a descriptor is the loop's event with its number; the flag
-- O_NONBLOCK that `setNonBlock` sets is the kernel's and not modelled.
pub mod Running
pub mod Waiting
pub mod Connecting
pub mod Epoll
pub mod Tests
use rpc_framework.Base.{
  ℕ, ◌+◌, Option, none, some, Bool, true, false, not, ◌&&◌, ◌||◌, ◌==◌, ltb, if◌then◌else◌,
}
use rpc_framework.Base.Int.{ℤ, pos, negsuc}
use rpc_framework.Coroutine.{
  Thread, Switch, yield, resume, get_current_coroutine, is_main_coroutine,
}
use rpc_framework.Fd
use rpc_framework.Fd.{FdEvent, TriggerEvent, in_event, out_event}
use rpc_framework.Loop.{EventLoop, add_epoll_event}
use rpc_framework.Timer.{Timer, update, new_timer_event, add_timer_event, delete_timer_event}

-- The callbacks that the hooks make: `Resume(cur_cor)`, and `timeout_cb` of `connect_hook`.
pub data Wake : Type 0 where
  wakes : ℕ → Wake
  times_out : ℕ → Wake

-- What a hook works on: the thread's coroutines, its loop with its timer, and `is_timeout`, which is a local of
-- each `connect_hook`: there is one here, for one `connect` at a time that waits.
pub record Hooks (A : Type 0) : Type 0 where
  pub thread : Thread A
  pub loop : EventLoop Wake
  pub timer : Timer Wake
  pub is_timeout : Bool

-- How the first part of a hook ends: with a result, or in `Yield`.
pub data Hooked : Type 0 where
  returns : ℤ → Hooked
  yields : Switch → Hooked

abbrev pub is_positive : ℤ → Bool
is_positive (pos n) = ltb 0 n
is_positive (negsuc n) = false

abbrev pub is_zero : ℤ → Bool
is_zero (pos n) = n == 0
is_zero (negsuc n) = false

abbrev pub is_negative : ℤ → Bool
is_negative (pos n) = false
is_negative (negsuc n) = true

-- `errno` on Linux.
abbrev pub eisconn : ℕ
eisconn = 106

abbrev pub etimedout : ℕ
etimedout = 110

abbrev pub einprogress : ℕ
einprogress = 115

abbrev pub set_event : ℕ → FdEvent Wake → EventLoop Wake → EventLoop Wake
set_event fd event l = record l { events = update l.events fd event }

-- The lambdas of `toEpoll` and `connect_hook`, which capture the current coroutine.
abbrev pub resume_cb : Option ℕ → Option Wake
resume_cb none = none
resume_cb (some cur_cor) = some (wakes cur_cor)

abbrev pub timeout_cb : Option ℕ → Option Wake
timeout_cb none = none
timeout_cb (some cur_cor) = some (times_out cur_cor)

-- The calls of `listen` for the bits `IN_EVENT` and `OUT_EVENT`.
abbrev pub listen_for : Bool → Bool → Option Wake → FdEvent Wake → FdEvent Wake
listen_for reads writes callback event =
    let on_in = if reads then Fd.listen in_event callback none event else event in
    if writes then Fd.listen out_event callback none on_in else on_in

module _ {A : Type 0} where
  unfoldable pub to_epoll : ℕ → Bool → Bool → Hooks A → Hooks A
  to_epoll fd reads writes s =
      let cur = get_current_coroutine s.thread in
      let event = listen_for reads writes (resume_cb cur.0) (s.loop.events fd) in
      record s {
        thread = cur.1;
        loop = add_epoll_event s.loop.m_thread_id fd (set_event fd event s.loop);
      }

  -- `fd_event->cancel` and `loop->addEpollEvent`, behind `Yield`.
  unfoldable pub stop_waiting : TriggerEvent → ℕ → Hooks A → Hooks A
  stop_waiting trigger fd s = record s {
    loop =
        add_epoll_event s.loop.m_thread_id fd
          (set_event fd (Fd.cancel trigger (s.loop.events fd)) s.loop);
  }

  abbrev pub go_to_yield : Hooks A → Hooked × Hooks A
  go_to_yield s = (yields (yield s.thread).0, record s { thread = (yield s.thread).1 })

  unfoldable pub read_hook : ℕ → ℤ → Hooks A → Hooked × Hooks A
  read_hook fd n s =
      if is_main_coroutine s.thread
      then (returns n, s)
      else if is_positive n
      then (returns n, s)
      else go_to_yield (to_epoll fd true false s)

  unfoldable pub read_resumed : ℕ → ℤ → Hooks A → ℤ × Hooks A
  read_resumed fd n s = (n, stop_waiting in_event fd s)

  unfoldable pub accept_hook : ℕ → ℤ → Hooks A → Hooked × Hooks A
  accept_hook sockfd n s =
      if is_main_coroutine s.thread
      then (returns n, s)
      else if is_positive n
      then (returns n, s)
      else go_to_yield (to_epoll sockfd true false s)

  unfoldable pub accept_resumed : ℕ → ℤ → Hooks A → ℤ × Hooks A
  accept_resumed sockfd n s = (n, stop_waiting in_event sockfd s)

  unfoldable pub write_hook : ℕ → ℤ → Hooks A → Hooked × Hooks A
  write_hook fd n s =
      if is_main_coroutine s.thread
      then (returns n, s)
      else if is_positive n
      then (returns n, s)
      else go_to_yield (to_epoll fd false true s)

  unfoldable pub write_resumed : ℕ → ℤ → Hooks A → ℤ × Hooks A
  write_resumed fd n s = (n, stop_waiting out_event fd s)

  -- `connect_hook` at time `now`, with the identity of its timer event; the system call gives a result and
  -- `errno`.
  unfoldable pub connect_hook : ℕ → ℕ → ℕ → ℤ × ℕ → Hooks A → Hooked × Hooks A
  connect_hook now event sockfd (n, errno) s =
      let cur = get_current_coroutine s.thread in
      let started = record s { thread = cur.1 } in
      let waiting = to_epoll sockfd false true started in
      let timed = record waiting {
        timer = add_timer_event now event (record s.timer {
          events = update s.timer.events event (new_timer_event now 10000 false (timeout_cb cur.0));
        });
        is_timeout = false;
      } in
      if is_main_coroutine s.thread
      then (returns n, s)
      else if is_zero n
      then (returns n, started)
      else if not (errno == einprogress)
      then (returns n, started)
      else go_to_yield timed

  -- The result and `errno`.
  unfoldable pub connect_resumed : ℕ → ℕ → ℤ × ℕ → Hooks A → (ℤ × ℕ) × Hooks A
  connect_resumed event sockfd (n, errno) s =
      let left = stop_waiting out_event sockfd s in
      let done = record left { timer = delete_timer_event event s.timer } in
      if (is_negative n && (errno == eisconn)) || is_zero n
      then ((pos 0, errno), done)
      else ((negsuc 0, if s.is_timeout then etimedout else errno), done)

  -- What the loop and the timer do with a callback of the hooks.
  unfoldable pub run_wake : Wake → Hooks A → Switch × Hooks A
  run_wake (wakes co) s = let r = resume (some co) s.thread in (r.0, record s { thread = r.1 })
  run_wake (times_out co) s =
      let r = resume (some co) s.thread in (r.0, record s { thread = r.1; is_timeout = true })

-- The functions that take the place of the system's, under `g_hook`.
pub record Globals : Type 0 where
  pub g_hook : Bool

unfoldable pub set_hook : Bool → Globals → Globals
set_hook value g = record g { g_hook = value }

module _ {A : Type 0} (g : Globals) where
  unfoldable pub accept : ℕ → ℤ → Hooks A → Hooked × Hooks A
  accept sockfd n s = if not g.g_hook then (returns n, s) else accept_hook sockfd n s

  unfoldable pub read : ℕ → ℤ → Hooks A → Hooked × Hooks A
  read fd n s = if not g.g_hook then (returns n, s) else read_hook fd n s

  unfoldable pub write : ℕ → ℤ → Hooks A → Hooked × Hooks A
  write fd n s = if not g.g_hook then (returns n, s) else write_hook fd n s

  unfoldable pub connect : ℕ → ℕ → ℕ → ℤ × ℕ → Hooks A → Hooked × Hooks A
  connect now event sockfd (n, errno) s =
      if not g.g_hook then (returns n, s) else connect_hook now event sockfd (n, errno) s
