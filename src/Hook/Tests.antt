-- ===== src/Hook/Tests.antt =====
-- A coroutine that reads and one that connects, and the theorems about the hooks applied to them.
use rpc_framework.Base.{ℕ, ◌≡◌, refl, [], ◌∷◌, none, some, true, false, arith}
use rpc_framework.Base.Int.{pos, negsuc}
use rpc_framework.Coroutine.{Thread, blank, switches}
use rpc_framework.Fd.{new_event}
use rpc_framework.Hook.{
  Wake, wakes, times_out, Hooks, yields, einprogress, etimedout, connect_hook, connect_resumed,
  run_wake,
}
use rpc_framework.Hook.Running.{Runs, Rests}
use rpc_framework.Hook.Waiting.{reads, writes, Waits, begin, finish, begin-comes_back}
use rpc_framework.Hook.Connecting.{HasEntry, connect-times_out}
use rpc_framework.Loop.{EventLoop}

-- The main coroutine is 0, and coroutine 1 runs.
abbrev in_coroutine : Thread ℕ
in_coroutine = record {
  t_main_coroutine = some 0;
  t_cur_coroutine = some 1;
  t_cur_run_time = some 1;
  t_coroutine_count = 2;
  t_cur_coroutine_id = 2;
  cors = λ id. blank 64 1;
}

abbrev hook_loop : EventLoop Wake
hook_loop = record {
  m_thread_id = 1;
  m_listen_fds = [];
  m_pending_tasks = [];
  m_stop_flag = false;
  m_is_looping = true;
  events = new_event;
  epoll_log = [];
  wakeups = 0;
}

abbrev calling : Hooks ℕ
calling = record {
  thread = in_coroutine;
  loop = hook_loop;
  timer = record {
    events = λ id. record {
      m_arrive_time = 0;
      m_interval = 0;
      m_is_repeated = false;
      m_is_canceled = false;
      m_task = none;
    };
    m_pending_events = (7, 9) ∷ [];
    armed = none;
  };
  is_timeout = false;
}

-- The main coroutine runs.
abbrev resting : Hooks ℕ
resting = record calling {
  thread = record in_coroutine { t_cur_coroutine = some 0; t_cur_run_time = none };
}

calling-Runs : Runs 0 1 calling.thread
calling-Runs = record { main = refl; current = refl; resumable = refl; other = ground arith }

resting-Rests : Rests 0 1 resting.thread
resting-Rests = record { main = refl; current = refl; resumable = refl; other = ground arith }

begin-comes_back_example :
    ((w : Hooks ℕ) × (begin reads 4 (negsuc 0) calling ≡ (yields (switches 1 0), w))
      × Waits reads 0 1 4 w)
    × ((v : Hooks ℕ) × (run_wake (wakes 1) resting ≡ (switches 0 1, v))
        × (v.thread.t_cur_coroutine ≡ some 1)
        × ((finish reads 4 (pos 12) v).0 ≡ pos 12)
        × ((finish reads 4 (pos 12) v).1.thread ≡ v.thread)
        × (((finish reads 4 (pos 12) v).1.loop.events 4).m_listen_in ≡ false))
begin-comes_back_example =
    begin-comes_back reads 4 (negsuc 0) (pos 12) calling resting calling-Runs refl resting-Rests

connect-times_out_example :
    ((w : Hooks ℕ) × (connect_hook 5 8 4 (negsuc 0, einprogress) calling
        ≡ (yields (switches 1 0), w))
      × Waits writes 0 1 4 w
      × (w.is_timeout ≡ false)
      × ((w.timer.events 8).m_task ≡ some (times_out 1))
      × HasEntry 10005 8 w.timer.m_pending_events)
    × ((v : Hooks ℕ) × (run_wake (times_out 1) resting ≡ (switches 0 1, v))
        × ((connect_resumed 8 4 (negsuc 0, 114) v).0 ≡ (negsuc 0, etimedout))
        × (((connect_resumed 8 4 (negsuc 0, 114) v).1.loop.events 4).m_listen_out ≡ false)
        × (((connect_resumed 8 4 (negsuc 0, 114) v).1.timer.events 8).m_is_canceled ≡ true))
connect-times_out_example =
    connect-times_out 5 8 4 0 114 (negsuc 0) calling resting calling-Runs refl resting-Rests
      (ground arith)
