-- ===== src/Timer/Tests.antt =====
-- A timer with three events, and the theorems about timers applied to it.
use rpc_framework.Base.{ℕ, zero, suc, ◌≡◌, [], ◌∷◌, none, some, true, false, arith}
use rpc_framework.Timer.{TimerEvent, Timer, on_timer, add_timer_event, tasks_of, live}
use rpc_framework.Timer.Order.{IsSorted, add_timer_event-IsSorted}
use rpc_framework.Timer.Runs.{on_timer-runs}

-- Three events with the callbacks 10, 11 and 12: due and repeated, due and canceled, due later.
abbrev event : ℕ → TimerEvent ℕ
event zero = record {
  m_arrive_time = 5;
  m_interval = 50;
  m_is_repeated = true;
  m_is_canceled = false;
  m_task = some 10;
}
event (suc zero) = record {
  m_arrive_time = 6;
  m_interval = 1;
  m_is_repeated = false;
  m_is_canceled = true;
  m_task = some 11;
}
event (suc (suc n)) = record {
  m_arrive_time = 90;
  m_interval = 1;
  m_is_repeated = false;
  m_is_canceled = false;
  m_task = some 12;
}

abbrev timer : Timer ℕ
timer = record { events = event; m_pending_events = (5, 0) ∷ (6, 1) ∷ (90, 2) ∷ []; armed = none }

timer-IsSorted : IsSorted timer
timer-IsSorted = (omega arith, (omega arith, (omega arith, tt)))

on_timer-runs_example : (on_timer 20 timer).0 ≡ 10 ∷ []
unfolding live tasks_of
on_timer-runs_example = on_timer-runs 20 timer timer-IsSorted

add_timer_event-IsSorted_example : IsSorted (add_timer_event 20 2 timer)
add_timer_event-IsSorted_example = add_timer_event-IsSorted 20 2 timer timer-IsSorted
