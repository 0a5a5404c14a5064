-- ===== src/Timer.antt =====
-- RpcFramework/rocket/net/timer.h, timer.cpp, timer_event.h and timer_event.cpp. Events are shared
-- objects: they live in a store, by an identity, and the pending map holds identities. Times are
-- milliseconds that do not overflow, intervals are not negative, and a handler reads one time. The
-- mutex makes each section that it guards one step.
pub mod Order
pub mod Runs
pub mod Tests
use rpc_framework.Base.{
  ℕ, ◌+◌, ◌-◌, ◌*◌, ◌/◌, ◌%◌, List, [], ◌∷◌, Option, none, some, Bool, true, false, not, ◌&&◌, ◌||◌,
  ltb, leb, ◌==◌, if◌then◌else◌,
}

pub record TimerEvent (C : Type 0) : Type 0 where
  pub m_arrive_time : ℕ
  pub m_interval : ℕ
  pub m_is_repeated : Bool
  pub m_is_canceled : Bool
  pub m_task : Option C

-- `m_pending_events` with its keys, and what `timerfd_settime` was last given: seconds and nanoseconds.
pub record Timer (C : Type 0) : Type 0 where
  pub events : ℕ → TimerEvent C
  pub m_pending_events : List (ℕ × ℕ)
  pub armed : Option (ℕ × ℕ)

-- A write to one shared event.
abbrev pub update {ℓ} : {E : Type ℓ} → (ℕ → E) → ℕ → E → ℕ → E
update events id e j = if j == id then e else events j

module _ {C : Type 0} where
  -- `TimerEvent::TimerEvent` and `TimerEvent::resetArriveTime` at time `now`.
  unfoldable pub new_timer_event : ℕ → ℕ → Bool → Option C → TimerEvent C
  new_timer_event now interval is_repeated cb = record {
    m_arrive_time = now + interval;
    m_interval = interval;
    m_is_repeated = is_repeated;
    m_is_canceled = false;
    m_task = cb;
  }

  unfoldable pub reset_event : ℕ → TimerEvent C → TimerEvent C
  reset_event now e = record e { m_arrive_time = now + e.m_interval }

  unfoldable pub set_cancled : Bool → TimerEvent C → TimerEvent C
  set_cancled value e = record e { m_is_canceled = value }

-- `std::multimap::emplace`: behind the entries with the same key.
unfoldable pub emplace : ℕ → ℕ → List (ℕ × ℕ) → List (ℕ × ℕ)
emplace key id [] = (key, id) ∷ []
emplace key id ((k, e) ∷ pending) =
    if ltb key k then (key, id) ∷ (k, e) ∷ pending else (k, e) ∷ emplace key id pending

-- The first entry with this key and this event, erased.
unfoldable pub erase_event : ℕ → ℕ → List (ℕ × ℕ) → List (ℕ × ℕ)
erase_event key id [] = []
erase_event key id ((k, e) ∷ pending) =
    if (k == key) && (e == id) then pending else (k, e) ∷ erase_event key id pending

-- The entries before the first one that is later than `now`, and the others.
unfoldable pub due : ℕ → List (ℕ × ℕ) → List (ℕ × ℕ)
due now [] = []
due now ((k, e) ∷ pending) = if leb k now then (k, e) ∷ due now pending else []

unfoldable pub not_due : ℕ → List (ℕ × ℕ) → List (ℕ × ℕ)
not_due now [] = []
not_due now ((k, e) ∷ pending) = if leb k now then not_due now pending else (k, e) ∷ pending

abbrev pub timespec : ℕ → ℕ × ℕ
timespec interval = (interval / 1000, interval % 1000 * 1000000)

module _ {C : Type 0} where
  -- `Timer::resetArriveTime`: sets the descriptor for the first pending event.
  unfoldable pub reset_arrive_time : ℕ → Timer C → Timer C
  reset_arrive_time now t = elim t.m_pending_events [
    | [] ↦ t
    | (k, e) ∷ pending ↦
        let arrive = (t.events e).m_arrive_time in
        record t { armed = some (timespec (if ltb now arrive then arrive - now else 100)) }
  ]

  -- Whether the event comes before all that are pending.
  abbrev pub is_first : TimerEvent C → Timer C → Bool
  is_first event t = elim t.m_pending_events [
    | [] ↦ true
    | (k, e) ∷ pending ↦ ltb event.m_arrive_time (t.events e).m_arrive_time
  ]

  unfoldable pub add_timer_event : ℕ → ℕ → Timer C → Timer C
  add_timer_event now id t =
      let event = t.events id in
      let added = record t {
        m_pending_events = emplace event.m_arrive_time id t.m_pending_events;
      } in
      if is_first event t then reset_arrive_time now added else added

  unfoldable pub delete_timer_event : ℕ → Timer C → Timer C
  delete_timer_event id t = record t {
    events = update t.events id (set_cancled true (t.events id));
    m_pending_events = erase_event (t.events id).m_arrive_time id t.m_pending_events;
  }

  -- `temp` and `tasks` of `onTimer`: the due events that are not canceled, and their callbacks.
  unfoldable pub live : (ℕ → TimerEvent C) → List (ℕ × ℕ) → List ℕ
  live events [] = []
  live events ((k, e) ∷ entries) =
      if (events e).m_is_canceled then live events entries else e ∷ live events entries

  unfoldable pub tasks_of : (ℕ → TimerEvent C) → List ℕ → List C
  tasks_of events [] = []
  tasks_of events (e ∷ ids) = elim ((events e).m_task) [
    | none ↦ tasks_of events ids
    | some c ↦ c ∷ tasks_of events ids
  ]

  -- The repeated events, added again at their next time.
  unfoldable pub add_again : ℕ → List ℕ → Timer C → Timer C
  add_again now [] t = t
  add_again now (e ∷ ids) t =
      let moved = record t { events = update t.events e (reset_event now (t.events e)) } in
      let again = if (t.events e).m_is_repeated then add_timer_event now e moved else t in
      add_again now ids again

  -- `onTimer` at time `now`: the callbacks that it runs, in order, and the timer before they run.
  unfoldable pub on_timer : ℕ → Timer C → List C × Timer C
  on_timer now t =
      let temp = live t.events (due now t.m_pending_events) in
      let left = record t { m_pending_events = not_due now t.m_pending_events } in
      (tasks_of t.events temp, reset_arrive_time now (add_again now temp left))
