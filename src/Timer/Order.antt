-- ===== src/Timer/Order.antt =====
-- timer.cpp: the pending map stays ordered by time, and the descriptor is set for its front.
use rpc_framework.Base.{
  ℕ, ◌+◌, ◌-◌, ◌*◌, ◌/◌, ◌%◌, ◌<◌, ◌≤◌, ◌≡◌, refl, List, [], ◌∷◌, some, Bool, true, false, ltb,
  if◌then◌else◌, arith, Bool-cases, inl, inr,
}
use rpc_framework.Timer.{
  Timer, update, emplace, erase_event, due, not_due, reset_arrive_time, is_first, add_timer_event,
  delete_timer_event, live, add_again, on_timer, reset_event,
}

-- In order, and not before `lo`.
abbrev pub SortedFrom : ℕ → List (ℕ × ℕ) → Type 0
SortedFrom lo [] = Unit
SortedFrom lo ((k, e) ∷ pending) = (lo ≤ k) × SortedFrom k pending

SortedFrom-weaken :
    (lo hi : ℕ) (pending : List (ℕ × ℕ)) → lo ≤ hi → SortedFrom hi pending → SortedFrom lo pending
SortedFrom-weaken lo hi [] h s = tt
SortedFrom-weaken lo hi ((k, e) ∷ pending) h s = (omega (arith, s.0), s.1)

emplace-Sorted :
    (key id lo : ℕ) (pending : List (ℕ × ℕ))
    → lo ≤ key
    → SortedFrom lo pending
    → SortedFrom lo (emplace key id pending)
unfolding emplace
emplace-Sorted key id lo [] h s = (h, tt)
emplace-Sorted key id lo ((k, e) ∷ pending) h s = ground (arith, emplace-Sorted key id k pending)

erase_event-Sorted :
    (key id lo : ℕ) (pending : List (ℕ × ℕ))
    → SortedFrom lo pending
    → SortedFrom lo (erase_event key id pending)
unfolding erase_event
erase_event-Sorted key id lo [] s = tt
erase_event-Sorted key id lo ((k, e) ∷ pending) s =
    ground (arith, erase_event-Sorted key id k pending, SortedFrom-weaken lo k pending)

not_due-Sorted :
    (now lo : ℕ) (pending : List (ℕ × ℕ))
    → SortedFrom lo pending
    → SortedFrom lo (not_due now pending)
unfolding not_due
not_due-Sorted now lo [] s = tt
not_due-Sorted now lo ((k, e) ∷ pending) s =
    ground (arith, not_due-Sorted now k pending, SortedFrom-weaken lo k (not_due now pending))

module _ {C : Type 0} where
  -- The pending events are in order of time.
  abbrev pub IsSorted : Timer C → Type 0
  IsSorted t = SortedFrom 0 t.m_pending_events

  pending-reset_arrive_time :
      (now : ℕ) (t : Timer C) → (reset_arrive_time now t).m_pending_events ≡ t.m_pending_events
  unfolding reset_arrive_time
  pending-reset_arrive_time now t = ground arith

  -- Adding an event keeps the pending events in the order of their times.
  pub add_timer_event-IsSorted :
      (now id : ℕ) (t : Timer C) → IsSorted t → IsSorted (add_timer_event now id t)
  unfolding add_timer_event
  add_timer_event-IsSorted now id t s = elim (Bool-cases (is_first (t.events id) t)) [
    | inl e ↦ rw (e, add_timer_event, pending-reset_arrive_time) (emplaced t s)
    | inr e ↦ rw (e, add_timer_event) (emplaced t s)
  ]
    where
      emplaced :
          (u : Timer C)
          → IsSorted u
          → SortedFrom 0 (emplace (u.events id).m_arrive_time id u.m_pending_events)
      emplaced u h =
          emplace-Sorted (u.events id).m_arrive_time id 0 u.m_pending_events (omega arith) h

  -- Deleting one keeps the order.
  pub delete_timer_event-IsSorted :
      (id : ℕ) (t : Timer C) → IsSorted t → IsSorted (delete_timer_event id t)
  unfolding delete_timer_event
  delete_timer_event-IsSorted id t s =
      erase_event-Sorted (t.events id).m_arrive_time id 0 t.m_pending_events s

  if-IsSorted : (b : Bool) (t u : Timer C) → IsSorted t → IsSorted u → IsSorted (if b then t else u)
  if-IsSorted true t u h k = h
  if-IsSorted false t u h k = k

  add_again-IsSorted :
      (now : ℕ) (ids : List ℕ) (t : Timer C) → IsSorted t → IsSorted (add_again now ids t)
  unfolding add_again
  add_again-IsSorted now [] t s = s
  add_again-IsSorted now (e ∷ ids) t s = add_again-IsSorted now ids _ (
      if-IsSorted (t.events e).m_is_repeated _ t
        (add_timer_event-IsSorted now e
          (record t { events = update t.events e (reset_event now (t.events e)) }) s)
        s)

  -- A run of the timer, which adds the repeated events again, keeps the pending events in the
  -- order of their times.
  pub on_timer-IsSorted : (now : ℕ) (t : Timer C) → IsSorted t → IsSorted (on_timer now t).1
  unfolding on_timer
  on_timer-IsSorted now t s = rw pending-reset_arrive_time (
      add_again-IsSorted now (live t.events (due now t.m_pending_events))
        (record t { m_pending_events = not_due now t.m_pending_events })
        (not_due-Sorted now 0 t.m_pending_events s))

  -- Where something is pending, the descriptor is set to a time that is not zero, which would disarm it,
  -- with nanoseconds below a second: the time until the first event, or 100 milliseconds if that has
  -- passed.
  pub reset_arrive_time-armed :
      (now k e : ℕ) (pending : List (ℕ × ℕ)) (t : Timer C)
      → t.m_pending_events ≡ (k, e) ∷ pending
      → (seconds nanos : ℕ) × ((reset_arrive_time now t).armed ≡ some (seconds, nanos))
        × (nanos < 1000000000)
        × (0 < seconds * 1000000000 + nanos)
        × (seconds * 1000000000 + nanos
            ≡ 1000000
              * (if ltb now (t.events e).m_arrive_time
                  then (t.events e).m_arrive_time - now
                  else 100))
  unfolding reset_arrive_time
  reset_arrive_time-armed now k e pending t p =
      let a = (t.events e).m_arrive_time in
      let i = if ltb now a then a - now else 100 in
      let pos_i : 0 < i = ground arith in
      (
        i / 1000,
        i % 1000 * 1000000,
        rw (p, reset_arrive_time) refl,
        omega arith,
        split_pos i pos_i,
        split_eq i,
      )
    where
      split_eq : (n : ℕ) → n / 1000 * 1000000000 + n % 1000 * 1000000 ≡ 1000000 * n
      split_eq n = omega arith

      split_pos : (n : ℕ) → 0 < n → 0 < n / 1000 * 1000000000 + n % 1000 * 1000000
      split_pos n h = omega arith
