-- ===== src/Timer/Runs.antt =====
-- timer.cpp: which callbacks `onTimer` runs.
use rpc_framework.Base.{
  ℕ, none, some, not, ◌&&◌, ◌<◌, ◌≡◌, ◌≢◌, refl, ap, sym, ◌∙◌, List, [], ◌∷◌, true, leb,
  if◌then◌else◌, arith, Bool-cases, inl, inr, All, ==_refl, lt→leb_false,
}
use rpc_framework.Timer.{
  TimerEvent, Timer, update, due, not_due, delete_timer_event, live, tasks_of, on_timer,
  set_cancled,
}
use rpc_framework.Timer.Order.{SortedFrom, IsSorted}

-- All entries that are not later than `now`, wherever they stand.
abbrev pub not_later : ℕ → List (ℕ × ℕ) → List (ℕ × ℕ)
not_later now [] = []
not_later now ((k, e) ∷ pending) =
    if leb k now then (k, e) ∷ not_later now pending else not_later now pending

not_later-after :
    (now lo : ℕ) (pending : List (ℕ × ℕ))
    → now < lo
    → SortedFrom lo pending
    → not_later now pending ≡ []
not_later-after now lo [] h s = refl
not_later-after now lo ((k, e) ∷ pending) h s =
    rw (lt→leb_false k now (omega arith)) (not_later-after now k pending (omega arith) s.1)

due-not_later :
    (now lo : ℕ) (pending : List (ℕ × ℕ))
    → SortedFrom lo pending
    → due now pending ≡ not_later now pending
unfolding due
due-not_later now lo [] s = refl
due-not_later now lo ((k, e) ∷ pending) s =
    ground (arith, due-not_later now k pending, not_later-after now k pending)

-- Nothing that is due stays in the map.
not_due-later :
    (now lo : ℕ) (pending : List (ℕ × ℕ))
    → SortedFrom lo pending
    → not_later now (not_due now pending) ≡ []
unfolding not_due
not_due-later now lo [] s = refl
not_due-later now lo ((k, e) ∷ pending) s =
    ground (arith, not_due-later now k pending, not_later-after now k pending)

module _ {C : Type 0} where
  -- The callbacks of the entries that are not later than `now` and whose event is not canceled and has one, wherever
  -- they stand.
  abbrev pub wanted : (ℕ → TimerEvent C) → ℕ → List (ℕ × ℕ) → List C
  wanted events now [] = []
  wanted events now ((k, e) ∷ pending) =
      let rest = wanted events now pending in
      if leb k now && not (events e).m_is_canceled
      then elim ((events e).m_task) [ none ↦ rest | some c ↦ c ∷ rest ]
      else rest

  live-wanted :
      (events : ℕ → TimerEvent C) (now : ℕ) (pending : List (ℕ × ℕ))
      → tasks_of events (live events (not_later now pending)) ≡ wanted events now pending
  unfolding tasks_of live
  live-wanted events now [] = refl
  live-wanted events now ((k, e) ∷ pending) = ground (arith, live-wanted events now pending)

  -- On an ordered timer `onTimer` runs the callbacks of exactly the events that are pending with a time
  -- not after now and not canceled, in order; stopping at the first later one misses none.
  pub on_timer-runs :
      (now : ℕ) (t : Timer C)
      → IsSorted t
      → (on_timer now t).0 ≡ wanted t.events now t.m_pending_events
  unfolding on_timer
  on_timer-runs now t s =
      ap (λ l. tasks_of t.events (live t.events l)) (due-not_later now 0 t.m_pending_events s)
      ∙ live-wanted t.events now t.m_pending_events

  live-canceled :
      (events : ℕ → TimerEvent C) (id : ℕ) (entries : List (ℕ × ℕ))
      → (events id).m_is_canceled ≡ true
      → All (λ e. e ≢ id) (live events entries)
  unfolding live
  live-canceled events id [] h = tt
  live-canceled events id ((k, e) ∷ entries) h = elim (Bool-cases (events e).m_is_canceled) [
    | inl c ↦ rw (c, live) (live-canceled events id entries h)
    | inr c ↦
        rw (c, live)
          (
            λ same. cc (sym c ∙ ap (λ i. (events i).m_is_canceled) same ∙ h),
            live-canceled events id entries h,
          )
  ]

  -- A deleted event is not among those that a later run of the timer takes, even where another entry of
  -- it is still in the map; the other events are as they were.
  pub delete_timer_event-not_live :
      (now id : ℕ) (t : Timer C)
      → let deleted = delete_timer_event id t in
        All (λ e. e ≢ id) (live deleted.events (due now deleted.m_pending_events))
        × ((j : ℕ) → j ≢ id → deleted.events j ≡ t.events j)
  unfolding delete_timer_event set_cancled
  delete_timer_event-not_live now id t = (live-canceled _ id _ (canceled t), λ j h. ground arith)
    where
      canceled :
          (u : Timer C)
          → (update u.events id (set_cancled true (u.events id)) id).m_is_canceled ≡ true
      canceled u = rw (==_refl id)
