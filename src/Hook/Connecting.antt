-- ===== src/Hook/Connecting.antt =====
-- coroutine_hook.cpp: a `connect` that takes too long.
use rpc_framework.Base.{
  ℕ, ◌+◌, ◌≡◌, ◌≢◌, ◌⊎◌, inl, inr, refl, ap, subst, ◌∙◌, List, [], ◌∷◌, Option, some, true, false,
  ltb, Bool-cases, arith, ==_false,
}
use rpc_framework.Base.Int.{ℤ, negsuc}
use rpc_framework.Coroutine.{Thread, switches}
use rpc_framework.Fd
use rpc_framework.Fd.{FdEvent, TriggerEvent, in_event, out_event, handler}
use rpc_framework.Hook.{
  Wake, times_out, Hooks, yields, is_zero, einprogress, eisconn, etimedout, go_to_yield, to_epoll,
  stop_waiting, timeout_cb, connect_hook, connect_resumed, run_wake,
}
use rpc_framework.Hook.Running.{
  Runs, Rests, Runs-not_main, Runs-current, set_event-at, update-same, resume-Rests,
}
use rpc_framework.Hook.Waiting.{writes, Waits, waiting, waiting-Waits, go_to_yield-Runs}
use rpc_framework.Timer.{
  Timer, is_first, update, new_timer_event, emplace, add_timer_event, reset_arrive_time,
  delete_timer_event, set_cancled,
}

-- An entry of the pending timer events.
abbrev pub HasEntry : ℕ → ℕ → List (ℕ × ℕ) → Type 0
HasEntry key id [] = ⊥
HasEntry key id ((k, e) ∷ pending) = ((k ≡ key) × (e ≡ id)) ⊎ HasEntry key id pending

emplace-HasEntry : (key id : ℕ) (pending : List (ℕ × ℕ)) → HasEntry key id (emplace key id pending)
unfolding emplace
emplace-HasEntry key id [] = inl (refl, refl)
emplace-HasEntry key id ((k, e) ∷ pending) = elim (Bool-cases (ltb key k)) [
  | inl h ↦ rw h (inl (refl, refl))
  | inr h ↦ rw h (inr (emplace-HasEntry key id pending))
]

module _ {C : Type 0} where
  reset_arrive_time-events :
      (now : ℕ) (t : Timer C)
      → ((reset_arrive_time now t).events ≡ t.events)
        × ((reset_arrive_time now t).m_pending_events ≡ t.m_pending_events)
  unfolding reset_arrive_time
  reset_arrive_time-events now t = ground arith

  -- A new timer event that is added stands at its time.
  add_timer_event-adds :
      (now event : ℕ) (t : Timer C)
      → ((add_timer_event now event t).events ≡ t.events)
        × HasEntry
            (t.events event).m_arrive_time
            event
            (add_timer_event now event t).m_pending_events
  unfolding add_timer_event
  add_timer_event-adds now event t =
      let key = (t.events event).m_arrive_time in
      let added = record t { m_pending_events = emplace key event t.m_pending_events } in
      let (e, p) = reset_arrive_time-events now added in
      let entry = emplace-HasEntry key event t.m_pending_events in
      elim (Bool-cases (is_first (t.events event) t)) [
        | inl f ↦ rw (f, add_timer_event, e, p) (refl, entry)
        | inr f ↦ rw (f, add_timer_event) (refl, entry)
      ]

delete_timer_event-canceled :
    (event : ℕ) (t : Timer Wake) → ((delete_timer_event event t).events event).m_is_canceled ≡ true
unfolding delete_timer_event set_cancled
delete_timer_event-canceled event t =
    ap (λ e. e.m_is_canceled) (update-same t.events event (set_cancled true (t.events event)))

-- The timer of a `connect` that began to wait.
abbrev pub timer_of : ℕ → ℕ → ℕ → Timer Wake → Timer Wake
timer_of now event co t = add_timer_event now event (record t {
  events = update t.events event (new_timer_event now 10000 false (some (times_out co)));
})

module _ {A : Type 0} where
  connect_hook-yields :
      {m co : ℕ} (now event fd : ℕ) (n : ℤ) (s : Hooks A)
      → Runs m co s.thread
      → is_zero n ≡ false
      → connect_hook now event fd (n, einprogress) s ≡ (
        yields (switches co m),
        record (waiting m co fd false true s) {
          timer = timer_of now event co s.timer;
          is_timeout = false;
        },
      )
  unfolding connect_hook
  connect_hook-yields {m} {co} now event fd n s r h =
      let begun : ((Option ℕ) × Thread A) → Hooks A = λ cur.
        record (to_epoll fd false true (record s { thread = cur.1 })) {
          timer = add_timer_event now event (record s.timer {
            events =
                update s.timer.events event (new_timer_event now 10000 false (timeout_cb cur.0));
          });
          is_timeout = false;
        } in
      rw (Runs-not_main s.thread r, h)
        (ap (λ cur. go_to_yield (begun cur)) (Runs-current s.thread r)
          ∙ ap
              (λ y. (y.0, record y.1 { timer = timer_of now event co s.timer; is_timeout = false }))
              (go_to_yield-Runs fd false true s r))

  connect_resumed-fails :
      (event fd j e : ℕ) (v : Hooks A)
      → v.is_timeout ≡ true
      → e ≢ eisconn
      → ((connect_resumed event fd (negsuc j, e) v).0 ≡ (negsuc 0, etimedout))
        × ((connect_resumed event fd (negsuc j, e) v).1
            ≡ record (stop_waiting out_event fd v) { timer = delete_timer_event event v.timer })
  unfolding connect_resumed
  connect_resumed-fails event fd j e v late h =
      rw (==_false e eisconn h, late, connect_resumed) (refl, refl)

  -- In a running coroutine, where the first `connect` gives EINPROGRESS, `connect_hook` yields to the main
  -- coroutine: the descriptor's event listens for writing and resumes this coroutine, and a timer event for
  -- ten seconds later is pending, whose callback is `timeout_cb`. In whatever later state `u` the
  -- main coroutine runs this callback, it switches to this coroutine; where the second `connect` fails then
  -- with another error than EISCONN, the hook returns -1 with ETIMEDOUT, the descriptor's event does not
  -- listen for writing, and the timer event is canceled.
  pub connect-times_out :
      {m co : ℕ} (now event fd j e : ℕ) (n : ℤ) (s u : Hooks A)
      → Runs m co s.thread
      → is_zero n ≡ false
      → Rests m co u.thread
      → e ≢ eisconn
      → ((w : Hooks A) × (connect_hook now event fd (n, einprogress) s
            ≡ (yields (switches co m), w))
          × Waits writes m co fd w
          × (w.is_timeout ≡ false)
          × ((w.timer.events event).m_task ≡ some (times_out co))
          × HasEntry (now + 10000) event w.timer.m_pending_events)
        × ((v : Hooks A) × (run_wake (times_out co) u ≡ (switches m co, v))
            × ((connect_resumed event fd (negsuc j, e) v).0 ≡ (negsuc 0, etimedout))
            × (((connect_resumed event fd (negsuc j, e) v).1.loop.events fd).m_listen_out ≡ false)
            × (((connect_resumed event fd (negsuc j, e) v).1.timer.events event).m_is_canceled
                ≡ true))
  unfolding run_wake new_timer_event stop_waiting Fd.cancel
  connect-times_out {m} {co} now event fd j e n s u r h at_rest other =
      let fresh = new_timer_event now 10000 false (some (times_out co)) in
      let t = record s.timer { events = update s.timer.events event fresh } in
      let at_event : t.events event ≡ fresh = update-same s.timer.events event fresh in
      let (kept, entry) = add_timer_event-adds now event t in
      let waits = waiting-Waits writes fd s r in
      let woken = record u {
        thread = record u.thread { t_cur_coroutine = some co; t_cur_run_time = some co };
        is_timeout = true;
      } in
      let (f, g) = connect_resumed-fails event fd j e woken refl other in
      (
        (
          _,
          connect_hook-yields now event fd n s r h,
          record {
            wake = waits.wake;
            listens = waits.listens;
            queued = waits.queued;
            rests = waits.rests;
          },
          refl,
          ap (λ events. (events event).m_task) kept ∙ ap (λ x. x.m_task) at_event,
          subst
              (λ x. HasEntry x.m_arrive_time event (timer_of now event co s.timer).m_pending_events)
              at_event entry,
        ),
        (
          woken,
          ap (λ y. (y.0, record u { thread = y.1; is_timeout = true }))
              (resume-Rests u.thread at_rest),
          f,
          ap (λ x. (x.loop.events fd).m_listen_out) g
              ∙ ap (λ x. x.m_listen_out) (set_event-at _ fd _ u.loop),
          ap (λ x. (x.timer.events event).m_is_canceled) g
              ∙ delete_timer_event-canceled event u.timer,
        ),
      )
