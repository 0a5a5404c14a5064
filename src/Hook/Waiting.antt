-- ===== src/Hook/Waiting.antt =====
-- coroutine_hook.cpp: a coroutine that waits in a hook is the one that is woken.
use rpc_framework.Base.{
  ℕ, ◌≡◌, refl, ap, ◌∙◌, [], ◌∷◌, ◌++◌, Option, none, some, Bool, true, false, not,
}
use rpc_framework.Base.Int.{ℤ}
use rpc_framework.Coroutine.{switches}
use rpc_framework.Fd
use rpc_framework.Fd.{FdEvent, TriggerEvent, in_event, out_event, handler}
use rpc_framework.Hook.{
  Wake, wakes, Hooks, Hooked, yields, is_positive, resume_cb, listen_for, go_to_yield, set_event,
  to_epoll, stop_waiting, read_hook, read_resumed, accept_hook, accept_resumed, write_hook,
  write_resumed, run_wake,
}
use rpc_framework.Loop.{EventLoop, Ready, handle_ready, calls, add_task, add_epoll_event}
use rpc_framework.Hook.Running.{
  Runs, Rests, Runs-not_main, Runs-current, yield-Runs, resume-Rests, set_event-at,
}

-- The hooks that wait for a descriptor in the same way.
pub data Io : Type 0 where
  accepts reads writes : Io

abbrev pub trigger_of : Io → TriggerEvent
trigger_of writes = out_event
trigger_of other = in_event

-- What `epoll_wait` reports of a ready descriptor.
abbrev pub ready_of : Io → ℕ → Ready
ready_of writes fd = (some fd, false, true, false)
ready_of other fd = (some fd, true, false, false)

abbrev pub listens_for : Io → FdEvent Wake → Bool
listens_for writes e = e.m_listen_out
listens_for other e = e.m_listen_in

abbrev pub waits_to_write : Io → Bool
waits_to_write writes = true
waits_to_write other = false

module _ {A : Type 0} where
  abbrev pub begin : Io → ℕ → ℤ → Hooks A → Hooked × Hooks A
  begin accepts = accept_hook
  begin reads = read_hook
  begin writes = write_hook

  abbrev pub finish : Io → ℕ → ℤ → Hooks A → ℤ × Hooks A
  finish accepts = accept_resumed
  finish reads = read_resumed
  finish writes = write_resumed

handle_ready-queues :
    (io : Io) (fd : ℕ) (l : EventLoop Wake) {cb : Option Wake}
    → handler (trigger_of io) (l.events fd) ≡ cb
    → (handle_ready (ready_of io fd) l).m_pending_tasks ≡ l.m_pending_tasks ++ calls cb ∷ []
unfolding handle_ready add_task
handle_ready-queues accepts fd l e = ap (λ c. l.m_pending_tasks ++ calls c ∷ []) e
handle_ready-queues reads fd l e = ap (λ c. l.m_pending_tasks ++ calls c ∷ []) e
handle_ready-queues writes fd l e = ap (λ c. l.m_pending_tasks ++ calls c ∷ []) e

module _ {A : Type 0} where
  pub to_epoll-Runs :
      {m co : ℕ} (fd : ℕ) (for_in for_out : Bool) (s : Hooks A)
      → Runs m co s.thread
      → to_epoll fd for_in for_out s ≡ record s {
        loop =
            add_epoll_event s.loop.m_thread_id fd (
              set_event fd (listen_for for_in for_out (some (wakes co)) (s.loop.events fd)) s.loop);
      }
  unfolding to_epoll
  to_epoll-Runs fd for_in for_out s r =
      ap
        (λ cur. record s {
          thread = cur.1;
          loop = add_epoll_event s.loop.m_thread_id fd (
              set_event fd (listen_for for_in for_out (resume_cb cur.0) (s.loop.events fd)) s.loop);
        })
        (Runs-current s.thread r)

  -- A waiting coroutine: its descriptor's event listens and its callback resumes the coroutine, so that
  -- the loop queues this callback when the descriptor is ready; the main coroutine runs.
  pub record Waits (io : Io) (m co fd : ℕ) (w : Hooks A) : Type 0 where
    pub wake : handler (trigger_of io) (w.loop.events fd) ≡ some (wakes co)
    pub listens : listens_for io (w.loop.events fd) ≡ true
    pub queued :
        (handle_ready (ready_of io fd) w.loop).m_pending_tasks
        ≡ w.loop.m_pending_tasks ++ calls (some (wakes co)) ∷ []
    pub rests : Rests m co w.thread

  -- What `toEpoll` and `Yield` make of a running coroutine.
  abbrev pub waiting : ℕ → ℕ → ℕ → Bool → Bool → Hooks A → Hooks A
  waiting m co fd for_in for_out s = record s {
    thread = record s.thread { t_cur_coroutine = some m; t_cur_run_time = none };
    loop =
        add_epoll_event s.loop.m_thread_id fd
          (set_event fd (listen_for for_in for_out (some (wakes co)) (s.loop.events fd)) s.loop);
  }

  pub go_to_yield-Runs :
      {m co : ℕ} (fd : ℕ) (for_in for_out : Bool) (s : Hooks A)
      → Runs m co s.thread
      → go_to_yield (to_epoll fd for_in for_out s)
        ≡ (yields (switches co m), waiting m co fd for_in for_out s)
  go_to_yield-Runs {m} {co} fd for_in for_out s r =
      ap go_to_yield (to_epoll-Runs fd for_in for_out s r)
      ∙ ap (λ y. (yields y.0, record (waiting m co fd for_in for_out s) { thread = y.1 }))
          (yield-Runs s.thread r)

  begin-yields :
      (io : Io) {m co : ℕ} (fd : ℕ) (n : ℤ) (s : Hooks A)
      → Runs m co s.thread
      → is_positive n ≡ false
      → begin io fd n s
        ≡ (yields (switches co m), waiting m co fd (not (waits_to_write io)) (waits_to_write io) s)
  unfolding read_hook accept_hook write_hook
  begin-yields accepts fd n s r h =
      rw (Runs-not_main s.thread r, h) (go_to_yield-Runs fd true false s r)
  begin-yields reads fd n s r h =
      rw (Runs-not_main s.thread r, h) (go_to_yield-Runs fd true false s r)
  begin-yields writes fd n s r h =
      rw (Runs-not_main s.thread r, h) (go_to_yield-Runs fd false true s r)

  pub waiting-Waits :
      (io : Io) {m co : ℕ} (fd : ℕ) (s : Hooks A)
      → Runs m co s.thread
      → Waits io m co fd (waiting m co fd (not (waits_to_write io)) (waits_to_write io) s)
  unfolding handler Fd.listen
  waiting-Waits io {m} {co} fd s r =
      let event =
        listen_for (not (waits_to_write io)) (waits_to_write io) (some (wakes co))
          (s.loop.events fd) in
      let at = set_event-at s.loop.m_thread_id fd event s.loop in
      let wake = ap (handler (trigger_of io)) at ∙ wake_of io (s.loop.events fd) in
      record {
        wake = wake;
        queued = handle_ready-queues io fd _ wake;
        listens = ap (listens_for io) at ∙ listens_of io (s.loop.events fd);
        rests = record { main = r.main; current = refl; resumable = r.resumable; other = r.other };
      }
    where
      wake_of :
          (kind : Io) (e : FdEvent Wake)
          → handler
              (trigger_of kind)
              (listen_for (not (waits_to_write kind)) (waits_to_write kind) (some (wakes co)) e)
            ≡ some (wakes co)
      wake_of accepts e = refl
      wake_of reads e = refl
      wake_of writes e = refl

      listens_of :
          (kind : Io) (e : FdEvent Wake)
          → listens_for kind
              (listen_for (not (waits_to_write kind)) (waits_to_write kind) (some (wakes co)) e)
            ≡ true
      listens_of accepts e = refl
      listens_of reads e = refl
      listens_of writes e = refl

  pub finish-stops :
      (io : Io) (fd : ℕ) (k : ℤ) (u : Hooks A)
      → (finish io fd k u ≡ (k, stop_waiting (trigger_of io) fd u))
        × (listens_for io ((finish io fd k u).1.loop.events fd) ≡ false)
        × ((finish io fd k u).1.thread ≡ u.thread)
  unfolding read_resumed accept_resumed write_resumed stop_waiting Fd.cancel
  finish-stops accepts fd k u = (refl, ap (λ e. e.m_listen_in) (set_event-at _ fd _ u.loop), refl)
  finish-stops reads fd k u = (refl, ap (λ e. e.m_listen_in) (set_event-at _ fd _ u.loop), refl)
  finish-stops writes fd k u = (refl, ap (λ e. e.m_listen_out) (set_event-at _ fd _ u.loop), refl)

  -- In a running coroutine, where the system call first returns 0 or less, each of `accept`, `read` and
  -- `write` yields to the main coroutine, with the descriptor's event listening and its callback set to
  -- resume this coroutine: the loop queues this callback when epoll reports the descriptor. In whatever later state `u` of the hooks the main coroutine runs it, that callback switches to this
  -- coroutine; behind `Yield` the hook returns what the second call returns, the coroutine runs, and the event does
  -- not listen.
  pub begin-comes_back :
      (io : Io) {m co : ℕ} (fd : ℕ) (n k : ℤ) (s u : Hooks A)
      → Runs m co s.thread
      → is_positive n ≡ false
      → Rests m co u.thread
      → ((w : Hooks A) × (begin io fd n s ≡ (yields (switches co m), w)) × Waits io m co fd w)
        × ((v : Hooks A) × (run_wake (wakes co) u ≡ (switches m co, v))
            × (v.thread.t_cur_coroutine ≡ some co)
            × ((finish io fd k v).0 ≡ k)
            × ((finish io fd k v).1.thread ≡ v.thread)
            × (listens_for io ((finish io fd k v).1.loop.events fd) ≡ false))
  unfolding run_wake
  begin-comes_back io {m} {co} fd n k s u r h at_rest =
      let woken = record u {
        thread = record u.thread { t_cur_coroutine = some co; t_cur_run_time = some co };
      } in
      let (f, g, t) = finish-stops io fd k woken in
      (
        (_, begin-yields io fd n s r h, waiting-Waits io fd s r),
        (
          woken,
          ap (λ y. (y.0, record u { thread = y.1 })) (resume-Rests u.thread at_rest),
          refl,
          ap (λ y. y.0) f,
          t,
          g,
        ),
      )
