-- ===== src/Loop/Epoll.antt =====
-- eventloop.cpp: the calls of `epoll_ctl` against the kernel's set.
use rpc_framework.Base.{
  ℕ, suc, ◌⊎◌, not, ◌&&◌, ◌||◌, ◌==◌, arith, ap, sym, ◌∙◌, ◌≡◌, refl, List, [], ◌∷◌, ◌++◌, Option,
  none, some, ◌>>=◌, Bool, true, false, if◌then◌else◌, Bool-cases, inl, inr,
}
use rpc_framework.Fd.{handler, in_event, out_event, error_event}
use rpc_framework.Loop.{
  Task, calls, adds, deletes, resumes, ctl_add, ctl_mod, ctl_del, EpollOp, EpollCtl, EventLoop,
  contains, insert_fd, erase_fd, add_to_epoll, delete_from_epoll, wakeup, add_task,
  is_in_loop_thread, add_epoll_event, delete_epoll_event, handle_ready, handle_all, Ready, run_task,
  run_tasks, loop_round, loop,
}

-- What a kernel that refuses nothing else does with a call, on the set of its descriptors, while none is closed:
-- `EPOLL_CTL_ADD` wants a new one, the other two one that is there; none is the error.
abbrev pub kernel : EpollCtl → List ℕ → Option (List ℕ)
kernel ctl fds = elim ctl.op [
  | ctl_add ↦ if contains ctl.fd fds then none else some (ctl.fd ∷ fds)
  | ctl_mod ↦ if contains ctl.fd fds then some fds else none
  | ctl_del ↦ if contains ctl.fd fds then some (erase_fd ctl.fd fds) else none
]

unfoldable pub replay : List EpollCtl → List ℕ → Option (List ℕ)
replay [] fds = some fds
replay (ctl ∷ log) fds = kernel ctl fds >>= replay log

replay-append :
    (log : List EpollCtl) (ctl : EpollCtl) (fds : List ℕ)
    → replay (log ++ ctl ∷ []) fds ≡ (replay log fds >>= kernel ctl)
unfolding replay
replay-append [] ctl fds = one (kernel ctl fds)
  where
    one : (o : Option (List ℕ)) → (o >>= replay []) ≡ o
    one none = refl
    one (some x) = refl
replay-append (c ∷ log) ctl fds = go (replay-append log ctl) (kernel c fds)
  where
    go :
        ((x : List ℕ) → replay (log ++ ctl ∷ []) x ≡ (replay log x >>= kernel ctl))
        → (o : Option (List ℕ))
        → (o >>= replay (log ++ ctl ∷ [])) ≡ ((o >>= replay log) >>= kernel ctl)
    go ih none = refl
    go ih (some x) = ih x

-- A kernel that may also refuse an `EPOLL_CTL_ADD`, for want of memory or because of the file, and that takes
-- descriptors out of its set as they are closed: what it refuses, and what was closed before it, by the number of the call.
pub record Kernel : Type 0 where
  pub refuses : ℕ → Bool
  pub closes : ℕ → ℕ → Bool

-- One call, on the set as its test. A deletion fails only where the descriptor is not in the set.
unfoldable pub call_of : Kernel → ℕ → EpollCtl → (ℕ → Bool) → ℕ → Bool
call_of h k ctl has fd =
    let kept = has fd && not (h.closes k fd) in
    elim ctl.op [
      | ctl_add ↦ if ctl.fd == fd then kept || not (h.refuses k) else kept
      | ctl_mod ↦ kept
      | ctl_del ↦ if ctl.fd == fd then false else kept
    ]

unfoldable pub reports : Kernel → ℕ → List EpollCtl → (ℕ → Bool) → ℕ → Bool
reports h k [] has = has
reports h k (ctl ∷ log) has = reports h (suc k) log (call_of h k ctl has)

reports-append :
    (h : Kernel) (k : ℕ) (log : List EpollCtl) (ctl : EpollCtl) (has : ℕ → Bool)
    → (n : ℕ) × (reports h k (log ++ ctl ∷ []) has ≡ call_of h n ctl (reports h k log has))
unfolding reports
reports-append h k [] ctl has = (k, refl)
reports-append h k (c ∷ log) ctl has = reports-append h (suc k) log ctl (call_of h k c has)

contains-insert_fd :
    (x fd : ℕ) (fds : List ℕ)
    → ((x == fd) ≡ true) ⊎ (contains fd fds ≡ true)
    → contains fd (insert_fd x fds) ≡ true
unfolding insert_fd contains
contains-insert_fd x fd fds h = ground (arith, h)

contains-erase_fd :
    (x fd : ℕ) (fds : List ℕ)
    → (x == fd) ≡ false
    → contains fd fds ≡ true
    → contains fd (erase_fd x fds) ≡ true
unfolding erase_fd contains
contains-erase_fd x fd [] h e = e
contains-erase_fd x fd (y ∷ fds) h e = ground (arith, contains-erase_fd x fd fds h)

-- A descriptor that is in the set behind a call was in it before, or is the call's.
call_of-kept :
    (h : Kernel) (n : ℕ) (op : EpollOp) (x : ℕ) (rd wr : Bool) (has : ℕ → Bool) (fd : ℕ)
    → call_of h n (record { op = op; fd = x; reads = rd; writes = wr }) has fd ≡ true
    → ((x == fd) ≡ true) ⊎ (has fd ≡ true)
unfolding call_of
call_of-kept h n ctl_add x rd wr has fd r = elim (Bool-cases (x == fd)) [
  | inl e ↦ inl e
  | inr e ↦ inr (ground (arith, e, r))
]
call_of-kept h n ctl_mod x rd wr has fd r = inr (ground (arith, r))
call_of-kept h n ctl_del x rd wr has fd r = inr (ground (arith, r))

call_of-deleted :
    (h : Kernel) (n x : ℕ) (rd wr : Bool) (has : ℕ → Bool) (fd : ℕ)
    → call_of h n (record { op = ctl_del; fd = x; reads = rd; writes = wr }) has fd ≡ true
    → ((x == fd) ≡ false) × (has fd ≡ true)
unfolding call_of
call_of-deleted h n x rd wr has fd r = (ground (arith, r), ground (arith, r))

module _ {C : Type 0} where
  -- Whatever a kernel refused and whatever was closed, the descriptors of its set are in the loop's own.
  abbrev pub Covers : EventLoop C → Type 0
  Covers l =
      (h : Kernel) (fd : ℕ)
      → reports h 0 l.epoll_log (λ fd. false) fd ≡ true
      → contains fd l.m_listen_fds ≡ true

  -- A loop in step with the kernel: one that refuses nothing else accepted every call, and its set is the loop's own; and
  -- of every kernel the set is in the loop's own.
  abbrev pub InStep : EventLoop C → Type 0
  InStep l = (replay l.epoll_log [] ≡ some l.m_listen_fds) × Covers l

  pub start-InStep : (l : EventLoop C) → l.epoll_log ≡ [] → l.m_listen_fds ≡ [] → InStep l
  unfolding replay reports
  start-InStep l e f = (
    rw (e, f) refl,
    λ h fd r. absurd (ground (arith, ap (λ log. reports h 0 log (λ fd. false) fd) (sym e) ∙ r)),
  )

  add_to_epoll-Covers : (event : ℕ) (l : EventLoop C) → Covers l → Covers (add_to_epoll event l)
  unfolding add_to_epoll call_of
  add_to_epoll-Covers event l s h fd r =
      let e = l.events event in
      let op = if contains e.m_fd l.m_listen_fds then ctl_mod else ctl_add in
      let ctl : EpollCtl = record {
        op = op;
        fd = e.m_fd;
        reads = e.m_listen_in;
        writes = e.m_listen_out;
      } in
      let (n, q) = reports-append h 0 l.epoll_log ctl (λ fd. false) in
      contains-insert_fd e.m_fd fd l.m_listen_fds
        (elim (call_of-kept h n op e.m_fd e.m_listen_in e.m_listen_out
          (reports h 0 l.epoll_log (λ fd. false)) fd (ap (λ g. g fd) (sym q) ∙ r)) [
            | inl same ↦ inl same
            | inr had ↦ inr (s h fd had)
          ])

  delete_from_epoll-Covers :
      (event : ℕ) (l : EventLoop C) → Covers l → Covers (delete_from_epoll event l)
  unfolding delete_from_epoll call_of
  delete_from_epoll-Covers event l s =
      elim (Bool-cases (contains (l.events event).m_fd l.m_listen_fds)) [
        | inl e ↦
            rw (e, delete_from_epoll)
              λ h fd r.
                let x = (l.events event).m_fd in
                let ctl : EpollCtl = record {
                  op = ctl_del;
                  fd = x;
                  reads = false;
                  writes = false;
                } in
                let (n, q) = reports-append h 0 l.epoll_log ctl (λ fd. false) in
                let (other, had) =
                  call_of-deleted h n x false false (reports h 0 l.epoll_log (λ fd. false)) fd
                    (ap (λ g. g fd) (sym q) ∙ r) in
                contains-erase_fd x fd l.m_listen_fds other (s h fd had)
        | inr e ↦ rw (e, delete_from_epoll) s
      ]

  add_to_epoll-InStep : (event : ℕ) (l : EventLoop C) → InStep l → InStep (add_to_epoll event l)
  unfolding add_to_epoll insert_fd
  add_to_epoll-InStep event l (s, cover) = (
    elim (Bool-cases (contains (l.events event).m_fd l.m_listen_fds)) [
      | inl e ↦ rw (e, add_to_epoll, insert_fd, replay-append, s) (rw e)
      | inr e ↦ rw (e, add_to_epoll, insert_fd, replay-append, s) (rw e)
    ],
    add_to_epoll-Covers event l cover,
  )

  delete_from_epoll-InStep :
      (event : ℕ) (l : EventLoop C) → InStep l → InStep (delete_from_epoll event l)
  unfolding delete_from_epoll
  delete_from_epoll-InStep event l (s, cover) = (
    elim (Bool-cases (contains (l.events event).m_fd l.m_listen_fds)) [
      | inl e ↦ rw (e, delete_from_epoll, replay-append, s) (rw e)
      | inr e ↦ rw (e, delete_from_epoll) s
    ],
    delete_from_epoll-Covers event l cover,
  )

  add_task-InStep :
      (task : Task C) (b : Bool) (l : EventLoop C) → InStep l → InStep (add_task task b l)
  unfolding add_task wakeup
  add_task-InStep task true l s = s
  add_task-InStep task false l s = s

  -- `addEpollEvent` and `deleteEpollEvent` keep the loop in step with the kernel, from whatever thread.
  pub add_epoll_event-InStep :
      (thread event : ℕ) (l : EventLoop C)
      → InStep l
      → InStep (add_epoll_event thread event l) × InStep (delete_epoll_event thread event l)
  unfolding add_epoll_event delete_epoll_event
  add_epoll_event-InStep thread event l s = elim (Bool-cases (is_in_loop_thread thread l)) [
    | inl e ↦ (
      rw (e, add_epoll_event) (add_to_epoll-InStep event l s),
      rw (e, delete_epoll_event) (delete_from_epoll-InStep event l s),
    )
    | inr e ↦ (
      rw (e, add_epoll_event) (add_task-InStep (adds event) true l s),
      rw (e, delete_epoll_event) (add_task-InStep (deletes event) true l s),
    )
  ]

  if-InStep : (b : Bool) (l m : EventLoop C) → InStep l → InStep m → InStep (if b then l else m)
  if-InStep true l m h k = h
  if-InStep false l m h k = k

  handle_ready-InStep : (r : Ready) (l : EventLoop C) → InStep l → InStep (handle_ready r l)
  unfolding handle_ready
  handle_ready-InStep (none, r, w, e) l s = s
  handle_ready-InStep (some event, r, w, e) l s =
      let s1 =
        if-InStep r _ l (add_task-InStep (calls (handler in_event (l.events event))) false l s) s in
      let s2 =
        if-InStep w _ _ (add_task-InStep (calls (handler out_event (l.events event))) false _ s1)
          s1 in
      if-InStep e _ _
        (reported _ (handler error_event (l.events event)) (delete_from_epoll-InStep event _ s2)) s2
    where
      reported :
          (m : EventLoop C) (o : Option C)
          → InStep m
          → InStep (elim o [
            | none ↦ m
            | some c ↦ add_task (calls (handler out_event (l.events event))) false m
          ])
      reported m none h = h
      reported m (some c) h = add_task-InStep (calls (handler out_event (l.events event))) false m h

  handle_all-InStep : (rs : List Ready) (l : EventLoop C) → InStep l → InStep (handle_all rs l)
  unfolding handle_all
  handle_all-InStep [] l s = s
  handle_all-InStep (r ∷ rs) l s =
      handle_all-InStep rs (handle_ready r l) (handle_ready-InStep r l s)

module _ {C : Type 0} (exec : C → EventLoop C → EventLoop C)
    (resume : ℕ → EventLoop C → EventLoop C)
    (exec-InStep : (c : C) (l : EventLoop C) → InStep l → InStep (exec c l))
    (resume-InStep : (cor : ℕ) (l : EventLoop C) → InStep l → InStep (resume cor l)) where
  run_tasks-InStep :
      (tasks : List (Task C)) (l : EventLoop C) → InStep l → InStep (run_tasks exec resume tasks l)
  unfolding run_tasks run_task
  run_tasks-InStep [] l s = s
  run_tasks-InStep (calls none ∷ tasks) l s = run_tasks-InStep tasks l s
  run_tasks-InStep (calls (some c) ∷ tasks) l s =
      run_tasks-InStep tasks (exec c l) (exec-InStep c l s)
  run_tasks-InStep (adds event ∷ tasks) l s =
      run_tasks-InStep tasks (add_to_epoll event l) (add_to_epoll-InStep event l s)
  run_tasks-InStep (deletes event ∷ tasks) l s =
      run_tasks-InStep tasks (delete_from_epoll event l) (delete_from_epoll-InStep event l s)
  run_tasks-InStep (resumes cor ∷ tasks) l s =
      run_tasks-InStep tasks (resume cor l) (resume-InStep cor l s)

  loop_round-InStep :
      (ready : Option (List Ready)) (l : EventLoop C)
      → InStep l
      → InStep (loop_round exec resume ready l)
  unfolding loop_round
  loop_round-InStep none l s =
      run_tasks-InStep l.m_pending_tasks (record l { m_pending_tasks = [] }) s
  loop_round-InStep (some events) l s =
      handle_all-InStep events _
        (run_tasks-InStep l.m_pending_tasks (record l { m_pending_tasks = [] }) s)

  -- However long the loop runs, whatever `epoll_wait` reports, from a loop of which both parts hold and with
  -- callbacks and coroutines that keep them. First, a kernel that refuses only an addition of a descriptor that its set has, or a change or deletion of
  -- one that it lacks, accepts every `epoll_ctl` call while no descriptor is closed, and its set is `m_listen_fds`. Second,
  -- whatever other additions a kernel refuses, and whatever descriptors are closed between the calls,
  -- each descriptor of its set is in `m_listen_fds`.
  pub loop-InStep :
      (results : List (Option (List Ready))) (l : EventLoop C)
      → InStep l
      → InStep (loop exec resume results l)
  unfolding loop
  loop-InStep [] l s = s
  loop-InStep (ready ∷ results) l s =
      if-InStep l.m_stop_flag (record l { m_is_looping = true }) _ s
        (loop-InStep results _ (loop_round-InStep ready (record l { m_is_looping = true }) s))
