-- ===== src/Hook/Epoll.antt =====
-- coroutine_hook.cpp: the calls of `epoll_ctl` by the hooks fit the kernel's set.
use rpc_framework.Base.{ℕ, List, [], ◌∷◌, Bool, true, false, not, ◌&&◌, ◌||◌, ◌==◌, if◌then◌else◌}
use rpc_framework.Base.Int.{ℤ}
use rpc_framework.Coroutine.{get_current_coroutine, is_main_coroutine}
use rpc_framework.Fd.{TriggerEvent, in_event, out_event}
use rpc_framework.Hook.{
  Wake, wakes, times_out, Hooks, is_positive, is_zero, is_negative, einprogress, eisconn, set_event,
  to_epoll, stop_waiting, read_hook, read_resumed, accept_hook, accept_resumed, write_hook,
  write_resumed, connect_hook, connect_resumed, run_wake,
}
use rpc_framework.Hook.Waiting.{Io, accepts, reads, writes, begin, finish}
use rpc_framework.Loop.Epoll.{InStep, add_epoll_event-InStep}

-- What a thread does with the hooks: each part of each of them, and the callbacks.
pub data Call : Type 0 where
  begins finishes : Io → ℕ → ℤ → Call
  begins_connect : ℕ → ℕ → ℕ → ℤ × ℕ → Call
  finishes_connect : ℕ → ℕ → ℤ × ℕ → Call
  is_woken : Wake → Call

module _ {A : Type 0} where
  abbrev pub run_call : Call → Hooks A → Hooks A
  run_call (begins io fd n) s = (begin io fd n s).1
  run_call (finishes io fd n) s = (finish io fd n s).1
  run_call (begins_connect now event fd r) s = (connect_hook now event fd r s).1
  run_call (finishes_connect event fd r) s = (connect_resumed event fd r s).1
  run_call (is_woken w) s = (run_wake w s).1

  unfoldable pub run_calls : List Call → Hooks A → Hooks A
  run_calls [] s = s
  run_calls (call ∷ calls) s = run_calls calls (run_call call s)

  to_epoll-InStep :
      (fd : ℕ) (for_in for_out : Bool) (s : Hooks A)
      → InStep s.loop
      → InStep (to_epoll fd for_in for_out s).loop
  unfolding to_epoll
  to_epoll-InStep fd for_in for_out s h =
      (add_epoll_event-InStep s.loop.m_thread_id fd (set_event fd _ s.loop) h).0

  stop_waiting-InStep :
      (trigger : TriggerEvent) (fd : ℕ) (s : Hooks A)
      → InStep s.loop
      → InStep (stop_waiting trigger fd s).loop
  unfolding stop_waiting
  stop_waiting-InStep trigger fd s h =
      (add_epoll_event-InStep s.loop.m_thread_id fd (set_event fd _ s.loop) h).0

  if-InStep :
      {R : Type 0} (b : Bool) (x y : R × Hooks A)
      → InStep x.1.loop
      → InStep y.1.loop
      → InStep (if b then x else y).1.loop
  if-InStep true x y h k = h
  if-InStep false x y h k = k

  run_call-InStep : (call : Call) (s : Hooks A) → InStep s.loop → InStep (run_call call s).loop
  unfolding read_hook accept_hook write_hook read_resumed accept_resumed write_resumed connect_hook
      connect_resumed run_wake
  run_call-InStep (begins accepts fd n) s h =
      if-InStep (is_main_coroutine s.thread) _ _ h
        (if-InStep (is_positive n) _ _ h (to_epoll-InStep fd true false s h))
  run_call-InStep (begins reads fd n) s h =
      if-InStep (is_main_coroutine s.thread) _ _ h
        (if-InStep (is_positive n) _ _ h (to_epoll-InStep fd true false s h))
  run_call-InStep (begins writes fd n) s h =
      if-InStep (is_main_coroutine s.thread) _ _ h
        (if-InStep (is_positive n) _ _ h (to_epoll-InStep fd false true s h))
  run_call-InStep (finishes accepts fd n) s h = stop_waiting-InStep in_event fd s h
  run_call-InStep (finishes reads fd n) s h = stop_waiting-InStep in_event fd s h
  run_call-InStep (finishes writes fd n) s h = stop_waiting-InStep out_event fd s h
  run_call-InStep (begins_connect now event fd (n, errno)) s h =
      let started = record s { thread = (get_current_coroutine s.thread).1 } in
      if-InStep (is_main_coroutine s.thread) _ _ h (
        if-InStep (is_zero n) _ _ h
          (if-InStep (not (errno == einprogress)) _ _ h (to_epoll-InStep fd false true started h)))
  run_call-InStep (finishes_connect event fd (n, errno)) s h =
      if-InStep ((is_negative n && (errno == eisconn)) || is_zero n) _ _
        (stop_waiting-InStep out_event fd s h) (stop_waiting-InStep out_event fd s h)
  run_call-InStep (is_woken (wakes co)) s h = h
  run_call-InStep (is_woken (times_out co)) s h = h

  -- From a loop in step with the kernel, whatever parts of the hooks run, in whatever order and with
  -- whatever results, the loop stays in step, in both senses of `InStep`.
  pub run_calls-InStep :
      (calls : List Call) (s : Hooks A) → InStep s.loop → InStep (run_calls calls s).loop
  unfolding run_calls
  run_calls-InStep [] s h = h
  run_calls-InStep (call ∷ calls) s h =
      run_calls-InStep calls (run_call call s) (run_call-InStep call s h)
