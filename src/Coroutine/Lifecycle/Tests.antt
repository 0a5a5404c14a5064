-- ===== src/Coroutine/Lifecycle/Tests.antt =====
-- A thread with one coroutine, and the theorem about its callback applied to it.
use rpc_framework.Base.{ℕ, ◌≡◌, ◌≢◌, refl, none, some, true, false, arith, if◌then◌else◌, ◌==◌}
use rpc_framework.Coroutine.{blank, with_call_back, resume, set_is_in_co_func}
use rpc_framework.Coroutine.Lifecycle.{
  Machine, ready, inside, co_function_begins, go_on, resume_into, take_call_back, resumes, Reach,
  here, next,
}
use rpc_framework.Coroutine.Lifecycle.Flags.{Reach-guards_call_back}

-- The thread is in its main coroutine 0, and the coroutine 1 has a callback.
abbrev set_up : Machine ℕ
set_up = record {
  thread = record {
    t_main_coroutine = some 0;
    t_cur_coroutine = some 0;
    t_cur_run_time = none;
    t_coroutine_count = 2;
    t_cur_coroutine_id = 2;
    cors = λ j. with_call_back (some j) (blank 64 16);
  };
  progress = λ j. ready;
}

-- The coroutine 1 has begun its callback.
abbrev begun : Machine ℕ
begun = record {
  thread = co_function_begins 1 (resume (some 1) set_up.thread).1;
  progress = λ j. if j == 1 then inside else ready;
}

begun-Reach : Reach set_up begun
unfolding resume_into resume go_on
begun-Reach = next here (resumes 1 begun refl)

Reach-guards_call_back_example :
    (begun.progress 1 ≡ inside → take_call_back 1 (some 7) begun ≡ (false, begun))
    × (begun.progress 1 ≢ inside
        → begun.thread.t_main_coroutine ≢ some 1
        → ((take_call_back 1 (some 7) begun).0 ≡ true)
          × ((take_call_back 1 (some 7) begun).1.progress 1 ≡ ready)
          × (((take_call_back 1 (some 7) begun).1.thread.cors 1).m_call_back ≡ some 7))
unfolding resume co_function_begins set_is_in_co_func
Reach-guards_call_back_example =
    Reach-guards_call_back 1 (some 7) (λ co h. refl) begun-Reach (omega arith)
