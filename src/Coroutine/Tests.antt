-- ===== src/Coroutine/Tests.antt =====
-- A thread, and the theorem about its switches applied to it.
use rpc_framework.Base.{ℕ, none, some, ◌==◌, arith}
use rpc_framework.Loop.{resumes}
use rpc_framework.Coroutine.{Thread, blank, resume}
use rpc_framework.Coroutine.Switching.{IsPaired, resumes, Step-IsPaired}

-- A thread in its main coroutine 0, with another coroutine 1 that can be resumed.
abbrev thread : Thread ℕ
thread = record {
  t_main_coroutine = some 0;
  t_cur_coroutine = some 0;
  t_cur_run_time = none;
  t_coroutine_count = 2;
  t_cur_coroutine_id = 2;
  cors = λ j. record (blank 0 0) { m_can_resume = j == 1 };
}

Step-IsPaired_example : IsPaired (resume (some 1) thread).1
Step-IsPaired_example = Step-IsPaired (resumes 1 (omega arith)) (omega arith, omega arith)
