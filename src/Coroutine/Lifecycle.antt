-- ===== src/Coroutine/Lifecycle.antt =====
-- coroutine.cpp: `CoFunction`, and where each coroutine of a thread stands in it.
pub mod Flags
pub mod Tests
use rpc_framework.Base.{
  ℕ, ◌+◌, ◌<◌, ◌≤◌, ◌≡◌, ◌≢◌, refl, sym, ap, ◌∙◌, Option, none, some, ◌>>=◌, Bool, true, false,
  arith, ◌==◌, Bool-cases, inl, inr, if◌then◌else◌, ltb, ◌||◌, ltb→lt, ==_refl, ==_false, subst,
}
use rpc_framework.Coroutine.{
  get_current_coroutine, get_main_coroutine, points_to, with_call_back, Coroutine, Thread, Switch,
  refused, faults, switches, write_cor, ensure_main, new_main, give_id, new_coroutine,
  set_call_back, yield, resume, set_is_in_co_func, set_can_resume,
}

-- Where a coroutine that is not running stands: it has no callback, will enter `CoFunction`, is inside its
-- callback, or in the `Yield` at the end of `CoFunction`, behind which the function returns to no caller.
pub data Progress : Type 0 where
  vacant ready inside over : Progress

abbrev pub is_inside : Progress → Bool
is_inside inside = true
is_inside other = false

pub record Machine (C : Type 0) : Type 0 where
  pub thread : Thread C
  pub progress : ℕ → Progress

module _ {C : Type 0} where
  -- `CoFunction` up to the callback.
  unfoldable pub co_function_begins : ℕ → Thread C → Thread C
  unfolding set_is_in_co_func
  co_function_begins co t = set_is_in_co_func co true t

  -- `CoFunction` behind the callback.
  unfoldable pub co_function_ends : ℕ → Thread C → Switch × Thread C
  unfolding set_is_in_co_func yield
  co_function_ends co t = yield (set_is_in_co_func co false t)

  -- The coroutine goes on: none where it has nothing to go on with.
  unfoldable pub go_on : ℕ → Machine C → Option (Machine C)
  unfolding co_function_begins
  go_on co s = elim (s.progress co) [
    | vacant ↦ none
    | ready ↦ some (record {
      thread = co_function_begins co s.thread;
      progress = write_cor s.progress co inside;
    })
    | inside ↦ some s
    | over ↦ none
  ]

  -- `Resume`, and what the coroutine does before its callback.
  unfoldable pub resume_into : ℕ → Machine C → Option (Machine C)
  unfolding resume go_on
  resume_into co s =
      let r = resume (some co) s.thread in
      elim r.0 [
        | refused ↦ some s
        | faults ↦ none
        | switches m c ↦ go_on c (record s { thread = r.1 })
      ]

  unfoldable pub take_call_back : ℕ → Option C → Machine C → Bool × Machine C
  unfolding set_call_back
  take_call_back id cb s =
      let r = set_call_back id cb s.thread in
      if r.0
      then (true, record { thread = r.1; progress = write_cor s.progress id ready })
      else (false, s)

  -- The coroutines that are new in a thread are vacant.
  abbrev pub made : Machine C → Thread C → Machine C
  made s t = record {
    thread = t;
    progress = λ id. if ltb id s.thread.t_cur_coroutine_id then s.progress id else vacant;
  }

  -- What a thread does with its coroutines.
  pub data Runs (s : Machine C) : Machine C → Type 0 where
    gets_current : Runs s (made s (get_current_coroutine s.thread).1)
    gets_main : Runs s (made s (get_main_coroutine s.thread).1)
    makes :
        (size stack_ptr id : ℕ) (t : Thread C)
        → new_coroutine size stack_ptr s.thread ≡ some (id, t)
        → Runs s (made s t)
    takes : (id : ℕ) (cb : Option C) → Runs s (take_call_back id cb s).1
    resumes : (co : ℕ) (s' : Machine C) → resume_into co s ≡ some s' → Runs s s'
    yields : Runs s (record s { thread = (yield s.thread).1 })
    finishes :
        (co : ℕ)
        → s.thread.t_cur_coroutine ≡ some co
        → s.progress co ≡ inside
        → Runs s (record {
          thread = (co_function_ends co s.thread).1;
          progress = write_cor s.progress co over;
        })
    allows : (id : ℕ) (v : Bool) → Runs s (record s { thread = set_can_resume id v s.thread })

  abbrev pub Flags : ℕ → (ℕ → Coroutine C) → (ℕ → Progress) → Type 0
  Flags n cors progress = (co : ℕ) → co < n → (cors co).m_is_in_cofunc ≡ is_inside (progress co)

  -- The flag of a coroutine of the thread is up exactly where it is inside its callback.
  abbrev pub IsFlagged : Machine C → Type 0
  IsFlagged s = Flags s.thread.t_cur_coroutine_id s.thread.cors s.progress

  pub data Reach (s : Machine C) : Machine C → Type 0 where
    here : Reach s s
    next : {t u : Machine C} → Reach s t → Runs t u → Reach s u
