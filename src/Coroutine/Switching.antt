-- ===== src/Coroutine/Switching.antt =====
-- coroutine.cpp: `Resume` and `Yield` switch between the main coroutine and one other.
use rpc_framework.Base.{ℕ, ◌+◌, ◌<◌, ◌≡◌, ◌≢◌, ◌↔◌, refl, Option, none, some, Bool, true, arith}
use rpc_framework.Coroutine.{
  Thread, refused, switches, ensure_main, new_coroutine, set_call_back, yield, resume,
  get_current_coroutine, get_main_coroutine, is_main_coroutine, set_is_in_co_func,
}

-- The thread's two pointers are set together, and to coroutines that exist.
abbrev pub Paired : ℕ → Option ℕ → Option ℕ → Type 0
Paired n none none = Unit {0}
Paired n none (some c) = ⊥
Paired n (some m) none = ⊥
Paired n (some m) (some c) = (m < n) × (c < n)

Paired-suc : (n : ℕ) (m c : Option ℕ) → Paired n m c → Paired (n + 1) m c
Paired-suc n none none p = tt
Paired-suc n none (some c) p = p
Paired-suc n (some m) none p = p
Paired-suc n (some m) (some c) p = (omega (arith, p.0), omega (arith, p.1))

module _ {C : Type 0} where
  abbrev pub IsPaired : Thread C → Type 0
  IsPaired t = Paired t.t_cur_coroutine_id t.t_main_coroutine t.t_cur_coroutine

  -- The steps of a thread: each primitive, with the callbacks' flags.
  pub data Step (t : Thread C) : Thread C → Type 0 where
    gets_current : Step t (get_current_coroutine t).1
    gets_main : Step t (get_main_coroutine t).1
    makes :
        (size stack_ptr id : ℕ) (u : Thread C)
        → new_coroutine size stack_ptr t ≡ some (id, u)
        → Step t u
    sets : (id : ℕ) (cb : Option C) → Step t (set_call_back id cb t).1
    yields : Step t (yield t).1
    resumes : (co : ℕ) → co < t.t_cur_coroutine_id → Step t (resume (some co) t).1
    flags : (id : ℕ) (v : Bool) → Step t (set_is_in_co_func id v t)

  ensure_main-IsPaired : (t : Thread C) → IsPaired t → IsPaired (ensure_main t)
  unfolding ensure_main
  ensure_main-IsPaired t p = ground arith

  get_current_coroutine-IsPaired :
      (t : Thread C) → IsPaired t → IsPaired (get_current_coroutine t).1
  unfolding get_current_coroutine
  get_current_coroutine-IsPaired t p = ground arith

  new_coroutine-IsPaired :
      (size stack_ptr id : ℕ) (t u : Thread C)
      → IsPaired t
      → new_coroutine size stack_ptr t ≡ some (id, u)
      → IsPaired u
  unfolding new_coroutine
  new_coroutine-IsPaired size stack_ptr id t u p e = ground arith

  set_call_back-IsPaired :
      (id : ℕ) (cb : Option C) (t : Thread C) → IsPaired t → IsPaired (set_call_back id cb t).1
  unfolding set_call_back
  set_call_back-IsPaired id cb t p = ground arith

  yield-IsPaired : (t : Thread C) → IsPaired t → IsPaired (yield t).1
  unfolding yield
  yield-IsPaired t p = ground arith

  resume-IsPaired :
      (co : ℕ) (t : Thread C)
      → co < t.t_cur_coroutine_id
      → IsPaired t
      → IsPaired (resume (some co) t).1
  unfolding resume
  resume-IsPaired co t h p = ground arith

  -- Every step keeps the main and the current coroutine set together, and both of them coroutines that
  -- the thread has made.
  pub Step-IsPaired : {t u : Thread C} → Step t u → IsPaired t → IsPaired u
  unfolding get_main_coroutine set_is_in_co_func
  Step-IsPaired {t} gets_current p = get_current_coroutine-IsPaired t p
  Step-IsPaired {t} gets_main p = ensure_main-IsPaired t p
  Step-IsPaired {t} (makes size sp id u e) p = new_coroutine-IsPaired size sp id t u p e
  Step-IsPaired {t} (sets id cb) p = set_call_back-IsPaired id cb t p
  Step-IsPaired {t} yields p = yield-IsPaired t p
  Step-IsPaired {t} (resumes co h) p = resume-IsPaired co t h p
  Step-IsPaired (flags id v) p = p

  -- `Resume` switches exactly from the main coroutine to another one that can be resumed.
  pub resume-switches :
      (co m : ℕ) (t : Thread C)
      → ((resume (some co) t).0 ≡ switches m co) ↔ (
          (t.t_main_coroutine ≡ some m)
          × (t.t_cur_coroutine ≡ some m)
          × ((t.cors co).m_can_resume ≡ true)
          × (m ≢ co))
  unfolding resume
  resume-switches co m t = (λ h. ground arith, λ h. ground arith)

  -- After a switch by `Resume` no further `Resume` is accepted, and `Yield` switches back to the main
  -- coroutine: the thread is as before, without a current `RunTime`.
  pub yield-resume :
      (co m : ℕ) (other : Option ℕ) (t : Thread C)
      → (resume (some co) t).0 ≡ switches m co
      → ((resume other (resume (some co) t).1).0 ≡ refused)
        × (yield (resume (some co) t).1 ≡ (switches co m, record t { t_cur_run_time = none }))
  unfolding resume yield
  yield-resume co m none t h = (refl, ground arith)
  yield-resume co m (some other) t h = (ground arith, ground arith)

  -- In the main coroutine `Yield` does nothing.
  pub yield-main : (t : Thread C) → IsPaired t → is_main_coroutine t ≡ true → yield t ≡ (refused, t)
  unfolding yield is_main_coroutine
  yield-main t p h = ground arith
