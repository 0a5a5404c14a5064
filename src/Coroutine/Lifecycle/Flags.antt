-- ===== src/Coroutine/Lifecycle/Flags.antt =====
-- coroutine.cpp: a coroutine's flag while the thread goes on.
use rpc_framework.Base.{
  ℕ, ◌<◌, ◌≡◌, ◌≢◌, refl, ap, ◌∙◌, Option, none, some, Bool, true, false, arith, ◌==◌, Bool-cases,
  inl, inr, if◌then◌else◌, ltb, ◌||◌, ltb→lt, ==_refl, ==_false, subst,
}
use rpc_framework.Coroutine.{
  get_current_coroutine, get_main_coroutine, points_to, with_call_back, Coroutine, Thread, Switch,
  refused, faults, switches, write_cor, ensure_main, new_main, give_id, new_coroutine,
  set_call_back, yield, resume, set_is_in_co_func, set_can_resume,
}
use rpc_framework.Coroutine.Lifecycle.{
  Progress, vacant, ready, inside, over, is_inside, Machine, co_function_begins, co_function_ends,
  go_on, resume_into, take_call_back, made, Runs, gets_current, gets_main, makes, takes, resumes,
  yields, finishes, allows, Flags, IsFlagged, Reach, here, next,
}

not_inside : (p : Progress) → p ≢ inside → is_inside p ≡ false
not_inside vacant n = refl
not_inside ready n = refl
not_inside inside n = elim (n refl) [ ]
not_inside over n = refl

points_to_other : (o : Option ℕ) (co : ℕ) → o ≢ some co → points_to o co ≡ false
points_to_other none co n = refl
points_to_other (some j) co n = ==_false j co (λ e. n (ap some e))

module _ {C : Type 0} where
  abbrev IsFlaggedIfAny : Option (Machine C) → Type 0
  IsFlaggedIfAny none = Unit {0}
  IsFlaggedIfAny (some s) = IsFlagged s

  -- Such a step of the thread changes no coroutine and makes none.
  record Keeps (t u : Thread C) : Type 0 where
    same_cors : u.cors ≡ t.cors
    same_count : u.t_cur_coroutine_id ≡ t.t_cur_coroutine_id

  yield-Keeps : (t : Thread C) → Keeps t (yield t).1
  unfolding yield
  yield-Keeps t = record { same_cors = ground arith; same_count = ground arith }

  resume-Keeps : (o : Option ℕ) (t : Thread C) → Keeps t (resume o t).1
  unfolding resume
  resume-Keeps none t = record { same_cors = refl; same_count = refl }
  resume-Keeps (some co) t = record { same_cors = ground arith; same_count = ground arith }

  Keeps-IsFlagged :
      (s : Machine C) (t : Thread C)
      → Keeps s.thread t
      → IsFlagged s
      → IsFlagged (record s { thread = t })
  Keeps-IsFlagged s t k f co h =
      ap (λ cors. (cors co).m_is_in_cofunc) k.same_cors ∙ f co (rw k.same_count at h)

  write-Flags :
      {n : ℕ} (cors : ℕ → Coroutine C) (progress : ℕ → Progress) (id : ℕ) (c : Coroutine C)
      (p : Progress)
      → Flags n cors progress
      → c.m_is_in_cofunc ≡ is_inside p
      → Flags n (write_cor cors id c) (write_cor progress id p)
  write-Flags cors progress id c p f e co h = elim (Bool-cases (co == id)) [
    | inl y ↦ rw y e
    | inr n ↦ rw n (f co h)
  ]

  go_on-IsFlagged :
      (co : ℕ) (s : Machine C) (p : Progress)
      → s.progress co ≡ p
      → IsFlagged s
      → IsFlaggedIfAny (go_on co s)
  unfolding go_on co_function_begins set_is_in_co_func
  go_on-IsFlagged co s vacant q f = rw (q, IsFlaggedIfAny) tt
  go_on-IsFlagged co s ready q f =
      rw (q, IsFlaggedIfAny) (write-Flags s.thread.cors s.progress co _ inside f refl)
  go_on-IsFlagged co s inside q f = rw (q, IsFlaggedIfAny) f
  go_on-IsFlagged co s over q f = rw (q, IsFlaggedIfAny) tt

  resume_into-IsFlagged :
      (co : ℕ) (s : Machine C) (r : Switch)
      → (resume (some co) s.thread).0 ≡ r
      → IsFlagged s
      → IsFlaggedIfAny (resume_into co s)
  unfolding resume_into
  resume_into-IsFlagged co s refused q f = rw (q, resume_into) f
  resume_into-IsFlagged co s faults q f = rw (q, resume_into, IsFlaggedIfAny) tt
  resume_into-IsFlagged co s (switches m c) q f =
      let t = (resume (some co) s.thread).1 in
      let next : Machine C = record s { thread = t } in
      rw (q, resume_into)
        (go_on-IsFlagged c next (s.progress c) refl
          (Keeps-IsFlagged s t (resume-Keeps (some co) s.thread) f))

  take_call_back-IsFlagged :
      (id : ℕ) (cb : Option C) (s : Machine C) → IsFlagged s → IsFlagged (take_call_back id cb s).1
  unfolding take_call_back set_call_back
  take_call_back-IsFlagged id cb s f =
      let main = points_to s.thread.t_main_coroutine id in
      let flag = (s.thread.cors id).m_is_in_cofunc in
      elim (Bool-cases (main || flag)) [
        | inl y ↦ rw (y, take_call_back, set_call_back) f
        | inr n ↦
            let down : flag ≡ false = ground (arith, n) in
            rw (n, take_call_back, set_call_back)
              (write-Flags s.thread.cors s.progress id (with_call_back cb (s.thread.cors id)) ready
                f down)
      ]

  new_coroutine-flags :
      (size stack_ptr id co : ℕ) (t u : Thread C)
      → new_coroutine size stack_ptr t ≡ some (id, u)
      → co < u.t_cur_coroutine_id
      → (u.cors co).m_is_in_cofunc
        ≡ (if ltb co t.t_cur_coroutine_id then (t.cors co).m_is_in_cofunc else false)
  unfolding new_coroutine ensure_main give_id new_main
  new_coroutine-flags size stack_ptr id co t u e h = ground arith

  get_current_coroutine-flags :
      (co : ℕ) (t : Thread C)
      → co < (get_current_coroutine t).1.t_cur_coroutine_id
      → ((get_current_coroutine t).1.cors co).m_is_in_cofunc
        ≡ (if ltb co t.t_cur_coroutine_id then (t.cors co).m_is_in_cofunc else false)
  unfolding get_current_coroutine give_id new_main
  get_current_coroutine-flags co t h = ground arith

  get_main_coroutine-flags :
      (co : ℕ) (t : Thread C)
      → co < (get_main_coroutine t).1.t_cur_coroutine_id
      → ((get_main_coroutine t).1.cors co).m_is_in_cofunc
        ≡ (if ltb co t.t_cur_coroutine_id then (t.cors co).m_is_in_cofunc else false)
  unfolding get_main_coroutine ensure_main give_id new_main
  get_main_coroutine-flags co t h = ground arith

  made-IsFlagged :
      (s : Machine C) (t : Thread C)
      → ((co : ℕ)
          → co < t.t_cur_coroutine_id
          → (t.cors co).m_is_in_cofunc ≡ (
              if ltb co s.thread.t_cur_coroutine_id
              then (s.thread.cors co).m_is_in_cofunc
              else false))
      → IsFlagged s
      → IsFlagged (made s t)
  made-IsFlagged s t new f co h = elim (Bool-cases (ltb co s.thread.t_cur_coroutine_id)) [
    | inl y ↦ let e = new co h in rw y (rw y at e ∙ f co (ltb→lt co s.thread.t_cur_coroutine_id y))
    | inr n ↦ let e = new co h in rw n (rw n at e)
  ]

  set_can_resume-IsFlagged :
      (id : ℕ) (v : Bool) (s : Machine C)
      → IsFlagged s
      → IsFlagged (record s { thread = set_can_resume id v s.thread })
  unfolding set_can_resume
  set_can_resume-IsFlagged id v s f co h = elim (Bool-cases (co == id)) [
    | inl y ↦ let e : id ≡ co = ground (arith, y) in rw (y, e) (f co h)
    | inr n ↦ rw n (f co h)
  ]

  Runs-IsFlagged : {s s' : Machine C} → Runs s s' → IsFlagged s → IsFlagged s'
  unfolding co_function_ends set_is_in_co_func
  Runs-IsFlagged {s} gets_current f =
      made-IsFlagged s (get_current_coroutine s.thread).1
        (λ co h. get_current_coroutine-flags co s.thread h) f
  Runs-IsFlagged {s} gets_main f =
      made-IsFlagged s (get_main_coroutine s.thread).1
        (λ co h. get_main_coroutine-flags co s.thread h) f
  Runs-IsFlagged {s} (makes size sp id t e) f =
      made-IsFlagged s t (λ co h. new_coroutine-flags size sp id co s.thread t e h) f
  Runs-IsFlagged {s} (takes id cb) f = take_call_back-IsFlagged id cb s f
  Runs-IsFlagged {s} (resumes co s' e) f =
      subst IsFlaggedIfAny e (resume_into-IsFlagged co s _ refl f)
  Runs-IsFlagged {s} yields f = Keeps-IsFlagged s (yield s.thread).1 (yield-Keeps s.thread) f
  Runs-IsFlagged {s} (finishes co e q) f =
      let lowered = set_is_in_co_func co false s.thread in
      let next : Machine C = record { thread = lowered; progress = write_cor s.progress co over } in
      Keeps-IsFlagged next (yield lowered).1 (yield-Keeps lowered) (
        write-Flags s.thread.cors s.progress co
          (record (s.thread.cors co) { m_is_in_cofunc = false }) over f refl)
  Runs-IsFlagged {s} (allows id v) f = set_can_resume-IsFlagged id v s f

  take_call_back-refuses :
      (co : ℕ) (cb : Option C) (t : Machine C)
      → (points_to t.thread.t_main_coroutine co || (t.thread.cors co).m_is_in_cofunc) ≡ true
      → take_call_back co cb t ≡ (false, t)
  unfolding take_call_back set_call_back
  take_call_back-refuses co cb t y = rw (y, take_call_back, set_call_back) refl

  take_call_back-accepts :
      (co : ℕ) (cb : Option C) (t : Machine C)
      → (points_to t.thread.t_main_coroutine co || (t.thread.cors co).m_is_in_cofunc) ≡ false
      → ((take_call_back co cb t).0 ≡ true)
        × ((take_call_back co cb t).1.progress co ≡ ready)
        × (((take_call_back co cb t).1.thread.cors co).m_call_back ≡ cb)
  unfolding take_call_back set_call_back
  take_call_back-accepts co cb t n =
      rw (n, take_call_back, set_call_back, ==_refl co) (refl, refl, refl)

  Reach-IsFlagged : {s t : Machine C} → IsFlagged s → Reach s t → IsFlagged t
  Reach-IsFlagged f here = f
  Reach-IsFlagged f (next r step) = Runs-IsFlagged step (Reach-IsFlagged f r)

  -- However a thread goes on, from a state in which the flags agree with the callbacks that have begun and not ended:
  -- of a coroutine that is inside its callback `setCallBack` refuses to change anything, and it accepts one for every
  -- other coroutine but the main one, which then enters `CoFunction` anew.
  pub Reach-guards_call_back :
      {s t : Machine C} (co : ℕ) (cb : Option C)
      → IsFlagged s
      → Reach s t
      → co < t.thread.t_cur_coroutine_id
      → (t.progress co ≡ inside → take_call_back co cb t ≡ (false, t))
        × (t.progress co ≢ inside
            → t.thread.t_main_coroutine ≢ some co
            → ((take_call_back co cb t).0 ≡ true)
              × ((take_call_back co cb t).1.progress co ≡ ready)
              × (((take_call_back co cb t).1.thread.cors co).m_call_back ≡ cb))
  Reach-guards_call_back {s} {t} co cb f r h =
      let flag = Reach-IsFlagged f r co h in
      let up : (b c : Bool) → c ≡ true → (b || c) ≡ true = λ b c e. ground (arith, e) in
      (
        λ q. take_call_back-refuses co cb t (up _ _ (flag ∙ ap is_inside q)),
        λ n m. take_call_back-accepts co cb t (
            rw (points_to_other t.thread.t_main_coroutine co m, flag)
              (not_inside (t.progress co) n)),
      )
