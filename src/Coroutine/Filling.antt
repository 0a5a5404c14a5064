-- ===== src/Coroutine/Filling.antt =====
-- coroutine_pool.cpp: the pool of a thread that has no coroutine yet.
use rpc_framework.Base.{
  ℕ, zero, suc, ◌-◌, ◌*◌, ◌<◌, ◌≤◌, ◌≡◌, ◌≢◌, refl, ap, ◌∙◌, List, [], ◌∷◌, none, some, true, false,
  arith, ==_false,
}
use rpc_framework.Coroutine.{
  Coroutine, Thread, blank, new_coroutine, ensure_main, new_main, give_id,
}
use rpc_framework.Coroutine.Pool.{
  Slot, CoroutinePool, fresh, free_slots, make, find_free, get_coroutine_pool,
  get_coroutine_instanse,
}

module _ {C : Type 0} where
  -- Between the two threads coroutines were made, and nothing else was done.
  record Grows (t u : Thread C) : Type 0 where
    main : u.t_main_coroutine ≡ t.t_main_coroutine
    current : u.t_cur_coroutine ≡ t.t_cur_coroutine
    more : t.t_cur_coroutine_id ≤ u.t_cur_coroutine_id
    older : (j : ℕ) → j < t.t_cur_coroutine_id → u.cors j ≡ t.cors j

  ensure_main-some : (m : ℕ) (t : Thread C) → t.t_main_coroutine ≡ some m → ensure_main t ≡ t
  unfolding ensure_main
  ensure_main-some m t e = ground (arith, e)

  give_id-Grows : (c : Coroutine C) (t : Thread C) → Grows t (give_id c t)
  unfolding give_id
  give_id-Grows c t = record {
    main = refl;
    current = refl;
    more = omega arith;
    older = λ j h. rw (==_false j t.t_cur_coroutine_id (omega arith)) refl;
  }

-- The variables of a thread that has made no coroutine.
abbrev pub new_thread : {C : Type 0} → (ℕ → Coroutine C) → Thread C
new_thread cors = record {
  t_main_coroutine = none;
  t_cur_coroutine = none;
  t_cur_run_time = none;
  t_coroutine_count = 0;
  t_cur_coroutine_id = 0;
  cors = cors;
}

find_free-here :
    {C : Type 0} (n : ℕ) (slots : List Slot) (u : Thread C)
    → (u.cors 1).m_is_in_cofunc ≡ false
    → find_free (suc n) 1 ((none, false) ∷ (some 1, false) ∷ slots) u ≡ some (some (1, 1))
unfolding find_free
find_free-here n slots u e = rw (e, find_free) refl

module _ {C : Type 0} (stack : ℕ → ℕ) (there : (id : ℕ) → stack id ≢ 0) where
  -- In a thread with a main coroutine.
  fresh-gives :
      (size m : ℕ) (t : Thread C)
      → t.t_main_coroutine ≡ some m
      → fresh stack size t
        ≡ some (t.t_cur_coroutine_id, give_id (blank size (stack t.t_cur_coroutine_id)) t)
  unfolding fresh new_coroutine
  fresh-gives size m t e =
      rw
        (
          ensure_main-some m t e,
          fresh,
          new_coroutine,
          ==_false (stack t.t_cur_coroutine_id) 0 (there t.t_cur_coroutine_id),
        )
        refl

  free_slots-Grows :
      (n size m : ℕ) (t : Thread C)
      → t.t_main_coroutine ≡ some m
      → (slots : List Slot) × (u : Thread C) × (free_slots stack n size t ≡ some (slots, u))
        × Grows t u
  unfolding free_slots
  free_slots-Grows zero size m t e =
      ([], t, refl, record { main = refl; current = refl; more = omega arith; older = λ j h. refl })
  free_slots-Grows (suc n) size m t e =
      let c = blank size (stack t.t_cur_coroutine_id) in
      let g = give_id-Grows c t in
      let (slots, u, f, h) = free_slots-Grows n size m (give_id c t) (g.main ∙ e) in
      (
        (some t.t_cur_coroutine_id, false) ∷ slots,
        u,
        rw (fresh-gives size m t e, free_slots, f) refl,
        record {
          main = h.main ∙ g.main;
          current = h.current ∙ g.current;
          more = omega (arith, h.more, g.more);
          older = λ j k. h.older j (omega (arith, g.more)) ∙ g.older j k;
        },
      )

  -- The pool that such a thread makes: its first free slot has the coroutine 1, and 0 is the main coroutine.
  make-new_thread :
      (n size : ℕ) (cors : ℕ → Coroutine C)
      → (slots : List Slot) × (u : Thread C) × (make stack (suc n) size (new_thread cors)
          ≡ some (
            record {
              m_index = 1;
              m_pool_size = suc n;
              m_stack_size = size;
              m_free_cors = (none, false) ∷ (some 1, false) ∷ slots;
            },
            u,
          ))
        × (u.t_main_coroutine ≡ some 0)
        × (u.t_cur_coroutine ≡ some 0)
        × (u.cors 1 ≡ blank size (stack 0))
  unfolding make free_slots fresh new_coroutine ensure_main give_id new_main
  make-new_thread n size cors =
      let c : Coroutine C = blank size (stack 0) in
      let (slots, u, f, g) =
        free_slots-Grows n size 0 (give_id c (new_main (new_thread cors))) refl in
      (
        slots,
        u,
        rw (==_false (stack 0) 0 (there 0), f, make, free_slots, fresh, new_coroutine) refl,
        g.main,
        g.current,
        g.older 1 (omega arith),
      )

  find_first :
      (n size : ℕ) (slots : List Slot) (u : Thread C)
      → (u.cors 1).m_is_in_cofunc ≡ false
      → get_coroutine_instanse stack
          (record {
            m_index = 1;
            m_pool_size = suc (suc n);
            m_stack_size = size;
            m_free_cors = (none, false) ∷ (some 1, false) ∷ slots;
          })
          u
        ≡ some (
          1,
          record {
            m_index = 1;
            m_pool_size = suc (suc n);
            m_stack_size = size;
            m_free_cors = (none, false) ∷ (some 1, true) ∷ slots;
          },
          u,
        )
  unfolding get_coroutine_instanse
  find_first n size slots u e =
      let count : suc (suc n) - 1 ≡ suc n = omega arith in
      rw (count, get_coroutine_instanse, find_free-here n slots u e) refl

  -- On a thread without a coroutine, the first call of `getCoroutineInstanse` behind `GetCoroutinePool` gives the
  -- coroutine 1, which is not running, and the thread is in its main coroutine 0.
  pub get_coroutine_instanse-first :
      (cors : ℕ → Coroutine C)
      → (p q : CoroutinePool) × (u : Thread C) × (get_coroutine_pool stack none (new_thread cors)
          ≡ some (p, u))
        × (get_coroutine_instanse stack p u ≡ some (1, q, u))
        × (u.t_main_coroutine ≡ some 0)
        × (u.t_cur_coroutine ≡ some 0)
        × (u.cors 1 ≡ blank (128 * 1024) (stack 0))
  unfolding get_coroutine_pool
  get_coroutine_instanse-first cors =
      let (slots, u, f, m, c, b) = make-new_thread 999 (128 * 1024) cors in
      let p : CoroutinePool = record {
        m_index = 1;
        m_pool_size = 1000;
        m_stack_size = 128 * 1024;
        m_free_cors = (none, false) ∷ (some 1, false) ∷ slots;
      } in
      (
        p,
        record p { m_free_cors = (none, false) ∷ (some 1, true) ∷ slots },
        u,
        f,
        find_first 998 (128 * 1024) slots u (ap (λ k. k.m_is_in_cofunc) b),
        m,
        c,
        b,
      )
