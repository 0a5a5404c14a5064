-- ===== src/Coroutine.antt =====
-- RpcFramework/rocket/coroutine/coroutine.h and coroutine.cpp: the coroutines of one thread. An object is
-- known by its `m_cor_id`, which the thread gives out once. `coctx_swap` exchanges register sets and is
-- not modelled: a switch says which coroutine stops and which one goes on. Stack pointers are numbers,
-- 0 the null pointer; callbacks are values of any type.
pub mod Switching
pub mod Pool
pub mod Growth
pub mod Filling
pub mod Lifecycle
pub mod Tests
use rpc_framework.Base.{
  ℕ, ◌+◌, ◌-◌, List, [], ◌*◌, ◌/◌, Option, none, some, Bool, true, false, not, ◌&&◌, ◌||◌, ◌==◌,
  if◌then◌else◌,
}
use rpc_framework.Base.Int.{ℤ, pos, negsuc}

-- `m_coctx`: cleared, or set up by `setCallBack` to enter `CoFunction` on a stack with this top.
pub data Context : Type 0 where
  cleared : Context
  entry : ℕ → Context

pub record Coroutine (C : Type 0) : Type 0 where
  pub m_coctx : Context
  pub m_stack_size : ℕ
  pub m_stack_sp : ℕ
  pub m_is_in_cofunc : Bool
  pub m_can_resume : Bool
  pub m_call_back : Option C
  pub m_msg_no : List ℕ
  pub m_index : ℤ

-- The thread's variables; `t_cur_run_time` is that of the coroutine with the id.
pub record Thread (C : Type 0) : Type 0 where
  pub t_main_coroutine : Option ℕ
  pub t_cur_coroutine : Option ℕ
  pub t_cur_run_time : Option ℕ
  pub t_coroutine_count : ℕ
  pub t_cur_coroutine_id : ℕ
  pub cors : ℕ → Coroutine C

abbrev pub write_cor {ℓ} : {E : Type ℓ} → (ℕ → E) → ℕ → E → ℕ → E
write_cor cors id c j = if j == id then c else cors j

-- Whether a pointer is to the object `id`.
abbrev pub points_to : Option ℕ → ℕ → Bool
points_to none id = false
points_to (some j) id = j == id

abbrev pub same : Option ℕ → Option ℕ → Bool
same none none = true
same none (some j) = false
same (some i) none = false
same (some i) (some j) = i == j

-- What `Yield` or `Resume` does: it returns with an error, reads the context of a null coroutine, or switches from
-- one coroutine to another.
pub data Switch : Type 0 where
  refused faults : Switch
  switches : ℕ → ℕ → Switch

module _ {C : Type 0} where
  abbrev pub blank : ℕ → ℕ → Coroutine C
  blank size stack_ptr = record {
    m_coctx = cleared;
    m_stack_size = size;
    m_stack_sp = stack_ptr;
    m_is_in_cofunc = false;
    m_can_resume = true;
    m_call_back = none;
    m_msg_no = [];
    m_index = negsuc 0;
  }

  unfoldable pub give_id : Coroutine C → Thread C → Thread C
  give_id c t = record t {
    t_coroutine_count = t.t_coroutine_count + 1;
    t_cur_coroutine_id = t.t_cur_coroutine_id + 1;
    cors = write_cor t.cors t.t_cur_coroutine_id c;
  }

  -- `t_main_coroutine = new Coroutine()`, whose constructor makes it the current one.
  unfoldable pub new_main : Thread C → Thread C
  unfolding give_id
  new_main t = record (give_id (blank 0 0) t) {
    t_main_coroutine = some t.t_cur_coroutine_id;
    t_cur_coroutine = some t.t_cur_coroutine_id;
  }

  unfoldable pub ensure_main : Thread C → Thread C
  unfolding new_main
  ensure_main t = elim t.t_main_coroutine [ none ↦ new_main t | some m ↦ t ]

  -- `Coroutine(size, stack_ptr)`: the new id; none where the assertion fails.
  unfoldable pub new_coroutine : ℕ → ℕ → Thread C → Option (ℕ × Thread C)
  unfolding ensure_main give_id
  new_coroutine size stack_ptr t =
      let u = ensure_main t in
      if stack_ptr == 0 then none else some (u.t_cur_coroutine_id, give_id (blank size stack_ptr) u)

  -- What `setCallBack` makes of a coroutine: the top of the stack is aligned to 16 bytes.
  abbrev pub with_call_back : Option C → Coroutine C → Coroutine C
  with_call_back cb c = record c {
    m_call_back = cb;
    m_coctx = entry ((c.m_stack_sp + c.m_stack_size) / 16 * 16);
    m_can_resume = true;
  }

  unfoldable pub set_call_back : ℕ → Option C → Thread C → Bool × Thread C
  set_call_back id cb t =
      if points_to t.t_main_coroutine id || (t.cors id).m_is_in_cofunc
      then (false, t)
      else (true, record t { cors = write_cor t.cors id (with_call_back cb (t.cors id)) })

  -- `Coroutine(size, stack_ptr, cb)`: the new object is neither the main coroutine nor running, so that it takes
  -- the callback.
  unfoldable pub new_with_call_back : ℕ → ℕ → Option C → Thread C → Option (ℕ × Thread C)
  unfolding ensure_main give_id
  new_with_call_back size stack_ptr cb t =
      let u = ensure_main t in
      if stack_ptr == 0
      then none
      else some (u.t_cur_coroutine_id, give_id (with_call_back cb (blank size stack_ptr)) u)

  -- The destructor.
  unfoldable pub die : Thread C → Thread C
  die t = record t { t_coroutine_count = t.t_coroutine_count - 1 }

  unfoldable pub yield : Thread C → Switch × Thread C
  yield t = elim t.t_main_coroutine [
    | none ↦ (refused, t)
    | some m ↦ elim t.t_cur_coroutine [
      | none ↦ (faults, record t { t_cur_coroutine = some m; t_cur_run_time = none })
      | some co ↦
          if co == m
          then (refused, t)
          else (switches co m, record t { t_cur_coroutine = some m; t_cur_run_time = none })
    ]
  ]

  unfoldable pub resume : Option ℕ → Thread C → Switch × Thread C
  resume none t = (refused, t)
  resume (some co) t = elim t.t_main_coroutine [
    | none ↦ (refused, t)
    | some m ↦
        if not (same t.t_cur_coroutine (some m)) || not (t.cors co).m_can_resume || m == co
        then (refused, t)
        else (switches m co, record t { t_cur_coroutine = some co; t_cur_run_time = some co })
  ]

  unfoldable pub get_current_coroutine : Thread C → Option ℕ × Thread C
  unfolding new_main
  get_current_coroutine t = elim t.t_cur_coroutine [
    | none ↦ ((new_main t).t_cur_coroutine, new_main t)
    | some c ↦ (some c, t)
  ]

  unfoldable pub get_main_coroutine : Thread C → Option ℕ × Thread C
  unfolding ensure_main
  get_main_coroutine t = ((ensure_main t).t_main_coroutine, ensure_main t)

  unfoldable pub is_main_coroutine : Thread C → Bool
  is_main_coroutine t = elim t.t_main_coroutine [
    | none ↦ true
    | some m ↦ same t.t_cur_coroutine (some m)
  ]

  -- `CoFunction` around the callback: the flag is up while it runs.
  unfoldable pub set_is_in_co_func : ℕ → Bool → Thread C → Thread C
  set_is_in_co_func id v t = record t {
    cors = write_cor t.cors id (record (t.cors id) { m_is_in_cofunc = v });
  }

  unfoldable pub set_msg_no : ℕ → List ℕ → Thread C → Thread C
  set_msg_no id msg_no t = record t {
    cors = write_cor t.cors id (record (t.cors id) { m_msg_no = msg_no });
  }

  unfoldable pub set_index : ℕ → ℤ → Thread C → Thread C
  set_index id index t = record t {
    cors = write_cor t.cors id (record (t.cors id) { m_index = index });
  }

  unfoldable pub set_can_resume : ℕ → Bool → Thread C → Thread C
  set_can_resume id v t = record t {
    cors = write_cor t.cors id (record (t.cors id) { m_can_resume = v });
  }

  -- `setCurrentRunTime`, to that of a coroutine or to null.
  unfoldable pub set_current_run_time : Option ℕ → Thread C → Thread C
  set_current_run_time v t = record t { t_cur_run_time = v }
