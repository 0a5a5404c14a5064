-- ===== src/Coroutine/Pool.antt =====
-- RpcFramework/rocket/coroutine/coroutine_pool.h and coroutine_pool.cpp: a thread's pool. A slot holds a
-- coroutine, or the null pointer, and whether it is taken. `stack` gives the address of the stack that
-- `malloc` returns for a coroutine. A null pointer and a slot outside the vector are faults.
use rpc_framework.Base.{
  ℕ, zero, suc, ◌+◌, ◌-◌, ◌*◌, ◌/◌, List, [], ◌∷◌, ◌++◌, Option, none, some, ◌>>=◌, Bool, true,
  false, not, ◌&&◌, ◌==◌, if◌then◌else◌, get_elem?, set, replicate,
}
use rpc_framework.Coroutine.{Thread, new_coroutine}

abbrev pub Slot : Type 0
Slot = Option ℕ × Bool

pub record CoroutinePool : Type 0 where
  pub m_index : ℕ
  pub m_pool_size : ℕ
  pub m_stack_size : ℕ
  pub m_free_cors : List Slot

module _ {C : Type 0} where
  -- The first of the `n` slots from `i` on whose coroutine is not running and not taken.
  unfoldable pub find_free : ℕ → ℕ → List Slot → Thread C → Option (Option (ℕ × ℕ))
  find_free zero i slots t = some none
  find_free (suc n) i slots t =
      let rest = find_free n (i + 1) slots t in
      do
        slot ← get_elem? slots i
        cor ← slot.0
        if not (t.cors cor).m_is_in_cofunc && not slot.1 then some (some (i, cor)) else rest

module _ {C : Type 0} (stack : ℕ → ℕ) where
  -- A coroutine with a stack of its own.
  unfoldable pub fresh : ℕ → Thread C → Option (ℕ × Thread C)
  fresh stack_size t = new_coroutine stack_size (stack t.t_cur_coroutine_id) t

  -- `n` free slots.
  unfoldable pub free_slots : ℕ → ℕ → Thread C → Option (List Slot × Thread C)
  unfolding fresh
  free_slots zero stack_size t = some ([], t)
  free_slots (suc n) stack_size t = do
    c ← fresh stack_size t
    rest ← free_slots n stack_size c.1
    some ((some c.0, false) ∷ rest.0, rest.1)

  -- The constructor: the slots below `m_index` stay empty.
  unfoldable pub make : ℕ → ℕ → Thread C → Option (CoroutinePool × Thread C)
  unfolding free_slots
  make pool_size stack_size t = do
    let index = if t.t_cur_coroutine_id == 0 then 1 else t.t_cur_coroutine_id
    slots ← free_slots pool_size stack_size t
    some (
      record {
        m_index = index;
        m_pool_size = pool_size;
        m_stack_size = stack_size;
        m_free_cors = replicate index (none, false) ++ slots.0;
      },
      slots.1,
    )

  -- `GetCoroutinePool`, with the pool that the thread has: 1000 coroutines with stacks of 128 KB.
  unfoldable pub get_coroutine_pool :
      Option CoroutinePool → Thread C → Option (CoroutinePool × Thread C)
  unfolding make
  get_coroutine_pool (some p) t = some (p, t)
  get_coroutine_pool none t = make 1000 (128 * 1024) t

  -- One round of the growth: `m_free_cors.push_back(m_free_cors[i] = ...)`.
  unfoldable pub grow_slot : ℕ → ℕ → List Slot → Thread C → Option (List Slot × Thread C)
  unfolding fresh
  grow_slot i stack_size slots t = do
    c ← fresh stack_size t
    old ← get_elem? slots i
    some (set slots i (some c.0, false) ++ (some c.0, false) ∷ [], c.1)

  unfoldable pub grow_slots : ℕ → ℕ → ℕ → List Slot → Thread C → Option (List Slot × Thread C)
  unfolding grow_slot
  grow_slots zero i stack_size slots t = some (slots, t)
  grow_slots (suc n) i stack_size slots t = do
    grown ← grow_slot i stack_size slots t
    grow_slots n (i + 1) stack_size grown.0 grown.1

  -- `getCoroutineInstanse`: the coroutine, the pool and the thread.
  unfoldable pub get_coroutine_instanse :
      CoroutinePool → Thread C → Option (ℕ × CoroutinePool × Thread C)
  unfolding find_free grow_slots
  get_coroutine_instanse p t = do
    found ← find_free (p.m_pool_size - p.m_index) p.m_index p.m_free_cors t
    elim found [
      | some (i, cor) ↦
          some (cor, record p { m_free_cors = set p.m_free_cors i (some cor, true) }, t)
      | none ↦ do
        let newsize = 3 * p.m_pool_size / 2
        grown ← grow_slots (newsize - p.m_pool_size) 0 p.m_stack_size p.m_free_cors t
        slot ← get_elem? grown.0 p.m_pool_size
        cor ← slot.0
        some (cor, record p { m_pool_size = newsize; m_free_cors = grown.0 }, grown.1)
    ]

-- `returnCoroutine`: the slot is found by the coroutine's id.
unfoldable pub return_coroutine : ℕ → CoroutinePool → Option CoroutinePool
return_coroutine cor p = do
  slot ← get_elem? p.m_free_cors cor
  some (record p { m_free_cors = set p.m_free_cors cor (slot.0, false) })
