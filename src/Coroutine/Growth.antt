-- ===== src/Coroutine/Growth.antt =====
-- coroutine_pool.cpp: taking a coroutine, and what growing does to the slots.
use native.Mathlib.Decide.{ℕ_discrete}
use rpc_framework.Base.{
  ℕ, zero, suc, ◌+◌, ◌-◌, ◌*◌, ◌/◌, ◌<◌, ◌≤◌, ◌≡◌, ◌≢◌, refl, ap, sym, ◌∙◌, List, [], ◌∷◌, ◌++◌,
  none, some, true, false, get_elem?, set, length, arith, Option-cases, inl, inr,
  get_elem?-set_self, get_elem?-set_ne, get_elem?-in_range, get_elem?-append_lt, length-set,
  length-append,
}
use rpc_framework.Coroutine.{Thread, new_coroutine}
use rpc_framework.Coroutine.Pool.{
  Slot, CoroutinePool, fresh, find_free, grow_slot, grow_slots, get_coroutine_instanse,
}

module _ {C : Type 0} where
  -- What the search finds: a slot in its range that holds the coroutine, free and not running.
  pub find_free_sound :
      (n i : ℕ) (slots : List Slot) (t : Thread C) (j cor : ℕ)
      → find_free n i slots t ≡ some (some (j, cor))
      → (i ≤ j)
        × (j < i + n)
        × (get_elem? slots j ≡ some (some cor, false))
        × ((t.cors cor).m_is_in_cofunc ≡ false)
  unfolding find_free
  find_free_sound zero i slots t j cor e = absurd (ground arith)
  find_free_sound (suc n) i slots t j cor e =
      ground (arith, find_free_sound n (i + 1) slots t j cor)

module _ {C : Type 0} (stack : ℕ → ℕ) where
  -- A coroutine that the search finds is returned and its slot marked as taken: while the mark stands,
  -- no later search, at whatever state of the thread, finds that slot; the other slots are unchanged.
  pub get_coroutine_instanse-exclusive :
      (p : CoroutinePool) (t : Thread C) (i cor : ℕ)
      → find_free (p.m_pool_size - p.m_index) p.m_index p.m_free_cors t ≡ some (some (i, cor))
      → (q : CoroutinePool) × (get_coroutine_instanse stack p t ≡ some (cor, q, t))
        × ((t' : Thread C) (n k j c : ℕ)
            → find_free n k q.m_free_cors t' ≡ some (some (j, c))
            → j ≢ i)
        × ((j : ℕ) → i ≢ j → get_elem? q.m_free_cors j ≡ get_elem? p.m_free_cors j)
  unfolding get_coroutine_instanse
  get_coroutine_instanse-exclusive p t i cor e =
      let found = find_free_sound (p.m_pool_size - p.m_index) p.m_index p.m_free_cors t i cor e in
      let q = record p { m_free_cors = set p.m_free_cors i (some cor, true) } in
      (
        q,
        rw (e, get_coroutine_instanse) refl,
        λ t' n k j c f same. ground (
          arith,
          find_free_sound n k q.m_free_cors t' j c f,
          ap (get_elem? q.m_free_cors) same,
          get_elem?-set_self p.m_free_cors i (some cor, true)
              (get_elem?-in_range p.m_free_cors i (some cor, false) found.2),
        ),
        λ j ne. get_elem?-set_ne p.m_free_cors (some cor, true) ne,
      )

  fresh-id :
      (size c : ℕ) (t u : Thread C)
      → fresh stack size t ≡ some (c, u)
      → (t.t_cur_coroutine_id ≤ c) × (c < u.t_cur_coroutine_id)
  unfolding fresh new_coroutine
  fresh-id size c t u e = ground arith

  -- What one round of the growth leaves: the slot holds a new coroutine, the others stay.
  grow_slot-replaces :
      (i size : ℕ) (slots slots' : List Slot) (t u : Thread C)
      → grow_slot stack i size slots t ≡ some (slots', u)
      → ((c : ℕ) × (get_elem? slots' i ≡ some (some c, false)) × (t.t_cur_coroutine_id ≤ c))
        × (t.t_cur_coroutine_id ≤ u.t_cur_coroutine_id)
        × ((j : ℕ) → i ≢ j → j < length slots → get_elem? slots' j ≡ get_elem? slots j)
        × (length slots ≤ length slots')
  unfolding grow_slot
  grow_slot-replaces i size slots slots' t u e = elim (Option-cases (fresh stack size t)) [
    | inl n ↦ absurd (ground (arith, n, e))
    | inr ((c, u'), f) ↦ elim (Option-cases (get_elem? slots i)) [
      | inl n ↦ absurd (ground (arith, n, f, e))
      | inr (old, g) ↦
          let slot : Slot = (some c, false) in
          let table = set slots i slot in
          let eq : table ++ slot ∷ [] ≡ slots' = ground (arith, f, g, e) in
          let ids = fresh-id size c t u' f in
          let same : u'.t_cur_coroutine_id ≡ u.t_cur_coroutine_id = ground (arith, f, g, e) in
          let len = length-set slots i slot in
          let inside = get_elem?-in_range slots i old g in
          (
            (
              c,
              ap (λ l. get_elem? l i) (sym eq)
                  ∙ get_elem?-append_lt table (slot ∷ []) i (omega (arith, len, inside))
                  ∙ get_elem?-set_self slots i slot inside,
              ids.0,
            ),
            omega (arith, ids.0, ids.1, same),
            λ j ne h.
                ap (λ l. get_elem? l j) (sym eq)
                ∙ get_elem?-append_lt table (slot ∷ []) j (omega (arith, len))
                ∙ get_elem?-set_ne slots slot ne,
            omega (arith, ap length eq, length-append table (slot ∷ []), len),
          )
    ]
  ]

  grow_slots-keeps :
      (n i size : ℕ) (slots slots' : List Slot) (t u : Thread C) (j : ℕ)
      → grow_slots stack n i size slots t ≡ some (slots', u)
      → j < i
      → j < length slots
      → get_elem? slots' j ≡ get_elem? slots j
  unfolding grow_slots
  grow_slots-keeps zero i size slots slots' t u j e h k =
      ap (λ l. get_elem? l j) (ground (arith, e))
  grow_slots-keeps (suc n) i size slots slots' t u j e h k =
      elim (Option-cases (grow_slot stack i size slots t)) [
        | inl f ↦ absurd (ground (arith, f, e))
        | inr ((s, v), f) ↦
            let r = grow_slot-replaces i size slots s t v f in
            let rest : grow_slots stack n (i + 1) size s v ≡ some (slots', u) =
              rw (f, grow_slots) at e in
            grow_slots-keeps n (i + 1) size s slots' v u j rest (omega arith) (omega (arith, r.3))
            ∙ r.2 j (omega arith) k
      ]

  grow_slots-replaces :
      (n i size : ℕ) (slots slots' : List Slot) (t u : Thread C) (j : ℕ)
      → grow_slots stack n i size slots t ≡ some (slots', u)
      → i ≤ j
      → j < i + n
      → (c : ℕ) × (get_elem? slots' j ≡ some (some c, false)) × (t.t_cur_coroutine_id ≤ c)
  unfolding grow_slots
  grow_slots-replaces zero i size slots slots' t u j e h k = absurd (omega arith)
  grow_slots-replaces (suc n) i size slots slots' t u j e h k =
      elim (Option-cases (grow_slot stack i size slots t)) [
        | inl f ↦ absurd (ground (arith, f, e))
        | inr ((s, v), f) ↦
            let r = grow_slot-replaces i size slots s t v f in
            let rest : grow_slots stack n (i + 1) size s v ≡ some (slots', u) =
              rw (f, grow_slots) at e in
            elim (ℕ_discrete i j) [
              | yes here ↦
                  let at_j : get_elem? s j ≡ some (some r.0.0, false) = rw here at r.0.1 in
                  (
                    r.0.0,
                    grow_slots-keeps n (i + 1) size s slots' v u j rest (omega arith)
                          (get_elem?-in_range s j (some r.0.0, false) at_j)
                        ∙ at_j,
                    r.0.2,
                  )
              | no later ↦
                  let (c, g, l) =
                    grow_slots-replaces n (i + 1) size s slots' v u j rest (omega arith)
                      (omega arith) in
                  (c, g, omega (arith, l, r.1))
            ]
      ]

  -- Where the search finds no free slot, the growth reaches the slot `m_index`, and the call
  -- returns: that slot then holds a coroutine that the call has made, marked as free.
  pub get_coroutine_instanse-replaces :
      (p q : CoroutinePool) (t u : Thread C) (cor : ℕ)
      → find_free (p.m_pool_size - p.m_index) p.m_index p.m_free_cors t ≡ some none
      → p.m_index < 3 * p.m_pool_size / 2 - p.m_pool_size
      → get_coroutine_instanse stack p t ≡ some (cor, q, u)
      → (c : ℕ) × (get_elem? q.m_free_cors p.m_index ≡ some (some c, false))
        × (t.t_cur_coroutine_id ≤ c)
  unfolding get_coroutine_instanse
  get_coroutine_instanse-replaces p q t u cor e h k =
      let n = 3 * p.m_pool_size / 2 - p.m_pool_size in
      elim (Option-cases (grow_slots stack n 0 p.m_stack_size p.m_free_cors t)) [
        | inl f ↦ absurd (ground (arith, e, f, k))
        | inr ((slots, v), f) ↦
            let same : slots ≡ q.m_free_cors = ground (arith, e, f, k) in
            rw same at (
              grow_slots-replaces n 0 p.m_stack_size p.m_free_cors slots t v p.m_index f
                (omega arith) (omega arith))
      ]
