-- ===== src/Fd/Group.antt =====
-- RpcFramework/rocket/net/fd_event_group.h and fd_event_group.cpp: the table of all events, by
-- descriptor. The mutex makes each call one step.
use rpc_framework.Base.{
  ℕ, zero, suc, ◌+◌, ◌*◌, ◌/◌, ◌-◌, ◌<◌, ◌≤◌, ◌≡◌, refl, ap, ◌∙◌, List, [], ◌∷◌, ◌++◌, Option, none,
  some, ◌>>=◌, arith, length, length-append, get_elem?, ltb, if◌then◌else◌, append-nil, lt→ltb,
  le→ltb_false,
}
use rpc_framework.Base.Int.{ℤ, pos, negsuc}
use native.Mathlib.Decide.{dec_lt}
use rpc_framework.Fd.{FdEvent, new_event}

module _ {C : Type 0} where
  -- New events for `n` descriptors from `i` on.
  unfoldable pub new_events : ℕ → ℕ → List (FdEvent C)
  new_events zero i = []
  new_events (suc n) i = new_event i ∷ new_events n (i + 1)

  unfoldable pub make : ℕ → List (FdEvent C)
  make size = new_events size 0

  -- `GetFdEventGroup`, with the process's table, if it has one.
  unfoldable pub get_fd_event_group : Option (List (FdEvent C)) → List (FdEvent C)
  unfolding make
  get_fd_event_group (some group) = group
  get_fd_event_group none = make 128

  -- The event of a descriptor and the table, grown where the descriptor lies outside. A negative one is
  -- no index: reading there is a fault.
  unfoldable pub get_fd_event : ℤ → List (FdEvent C) → Option (FdEvent C × List (FdEvent C))
  get_fd_event (negsuc n) group = none
  get_fd_event (pos fd) group =
      let grown = group ++ new_events (3 * fd / 2 - length group) (length group) in
      let table = if ltb fd (length group) then group else grown in
      get_elem? table fd >>= λ event. some (event, table)

  -- Every event stands at its descriptor.
  abbrev pub Indexed : ℕ → List (FdEvent C) → Type 0
  Indexed i [] = Unit
  Indexed i (e ∷ es) = (e.m_fd ≡ i) × Indexed (suc i) es

module _ (C : Type 0) where
  length-new_events : (n i : ℕ) → length (new_events {C = C} n i) ≡ n
  unfolding new_events
  length-new_events zero i = refl
  length-new_events (suc n) i = ap suc (length-new_events n (i + 1))

  new_events-Indexed : (n i : ℕ) → Indexed {C = C} i (new_events n i)
  unfolding new_events new_event
  new_events-Indexed zero i = tt
  new_events-Indexed (suc n) i =
      let e : i + 1 ≡ suc i = omega arith in (refl, rw e (new_events-Indexed n (suc i)))

  -- The table of a new group is indexed by descriptor.
  pub make-Indexed : (size : ℕ) → Indexed {C = C} 0 (make size)
  unfolding make
  make-Indexed size = new_events-Indexed size 0

module _ {C : Type 0} where
  append-Indexed :
      (i : ℕ) (es fs : List (FdEvent C))
      → Indexed i es
      → Indexed (i + length es) fs
      → Indexed i (es ++ fs)
  append-Indexed i [] fs h k = let e : i + 0 ≡ i = omega arith in rw e at k
  append-Indexed i (x ∷ es) fs h k =
      let e : i + suc (length es) ≡ suc i + length es = omega arith in
      (h.0, append-Indexed (suc i) es fs h.1 (rw e at k))

  get_elem?-Indexed :
      (i n : ℕ) (es : List (FdEvent C))
      → Indexed i es
      → n < length es
      → (e : FdEvent C) × (get_elem? es n ≡ some e) × (e.m_fd ≡ i + n)
  get_elem?-Indexed i n [] h k = elim k [ ]
  get_elem?-Indexed i zero (e ∷ es) h k = (e, refl, h.0 ∙ add_zero i)
    where
      add_zero : (j : ℕ) → j ≡ j + 0
      add_zero j = omega arith
  get_elem?-Indexed i (suc n) (e ∷ es) h k =
      let (f, g, l) = get_elem?-Indexed (suc i) n es h.1 (omega arith) in (f, g, omega (arith, l))

  -- From a table indexed by descriptor, with two entries at least, every descriptor gets its event. The
  -- table stays indexed, and keeps all that it had at the front.
  pub get_fd_event-finds :
      (fd : ℕ) (group : List (FdEvent C))
      → Indexed 0 group
      → 2 ≤ length group
      → (e : FdEvent C) × (more : List (FdEvent C)) × (get_fd_event (pos fd) group
          ≡ some (e, group ++ more))
        × (e.m_fd ≡ fd)
        × Indexed 0 (group ++ more)
  unfolding get_fd_event
  get_fd_event-finds fd group h two = elim (dec_lt fd (length group)) [
    | yes p ↦
        let (e, g, f) = get_elem?-Indexed 0 fd group h p in
        let all : group ++ [] ≡ group = append-nil group in
        (e, [], rw (lt→ltb fd (length group) p, g, all) refl, omega (arith, f), rw all h)
    | no p ↦
        let n = length group in
        let more = new_events (3 * fd / 2 - n) n in
        let zero_n : 0 + n ≡ n = omega arith in
        let both =
          append-Indexed 0 group more h (rw zero_n (new_events-Indexed C (3 * fd / 2 - n) n)) in
        let (e, g, f) =
          get_elem?-Indexed 0 fd (group ++ more) both
            (omega (arith, length-append group more, length-new_events C (3 * fd / 2 - n) n)) in
        (e, more, rw (le→ltb_false fd n (omega arith), g) refl, omega (arith, f), both)
  ]
