-- ===== src/Threads.antt =====
-- RpcFramework/rocket/net/io_thread_group.h and io_thread_group.cpp: which I/O thread gets the next
-- connection. Only the main thread asks.
use native.Mathlib.Decide.{ℕ_discrete}
use native.Mathlib.Nat.{mod-add-mod, mod-eq_of_lt, mod-lt, mod_self}
use rpc_framework.Base.Int.{ℤ, pos, negsuc}
use rpc_framework.Base.{
  ==_iff, ==_false, ◌≢◌, get_elem?-lt, ℕ, zero, suc, ◌+◌, ◌%◌, ◌<◌, ◌≡◌, refl, ap, sym, ◌∙◌, List,
  [], ◌∷◌, Option, none, some, ◌>>=◌, arith, length, get_elem?, ◌==◌, if◌then◌else◌,
}

-- The threads are named by their indices' entries. `m_index` is never -1.
pub record IoThreadGroup : Type 0 where
  pub m_io_thread_groups : List ℕ
  pub m_index : ℕ

-- The numbers of `n` threads from `i` on.
abbrev pub threads_from : ℕ → ℕ → List ℕ
threads_from zero i = []
threads_from (suc n) i = i ∷ threads_from n (i + 1)

-- The constructor, with a thread for each place. `resize` fails for a negative size.
unfoldable pub make : ℤ → Option IoThreadGroup
make (negsuc n) = none
make (pos size) = some (record { m_io_thread_groups = threads_from size 0; m_index = 0 })

abbrev pub wrapped : IoThreadGroup → ℕ
wrapped g = if g.m_index == length g.m_io_thread_groups then 0 else g.m_index

-- `getIOThread`; none is an access outside the vector.
unfoldable pub get_io_thread : IoThreadGroup → Option (ℕ × IoThreadGroup)
get_io_thread g = do
  thread ← get_elem? g.m_io_thread_groups (wrapped g)
  some (thread, record g { m_index = wrapped g + 1 })

-- The threads that the next `k` calls return.
unfoldable pub next_threads : ℕ → IoThreadGroup → Option (List ℕ)
next_threads zero g = some []
next_threads (suc k) g = do r ← get_io_thread g; rest ← next_threads k r.1; some (r.0 ∷ rest)

-- The entries from `i` on, going round.
abbrev pub round_robin : List ℕ → ℕ → ℕ → Option (List ℕ)
round_robin threads zero i = some []
round_robin threads (suc k) i = do
  thread ← get_elem? threads (i % length threads)
  rest ← round_robin threads k (i + 1)
  some (thread ∷ rest)

turn-mod : (n i : ℕ) → 0 < n → (if i % n + 1 == n then 0 else i % n + 1) ≡ (i + 1) % n
turn-mod n i h = elim (ℕ_discrete (i % n + 1) n) [
  | yes e ↦
      rw ((==_iff (i % n + 1) n).1 e)
        (sym (sym (mod-add-mod i n 1) ∙ ap (λ k. k % n) e ∙ mod_self n))
  | no e ↦
      rw (==_false (i % n + 1) n e)
        (sym (sym (mod-add-mod i n 1) ∙ mod-eq_of_lt (below (mod-lt i h) e)))
]
  where
    below : {x m : ℕ} → x < m → x + 1 ≢ m → x + 1 < m
    below p q = omega arith

-- However many connections come, the threads of a group that has some get them in turn: from a
-- group whose next thread is number `i` modulo their number, the call after `k` others returns
-- thread `i + k` modulo it, and no call leaves the vector.
pub next_threads-round_robin :
    (k i : ℕ) (g : IoThreadGroup)
    → 0 < length g.m_io_thread_groups
    → wrapped g ≡ i % length g.m_io_thread_groups
    → (threads : List ℕ) × (next_threads k g ≡ some threads)
      × (round_robin g.m_io_thread_groups k i ≡ some threads)
unfolding next_threads get_io_thread
next_threads-round_robin zero i g h e = ([], refl, refl)
next_threads-round_robin (suc k) i g h e =
    let n = length g.m_io_thread_groups in
    let (t, f) = get_elem?-lt g.m_io_thread_groups (i % n) (mod-lt i h) in
    let next = record g { m_index = i % n + 1 } in
    let (ts, p, q) = next_threads-round_robin k (i + 1) next h (turn-mod n i h) in
    (t ∷ ts, rw (e, f, p) refl, rw (f, q) refl)
