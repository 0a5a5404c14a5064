-- ===== src/Buffer/Queue.antt =====
-- tcp_buffer.cpp against what its clients rely on: a queue of bytes, with the vector, its growth and
-- its compaction hidden.
use rpc_framework.Base.{
  ℕ, ◌+◌, ◌≤◌, length, ◌-◌, ◌≡◌, refl, ap, sym, ◌∙◌, List, [], ◌∷◌, ◌++◌, Option, some, ◌>>=◌, zero,
  suc, take, drop, arith,
}
use rpc_framework.Base.Int.{pos}
use rpc_framework.Buffer.{TcpBuffer, IsValid, CanTake, readable, write_to_buffer, read_from_buffer}
use rpc_framework.Buffer.Laws.{write_to_buffer-Written}
use rpc_framework.Buffer.Moves.{read_from_buffer-readable, read_from_buffer-empty}
use native.Mathlib.Decide.{dec_lt}

-- A client's calls: `writeToBuffer` of some bytes, or `readFromBuffer` of at most so many bytes into
-- an empty vector.
pub data Op : Type 0 where
  writes : List ℕ → Op
  reads : ℕ → Op

-- The bytes that each read of a client returns.
unfoldable pub run : TcpBuffer → List Op → Option (List (List ℕ))
run b [] = some []
run b (writes xs ∷ ops) = write_to_buffer xs b >>= λ c. run c ops
run b (reads n ∷ ops) = do r ← read_from_buffer [] (pos n) b; outs ← run r.1 ops; some (r.0 ∷ outs)

-- A queue of bytes: writes go to the end, reads take from the front.
unfoldable pub queue_run : List ℕ → List Op → List (List ℕ)
queue_run q [] = []
queue_run q (writes xs ∷ ops) = queue_run (q ++ xs) ops
queue_run q (reads n ∷ ops) = take n q ∷ queue_run (drop n q) ops

-- What one read does, on both of its branches.
read_lem :
    (n : ℕ) (b : TcpBuffer)
    → IsValid b
    → (c : TcpBuffer) × (read_from_buffer [] (pos n) b ≡ some (take n (readable b), c))
      × IsValid c
      × (readable c ≡ drop n (readable b))
      × (c.m_write_index ≤ b.m_write_index)
read_lem n b v = elim (dec_lt b.m_read_index b.m_write_index) [
  | yes h ↦ read_from_buffer-readable [] n b v h
  | no h ↦
      let e : b.m_write_index - b.m_read_index ≡ 0 = omega arith in
      let eq : b.m_write_index ≡ b.m_read_index = omega (arith, v.ordered) in
      (
        b,
        rw e (read_from_buffer-empty [] (pos n) b eq ∙ ap (λ l. some (l, b)) (sym (take-[] n))),
        v,
        rw e (sym (drop-[] n)),
        omega arith,
      )
]
  where
    take-[] : (k : ℕ) → take {A = ℕ} k [] ≡ []
    take-[] zero = refl
    take-[] (suc k) = refl

    drop-[] : (k : ℕ) → drop {A = ℕ} k [] ≡ []
    drop-[] zero = refl
    drop-[] (suc k) = refl

-- How many bytes a client writes.
abbrev pub written : List Op → ℕ
written [] = 0
written (writes xs ∷ ops) = length xs + written ops
written (reads n ∷ ops) = written ops

-- On a valid buffer whose write index and all the bytes written are together at most `write_limit` (about 1.43 GB),
-- no sequence of writes and reads faults, and it reads what the queue of the unread bytes would.
pub run_refines :
    (ops : List Op) (b : TcpBuffer)
    → CanTake (written ops) b
    → run b ops ≡ some (queue_run (readable b) ops)
unfolding run queue_run
run_refines [] b t = refl
run_refines (writes xs ∷ ops) b t =
    let w =
      write_to_buffer-Written xs b (record { valid = t.valid; small = omega (arith, t.small) }) in
    rw (w.returns, ← w.bytes)
      (run_refines ops w.result
        (record { valid = w.valid; small = omega (arith, t.small, w.bounded) }))
run_refines (reads n ∷ ops) b t =
    let (c, e, w, r, k) = read_lem n b t.valid in
    rw (e, run_refines ops c (record { valid = w; small = omega (arith, t.small, k) }))
      (ap (λ q. some (take n (readable b) ∷ queue_run q ops)) r)
