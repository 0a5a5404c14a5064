-- ===== src/Buffer/Tests.antt =====
-- An input for the buffer, and its theorem applied to it.
use rpc_framework.Base.{◌≡◌, [], ◌∷◌, some, arith}
use rpc_framework.Buffer.{make, CanTake}
use rpc_framework.Buffer.Queue.{writes, reads, run, queue_run, run_refines}

make-CanTake : CanTake 4 (make 2)
unfolding make
make-CanTake = record {
  valid = record { ordered = omega arith; within = omega arith };
  small = omega arith;
}

run_refines_example :
    run (make 2) (writes (1 ∷ 2 ∷ 3 ∷ []) ∷ reads 2 ∷ writes (4 ∷ []) ∷ reads 5 ∷ [])
    ≡ some ((1 ∷ 2 ∷ []) ∷ (3 ∷ 4 ∷ []) ∷ [])
unfolding make queue_run
run_refines_example =
    run_refines (writes (1 ∷ 2 ∷ 3 ∷ []) ∷ reads 2 ∷ writes (4 ∷ []) ∷ reads 5 ∷ []) (make 2)
      make-CanTake
