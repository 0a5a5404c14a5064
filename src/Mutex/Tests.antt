-- ===== src/Mutex/Tests.antt =====
-- A mutex that is its holder, and the theorems about scopes applied to it.
use rpc_framework.Base.{ℕ, ◌≡◌, ◌≢◌, refl, Option, none, some, ◌==◌, if◌then◌else◌, arith}
use rpc_framework.Mutex
use rpc_framework.Mutex.{Pthread, ScopeMutex}
use rpc_framework.Mutex.Scopes.{make-unlock-destroy}

abbrev unlock_by : ℕ → Option ℕ → Option (Option ℕ)
unlock_by i none = none
unlock_by i (some j) = if j == i then some none else none

unlock_by-own :
    (i : ℕ) (m : Option ℕ) → m ≡ some i → (m' : Option ℕ) × (unlock_by i m ≡ some m') × (m' ≡ none)
unlock_by-own i m e = (none, ground (arith, e), refl)

unlock_by-other : (i : ℕ) (m : Option ℕ) → m ≢ some i → unlock_by i m ≡ none
unlock_by-other i m e = ground (arith, e)

abbrev holder : Pthread (Option ℕ)
holder = record {
  owner = λ m. m;
  lock = λ i m. some i;
  unlock = unlock_by;
  lock-owner = λ i m e. refl;
  unlock-own = unlock_by-own;
  unlock-other = unlock_by-other;
}

-- Thread 2 has taken the mutex in between.
make-unlock-destroy_example :
    (m : Option ℕ) × (Mutex.unlock holder (Mutex.make holder 1 none).0 (Mutex.make holder 1 none).1
      ≡ some m)
    × (m ≡ none)
    × (Mutex.lock holder (Mutex.make holder 1 none).0 m ≡ m)
    × (Mutex.destroy holder (Mutex.make holder 1 none).0 (some 2) ≡ none)
make-unlock-destroy_example = make-unlock-destroy holder 1 none (some 2) refl (ground arith)
