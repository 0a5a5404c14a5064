-- ===== src/Mutex/Scopes.antt =====
-- mutex.h: what a scope does to its mutex.
use rpc_framework.Base.{ℕ, ◌≡◌, ◌≢◌, refl, none, some, false}
use rpc_framework.Mutex
use rpc_framework.Mutex.{Pthread, ScopeMutex}

module _ {M : Type 0} (p : Pthread M) where
  -- A scope that is made on a free mutex and destroyed holds the mutex in between and leaves it free.
  pub make-destroy :
      (thread : ℕ) (m : M)
      → p.owner m ≡ none
      → (s : ScopeMutex) × (m' : M) × (p.owner (Mutex.make p thread m).1 ≡ some thread)
        × (Mutex.destroy p (Mutex.make p thread m).0 (Mutex.make p thread m).1 ≡ some (s, m'))
        × (p.owner m' ≡ none)
  unfolding Mutex.make Mutex.destroy
  make-destroy thread m free =
      let held = p.lock-owner thread m free in
      let (m', e, f) = p.unlock-own thread (p.lock thread m) held in
      (record { thread = thread; m_is_lock = false }, m', held, rw e refl, f)

  -- A scope that is made on a free mutex, and unlocked before its end, is undefined at its end,
  -- whichever mutex state it then finds, unless its thread has locked the mutex again by other means.
  pub make-unlock-destroy :
      (thread : ℕ) (m later : M)
      → p.owner m ≡ none
      → p.owner later ≢ some thread
      → (m' : M) × (Mutex.unlock p (Mutex.make p thread m).0 (Mutex.make p thread m).1 ≡ some m')
        × (p.owner m' ≡ none)
        × (Mutex.lock p (Mutex.make p thread m).0 m' ≡ m')
        × (Mutex.destroy p (Mutex.make p thread m).0 later ≡ none)
  unfolding Mutex.make Mutex.unlock Mutex.lock Mutex.destroy
  make-unlock-destroy thread m later free other =
      let (m', e, f) = p.unlock-own thread (p.lock thread m) (p.lock-owner thread m free) in
      (m', e, f, refl, rw (p.unlock-other thread later other) refl)
