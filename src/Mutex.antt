-- ===== src/Mutex.antt =====
-- RpcFramework/rocket/common/mutex.h: the scoped lock. The mutex itself is POSIX's, and an argument: a
-- call that it leaves undefined is a fault.
pub mod Scopes
pub mod Tests
use rpc_framework.Base.{
  ℕ, ◌≡◌, ◌≢◌, Option, none, some, ◌>>=◌, Bool, true, false, not, if◌then◌else◌,
}

-- `pthread_mutex_t` of the default kind, for threads with numbers: who holds it, what a thread's `lock`
-- on a free mutex and its `unlock` leave. Of an `unlock` by another than the holder POSIX says nothing.
pub record Pthread (M : Type 0) : Type 0 where
  pub owner : M → Option ℕ
  pub lock : ℕ → M → M
  pub unlock : ℕ → M → Option M
  pub lock-owner : (i : ℕ) (m : M) → owner m ≡ none → owner (lock i m) ≡ some i
  pub unlock-own :
      (i : ℕ) (m : M) → owner m ≡ some i → (m' : M) × (unlock i m ≡ some m') × (owner m' ≡ none)
  pub unlock-other : (i : ℕ) (m : M) → owner m ≢ some i → unlock i m ≡ none

-- The thread that made the scope, and its flag.
pub record ScopeMutex : Type 0 where
  pub thread : ℕ
  pub m_is_lock : Bool

module _ {M : Type 0} (p : Pthread M) where
  -- `ScopeMutex::ScopeMutex`, where the mutex is free.
  unfoldable pub make : ℕ → M → ScopeMutex × M
  make thread m = (record { thread = thread; m_is_lock = true }, p.lock thread m)

  unfoldable pub lock : ScopeMutex → M → M
  lock s m = if not s.m_is_lock then p.lock s.thread m else m

  -- The flag is not changed.
  unfoldable pub unlock : ScopeMutex → M → Option M
  unlock s m = if s.m_is_lock then p.unlock s.thread m else some m

  -- `ScopeMutex::~ScopeMutex`
  unfoldable pub destroy : ScopeMutex → M → Option (ScopeMutex × M)
  destroy s m = do m' ← p.unlock s.thread m; some (record s { m_is_lock = false }, m')
