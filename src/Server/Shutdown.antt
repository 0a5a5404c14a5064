-- ===== src/Server/Shutdown.antt =====
-- io_thread.cpp: how an IOThread ends. `Main` behind `loop`, `join` and the destructor are steps next to those of the start.
-- `join` with the destructor behind it joins a thread twice, which POSIX leaves undefined, and is left out. So is what
-- comes behind a `sem_destroy` of the semaphore that `Main` still waits for, or is still to wait for: the destructor is then `undefined`.
pub mod Invariant
pub mod Ending
pub mod Tests
use rpc_framework.Base.{
  if◌then◌else◌, ℕ, ◌≤◌, ◌≡◌, ◌⊎◌, inl, inr, refl, sym, ◌∙◌, Bool, true, false, arith, ◌↔◌,
}
use rpc_framework.Server.Startup.{
  CreatorAt, before_create, constructed, has_called_start, MainAt, not_created, waits_start,
  looping, IoThreadStart, Step, creates, makes_loop, posts_init, passes_init, starts, passes_start,
  is_constructed, is_started, is_looping, bit, IsCounted, Step-IsCounted,
}

-- Where the thread is that keeps the object: in `join` and the destructor it is in `pthread_join`.
pub data KeeperAt : Type 0 where
  uses in_join joined in_destructor destroyed undefined : KeeperAt

-- `m_stop_flag` is the one of the thread's loop. `has_ended` tells that `Main` has returned, and `is_deleted` that the
-- loop is deleted.
pub record IoThreadLife : Type 0 where
  pub startup : IoThreadStart
  pub m_stop_flag : Bool
  pub has_ended : Bool
  pub is_deleted : Bool
  pub keeper : KeeperAt

-- Whether `Main` is past both semaphores.
abbrev pub is_past : MainAt → Bool
is_past looping = true
is_past other = false

-- The destructor up to its `pthread_join`: `stop`, and both semaphores are destroyed.
unfoldable pub destruct : IoThreadLife → IoThreadLife
destruct s = record s {
  m_stop_flag = true;
  keeper = if is_past s.startup.main then in_destructor else undefined;
}

-- The thread that keeps the object is the one that has made it. Another thread may stop the loop, and the keeper, too.
pub data Live (s : IoThreadLife) : IoThreadLife → Type 0 where
  starts_up :
      {u : IoThreadStart}
      → Step s.startup u
      → (s.keeper ≡ uses) ⊎ (u.creator ≡ s.startup.creator)
      → Live s (record s { startup = u })
  stops_loop : s.startup.m_event_loop ≡ true → Live s (record s { m_stop_flag = true })
  ends_loop :
      s.startup.main ≡ looping → s.m_stop_flag ≡ true → Live s (record s { has_ended = true })
  calls_join :
      s.keeper ≡ uses
      → is_constructed s.startup.creator ≡ 1
      → Live s (record s { keeper = in_join })
  passes_join : s.keeper ≡ in_join → s.has_ended ≡ true → Live s (record s { keeper = joined })
  destructs : s.keeper ≡ uses → is_constructed s.startup.creator ≡ 1 → Live s (destruct s)
  passes_destructor :
      s.keeper ≡ in_destructor
      → s.has_ended ≡ true
      → Live s (record s { is_deleted = true; keeper = destroyed })

-- What comes of `s`, by any number of steps.
pub data Lives (s : IoThreadLife) : IoThreadLife → Type 0 where
  stays : Lives s s
  then_one : {t u : IoThreadLife} → Lives s t → Live t u → Lives s u

abbrev pub begin : IoThreadLife
begin = record {
  startup = record {
    m_init_semaphore = 0;
    m_start_semaphore = 0;
    m_event_loop = false;
    creator = before_create;
    main = not_created;
  };
  m_stop_flag = false;
  has_ended = false;
  is_deleted = false;
  keeper = uses;
}

-- The keeper is past a point: 0 or 1.
abbrev pub is_leaving : KeeperAt → ℕ
is_leaving uses = 0
is_leaving other = 1

abbrev pub is_destructing : KeeperAt → ℕ
is_destructing in_destructor = 1
is_destructing destroyed = 1
is_destructing undefined = 1
is_destructing other = 0

abbrev pub is_ending : KeeperAt → ℕ
is_ending in_destructor = 1
is_ending destroyed = 1
is_ending other = 0

abbrev pub is_gone : KeeperAt → ℕ
is_gone destroyed = 1
is_gone other = 0
