-- ===== src/Log/Startup.antt =====
-- log.cpp: the thread that makes an AsyncLogger, and the thread of the logger, until both are ready. Each step
-- is one call, or what is done between two of them.
use rpc_framework.Base.{
  ℕ, suc, ◌+◌, ◌≡◌, ap, ◌∙◌, ◌⊎◌, inl, inr, refl, Bool, true, false, not, ◌||◌, arith,
}

-- Where the constructor is: before `pthread_create`, before `pthread_cond_init`, in `sem_wait`, behind it.
pub data MakerAt : Type 0 where
  before_create before_cond_init waits_thread made : MakerAt

-- Where the other thread is: not there, before `sem_post`, at the top of `loop`, in `pthread_cond_wait`.
pub data LoopAt : Type 0 where
  not_created entered posted waits_condition : LoopAt

-- `m_condition` tells whether the condition variable is set up, and `waited_early` whether it was waited on
-- before.
pub record AsyncStart : Type 0 where
  pub m_sempahore : ℕ
  pub m_condition : Bool
  pub waited_early : Bool
  pub maker : MakerAt
  pub looper : LoopAt

pub data Step (s : AsyncStart) : AsyncStart → Type 0 where
  creates :
      s.maker ≡ before_create → Step s (record s { maker = before_cond_init; looper = entered })
  sets_up :
      s.maker ≡ before_cond_init → Step s (record s { m_condition = true; maker = waits_thread })
  posts :
      s.looper ≡ entered → Step s (record s { m_sempahore = s.m_sempahore + 1; looper = posted })
  passes :
      (n : ℕ)
      → s.maker ≡ waits_thread
      → s.m_sempahore ≡ suc n
      → Step s (record s { m_sempahore = n; maker = made })
  waits :
      s.looper ≡ posted
      → Step s (record s {
        waited_early = not s.m_condition || s.waited_early;
        looper = waits_condition;
      })

pub data Reach : AsyncStart → Type 0 where
  here : Reach (record {
    m_sempahore = 0;
    m_condition = false;
    waited_early = false;
    maker = before_create;
    looper = not_created;
  })
  next : {s t : AsyncStart} → Reach s → Step s t → Reach t

abbrev is_created : MakerAt → ℕ
is_created before_create = 0
is_created other = 1

abbrev has_condition : MakerAt → Bool
has_condition waits_thread = true
has_condition made = true
has_condition other = false

abbrev is_made : MakerAt → ℕ
is_made made = 1
is_made other = 0

abbrev is_there : LoopAt → ℕ
is_there not_created = 0
is_there other = 1

abbrev pub has_posted : LoopAt → ℕ
has_posted posted = 1
has_posted waits_condition = 1
has_posted other = 0

record IsCounted (s : AsyncStart) : Type 0 where
  created : is_there s.looper ≡ is_created s.maker
  condition : s.m_condition ≡ has_condition s.maker
  semaphore : s.m_sempahore + is_made s.maker ≡ has_posted s.looper

Step-IsCounted : {s t : AsyncStart} → Step s t → IsCounted s → IsCounted t
Step-IsCounted (creates e) c = record {
  created = refl;
  condition = ground (arith, c.condition, e);
  semaphore = ground (arith, c.semaphore, c.created, e);
}
Step-IsCounted (sets_up e) c = record {
  created = ground (arith, c.created, e);
  condition = refl;
  semaphore = ground (arith, c.semaphore, e);
}
Step-IsCounted (posts e) c = record {
  created = ground (arith, c.created, e);
  condition = c.condition;
  semaphore = ground (arith, c.semaphore, e);
}
Step-IsCounted (passes n e f) c = record {
  created = ground (arith, c.created, e);
  condition = ground (arith, c.condition, e);
  semaphore = ground (arith, c.semaphore, e, f);
}
Step-IsCounted (waits e) c = record {
  created = ground (arith, c.created, e);
  condition = c.condition;
  semaphore = ground (arith, c.semaphore, e);
}

Reach-IsCounted : {s : AsyncStart} → Reach s → IsCounted s
Reach-IsCounted here = record { created = refl; condition = refl; semaphore = refl }
Reach-IsCounted (next r step) = Step-IsCounted step (Reach-IsCounted r)

goes_on :
    (m : MakerAt) (l : LoopAt) (s : AsyncStart)
    → IsCounted s
    → s.maker ≡ m
    → s.looper ≡ l
    → (s.maker ≡ made) ⊎ ((t : AsyncStart) × Step s t)
goes_on made l s c e f = inl e
goes_on before_create l s c e f = inr (_, creates e)
goes_on before_cond_init l s c e f = inr (_, sets_up e)
goes_on waits_thread entered s c e f = inr (_, posts f)
goes_on waits_thread not_created s c e f = absurd (ground (arith, c.created, e, f))
goes_on waits_thread posted s c e f = inr (_, passes 0 e (ground (arith, c.semaphore, e, f)))
goes_on waits_thread waits_condition s c e f =
    inr (_, passes 0 e (ground (arith, c.semaphore, e, f)))

-- In every order of the two threads' steps: behind the constructor the condition variable is set up and the logger's
-- thread has begun, and before that one of the threads can go on.
pub Reach-made :
    {s : AsyncStart}
    → Reach s
    → (s.maker ≡ made → (s.m_condition ≡ true) × (has_posted s.looper ≡ 1))
      × ((s.maker ≡ made) ⊎ ((t : AsyncStart) × Step s t))
Reach-made {s} r =
    let c = Reach-IsCounted r in
    (
      λ e. (c.condition ∙ ap has_condition e, ground (arith, c.semaphore, e)),
      goes_on s.maker s.looper s c refl refl,
    )

-- There is an order in which the logger's thread waits on the condition variable before it is set up.
pub Reach-waits_early :
    (s : AsyncStart) × Reach s × (s.waited_early ≡ true) × (s.m_condition ≡ false)
Reach-waits_early =
    (_, next (next (next here (creates refl)) (posts refl)) (waits refl), refl, refl)
