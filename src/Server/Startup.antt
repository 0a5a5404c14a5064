-- ===== src/Server/Startup.antt =====
-- io_thread.cpp: the thread that makes an IOThread and starts it, and the new thread in `Main`, with the
-- two semaphores between them. Each step is one call, or what is done between two of them.
use rpc_framework.Base.{ℕ, suc, ◌+◌, ◌≤◌, ◌≡◌, ◌⊎◌, inl, inr, refl, Bool, true, false, arith}

-- Where the one thread is: before `pthread_create`, in `sem_wait`, behind the constructor, behind `start`.
pub data CreatorAt : Type 0 where
  before_create waits_init constructed has_called_start : CreatorAt

-- Where the other is: not there, at the beginning of `Main`, with its loop made, in `sem_wait`, in `loop`.
pub data MainAt : Type 0 where
  not_created entered loop_made waits_start looping : MainAt

pub record IoThreadStart : Type 0 where
  pub m_init_semaphore : ℕ
  pub m_start_semaphore : ℕ
  pub m_event_loop : Bool
  pub creator : CreatorAt
  pub main : MainAt

-- `sem_wait` goes on where the semaphore is not 0, and takes one from it.
pub data Step (s : IoThreadStart) : IoThreadStart → Type 0 where
  creates :
      s.creator ≡ before_create
      → s.main ≡ not_created
      → Step s (record s { creator = waits_init; main = entered })
  makes_loop : s.main ≡ entered → Step s (record s { m_event_loop = true; main = loop_made })
  posts_init :
      s.main ≡ loop_made
      → Step s (record s { m_init_semaphore = s.m_init_semaphore + 1; main = waits_start })
  passes_init :
      (n : ℕ)
      → s.creator ≡ waits_init
      → s.m_init_semaphore ≡ suc n
      → Step s (record s { m_init_semaphore = n; creator = constructed })
  starts :
      s.creator ≡ constructed
      → Step s
          (record s { m_start_semaphore = s.m_start_semaphore + 1; creator = has_called_start })
  passes_start :
      (n : ℕ)
      → s.main ≡ waits_start
      → s.m_start_semaphore ≡ suc n
      → Step s (record s { m_start_semaphore = n; main = looping })

pub data Reach : IoThreadStart → Type 0 where
  here : Reach (record {
    m_init_semaphore = 0;
    m_start_semaphore = 0;
    m_event_loop = false;
    creator = before_create;
    main = not_created;
  })
  next : {s t : IoThreadStart} → Reach s → Step s t → Reach t

-- How often each thread has come past a point: 0 or 1.
abbrev pub is_created : CreatorAt → ℕ
is_created before_create = 0
is_created other = 1

abbrev pub is_constructed : CreatorAt → ℕ
is_constructed before_create = 0
is_constructed waits_init = 0
is_constructed other = 1

abbrev pub is_started : CreatorAt → ℕ
is_started has_called_start = 1
is_started other = 0

abbrev pub is_there : MainAt → ℕ
is_there not_created = 0
is_there other = 1

abbrev pub has_loop : MainAt → ℕ
has_loop not_created = 0
has_loop entered = 0
has_loop other = 1

abbrev pub has_posted : MainAt → ℕ
has_posted waits_start = 1
has_posted looping = 1
has_posted other = 0

abbrev pub is_looping : MainAt → ℕ
is_looping looping = 1
is_looping other = 0

abbrev pub bit : Bool → ℕ
bit false = 0
bit true = 1

-- Each semaphore counts the posts that nobody waited for.
pub record IsCounted (s : IoThreadStart) : Type 0 where
  pub created : is_there s.main ≡ is_created s.creator
  pub loop : bit s.m_event_loop ≡ has_loop s.main
  pub init : s.m_init_semaphore + is_constructed s.creator ≡ has_posted s.main
  pub start : s.m_start_semaphore + is_looping s.main ≡ is_started s.creator

pub Step-IsCounted : {s t : IoThreadStart} → Step s t → IsCounted s → IsCounted t
Step-IsCounted (creates e f) c = record {
  created = refl;
  loop = ground (arith, c.loop, e, f);
  init = ground (arith, c.init, e, f);
  start = ground (arith, c.start, e, f);
}
Step-IsCounted (makes_loop e) c = record {
  created = ground (arith, c.created, e);
  loop = refl;
  init = ground (arith, c.init, e);
  start = ground (arith, c.start, e);
}
Step-IsCounted (posts_init e) c = record {
  created = ground (arith, c.created, e);
  loop = ground (arith, c.loop, e);
  init = ground (arith, c.init, e);
  start = ground (arith, c.start, e);
}
Step-IsCounted (passes_init n e f) c = record {
  created = ground (arith, c.created, e);
  loop = c.loop;
  init = ground (arith, c.init, e, f);
  start = ground (arith, c.start, e);
}
Step-IsCounted (starts e) c = record {
  created = ground (arith, c.created, e);
  loop = c.loop;
  init = ground (arith, c.init, e);
  start = ground (arith, c.start, e);
}
Step-IsCounted (passes_start n e f) c = record {
  created = ground (arith, c.created, e);
  loop = ground (arith, c.loop, e);
  init = ground (arith, c.init, e);
  start = ground (arith, c.start, e, f);
}

pub Reach-IsCounted : {s : IoThreadStart} → Reach s → IsCounted s
Reach-IsCounted here = record { created = refl; loop = refl; init = refl; start = refl }
Reach-IsCounted (next r st) = Step-IsCounted st (Reach-IsCounted r)

main_order : (m : MainAt) → (has_posted m ≤ has_loop m) × (has_loop m ≤ 1)
main_order m = ground arith

creator_order : (c : CreatorAt) → (is_started c ≤ is_constructed c) × (is_constructed c ≤ 1)
creator_order c = ground arith

goes_on :
    (cr : CreatorAt) (m : MainAt) (s : IoThreadStart)
    → IsCounted s
    → s.creator ≡ cr
    → s.main ≡ m
    → (s.main ≡ looping) ⊎ ((t : IoThreadStart) × Step s t)
goes_on before_create not_created s c e f = inr (_, creates e f)
goes_on other not_created s c e f = absurd (ground (arith, c.created, e, f))
goes_on cr entered s c e f = inr (_, makes_loop f)
goes_on cr loop_made s c e f = inr (_, posts_init f)
goes_on cr looping s c e f = inl f
goes_on before_create waits_start s c e f = absurd (ground (arith, c.created, e, f))
goes_on waits_init waits_start s c e f = inr (_, passes_init 0 e (ground (arith, c.init, e, f)))
goes_on constructed waits_start s c e f = inr (_, starts e)
goes_on has_called_start waits_start s c e f =
    inr (_, passes_start 0 f (ground (arith, c.start, e, f)))

-- In every order of the two threads' steps: behind the constructor the thread's loop is there, `loop` runs
-- only behind `start`, the semaphores together are at most 1, and as long as `loop` does not run one of the
-- threads can go on.
pub Reach-starts :
    {s : IoThreadStart}
    → Reach s
    → (is_constructed s.creator ≤ bit s.m_event_loop)
      × (is_looping s.main ≤ is_started s.creator)
      × (s.m_init_semaphore + s.m_start_semaphore ≤ 1)
      × ((s.main ≡ looping) ⊎ ((t : IoThreadStart) × Step s t))
Reach-starts {s} r =
    let c = Reach-IsCounted r in
    let (posted, made) = main_order s.main in
    let (started, one) = creator_order s.creator in
    (
      omega (arith, c.loop, c.init, posted),
      omega (arith, c.start),
      omega (arith, c.init, c.start, posted, made, started, one),
      goes_on s.creator s.main s c refl refl,
    )
