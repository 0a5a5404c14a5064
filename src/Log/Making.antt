-- ===== src/Log/Making.antt =====
-- log.cpp: the logger that `InitGlobalLogger` makes from the configuration.
pub mod Tests
use rpc_framework.Base.{
  ℕ, ◌+◌, ◌≡◌, ◌≢◌, refl, ap, sym, ◌∙◌, List, [], ◌∷◌, ◌++◌, Option, none, some, ◌>>=◌, Bool, true,
  false, if◌then◌else◌, codes, ◌==◌, text_eq, text_eq_ne, Bool-cases, ◌⊎◌, inl, inr, ==_false,
}
use rpc_framework.Base.Int.{ℤ, pos, index}
use rpc_framework.Config.{Config}
use rpc_framework.Log.{
  LogLevel, unknown, debug, info, error, rank, Logger, LogEvent, message, string_to_log_level,
  takes_debug, takes_info, takes_error, debug_log, info_log, error_log, push_log,
}
use rpc_framework.Log.Async
use rpc_framework.Timer.{Timer, new_timer_event, add_timer_event, update}

-- `Logger::Logger` for a type other than 0. A logger of the type 0 has null for both asynchronous loggers: none.
unfoldable pub make : Config → LogLevel → ℕ → Option Logger
unfolding Async.make
make config level type =
    let files : List ℕ → Async.AsyncLogger = λ suffix.
      Async.make (config.m_log_file_name ++ suffix) config.m_log_file_path
        config.m_log_max_file_size in
    if type == 0
    then none
    else some (record {
      m_set_level = level;
      m_buffer = [];
      m_app_buffer = [];
      m_asnyc_logger = files (codes "_rpc");
      m_asnyc_app_logger = files (codes "_app");
      m_type = type;
      printed = [];
    })

module _ {C : Type 0} (sync_loop : C) where
  -- `Logger::init` at time `now`, with the identity of the event that it makes, on the timer of the current loop. A
  -- negative interval is none.
  unfoldable pub init : Config → ℕ → ℕ → Logger → Timer C → Option (Timer C)
  unfolding new_timer_event add_timer_event
  init config now id l t = if l.m_type == 0 then some t else do
    interval ← index config.m_log_sync_inteval
    let event = new_timer_event now interval true (some sync_loop)
    some (add_timer_event now id (record t { events = update t.events id event }))

  -- `InitGlobalLogger`, for a type other than 0.
  unfoldable pub init_global_logger : Config → ℕ → ℕ → ℕ → Timer C → Option (Logger × Timer C)
  unfolding make init string_to_log_level
  init_global_logger config type now id t = do
    g_logger ← make config (string_to_log_level config.m_log_level) type
    timer ← init config now id g_logger t
    some (g_logger, timer)

-- Any other level than these takes all messages.
level-others :
    (text : List ℕ)
    → text ≢ codes "INFO"
    → text ≢ codes "ERROR"
    → (string_to_log_level text ≡ debug) ⊎ (string_to_log_level text ≡ unknown)
unfolding string_to_log_level
level-others text i e = elim (Bool-cases (text_eq text (codes "DEBUG"))) [
  | inl y ↦ inl (rw y refl)
  | inr n ↦ inr (rw (n, text_eq_ne text (codes "INFO") i, text_eq_ne text (codes "ERROR") e) refl)
]

-- What the macros do to a logger with a level.
abbrev pub Takes : Bool → Bool → Bool → LogEvent → List ℕ → List ℕ → Logger → Type 0
Takes d i r e place text l =
    (debug_log e place text l ≡ (if d then push_log (message debug e place text) l else l))
    × (info_log e place text l ≡ (if i then push_log (message info e place text) l else l))
    × (error_log e place text l ≡ (if r then push_log (message error e place text) l else l))

Takes-lem :
    (level : LogLevel) (e : LogEvent) (place text : List ℕ) (l : Logger)
    → l.m_set_level ≡ level
    → Takes (takes_debug level) (takes_info level) (takes_error level) e place text l
unfolding debug_log info_log error_log
Takes-lem level e place text l h = (rw h refl, rw h refl, rw h refl)

-- `InitGlobalLogger` with a type other than 0 and an interval that is not negative makes a logger. Where the configured
-- level is "ERROR", its macros drop every message; where it is "INFO", they drop debug messages and
-- errors; for every other text they keep all messages.
pub init_global_logger-Takes :
    {C : Type 0} (sync_loop : C) (config : Config) (type interval now id : ℕ) (t : Timer C)
    (e : LogEvent) (place text : List ℕ)
    → type ≢ 0
    → config.m_log_sync_inteval ≡ pos interval
    → (l : Logger) × (timer : Timer C) × (init_global_logger sync_loop config type now id t
        ≡ some (l, timer))
      × (config.m_log_level ≡ codes "ERROR" → Takes false false false e place text l)
      × (config.m_log_level ≡ codes "INFO" → Takes false true false e place text l)
      × (config.m_log_level ≢ codes "INFO"
          → config.m_log_level ≢ codes "ERROR"
          → Takes true true true e place text l)
unfolding init_global_logger make init Async.make string_to_log_level text_eq takes_debug takes_info
    takes_error rank
init_global_logger-Takes sync_loop config type interval now id t e place text n h =
    let level = string_to_log_level config.m_log_level in
    let l : Logger = record {
      m_set_level = level;
      m_buffer = [];
      m_app_buffer = [];
      m_asnyc_logger =
          Async.make (config.m_log_file_name ++ codes "_rpc") config.m_log_file_path
            config.m_log_max_file_size;
      m_asnyc_app_logger =
          Async.make (config.m_log_file_name ++ codes "_app") config.m_log_file_path
            config.m_log_max_file_size;
      m_type = type;
      printed = [];
    } in
    let event = new_timer_event now interval true (some sync_loop) in
    let timer = add_timer_event now id (record t { events = update t.events id event }) in
    let made : make config level type ≡ some l = rw (==_false type 0 n, make) refl in
    let armed : init sync_loop config now id l t ≡ some timer =
      rw (==_false type 0 n, h, init) refl in
    (
      l,
      timer,
      rw (made, init_global_logger, armed) refl,
      λ q. Takes-lem error e place text l (ap string_to_log_level q),
      λ q. Takes-lem info e place text l (ap string_to_log_level q),
      λ p q. elim (level-others config.m_log_level p q) [
        | inl d ↦ Takes-lem debug e place text l d
        | inr u ↦ Takes-lem unknown e place text l u
      ],
    )
