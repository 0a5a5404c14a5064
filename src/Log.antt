-- ===== src/Log.antt =====
-- RpcFramework/rocket/common/log.h and log.cpp: the levels, the macros' tests, and the logger that collects
-- messages and hands them to its two asynchronous loggers. Messages are texts. Each section under a mutex
-- is one step.
pub mod Async
pub mod Delivery
pub mod Draining
pub mod Stopping
pub mod Levels
pub mod Making
pub mod Startup
pub mod Rolling
pub mod Tests
use rpc_framework.Base.{
  ℕ, ◌+◌, List, [], ◌∷◌, ◌++◌, Option, none, some, ◌>>=◌, Bool, true, false, not, leb,
  if◌then◌else◌, codes, text_eq, length, ◌==◌,
}
use rpc_framework.Log.Async.{AsyncLogger, push_log_buffer}

pub data LogLevel : Type 0 where
  unknown debug info error : LogLevel

-- The enumeration's numbers.
unfoldable pub rank : LogLevel → ℕ
rank unknown = 0
rank debug = 1
rank info = 2
rank error = 3

unfoldable pub log_level_to_string : LogLevel → List ℕ
log_level_to_string debug = codes "DEBUG"
log_level_to_string info = codes "Info"
log_level_to_string error = codes "Error"
log_level_to_string unknown = codes "UNKNOWN"

unfoldable pub string_to_log_level : List ℕ → LogLevel
string_to_log_level log_level =
    if text_eq log_level (codes "DEBUG")
    then debug
    else if text_eq log_level (codes "INFO")
    then info
    else if text_eq log_level (codes "ERROR")
    then error
    else unknown

-- The tests of `DEBUGLOG`, `INFOLOG` and `ERRORLOG`: whether a logger of this level takes the message.
unfoldable pub takes_debug : LogLevel → Bool
unfolding rank
takes_debug level = leb (rank level) (rank debug)

unfoldable pub takes_info : LogLevel → Bool
unfolding rank
takes_info level = leb (rank level) (rank info)

unfoldable pub takes_error : LogLevel → Bool
unfolding rank
takes_error level = leb (rank level) (rank debug)

-- `printed` is what goes to the standard output.
pub record Logger : Type 0 where
  pub m_set_level : LogLevel
  pub m_buffer : List (List ℕ)
  pub m_app_buffer : List (List ℕ)
  pub m_asnyc_logger : AsyncLogger
  pub m_asnyc_app_logger : AsyncLogger
  pub m_type : ℕ
  pub printed : List (List ℕ)

-- With type 0 a message is printed, and kept as well.
unfoldable pub push_log : List ℕ → Logger → Logger
push_log msg l =
    let shown = if l.m_type == 0 then l.printed ++ (msg ++ 10 ∷ []) ∷ [] else l.printed in
    record l { m_buffer = l.m_buffer ++ msg ∷ []; printed = shown }

unfoldable pub push_app_log : List ℕ → Logger → Logger
push_app_log msg l = record l { m_app_buffer = l.m_app_buffer ++ msg ∷ [] }

-- Hands over what was collected, unless that is nothing.
abbrev pub hand_over : List (List ℕ) → AsyncLogger → AsyncLogger
hand_over [] a = a
hand_over (m ∷ ms) a = push_log_buffer (m ∷ ms) a

unfoldable pub sync_loop : Logger → Logger
unfolding push_log_buffer
sync_loop l = record l {
  m_buffer = [];
  m_app_buffer = [];
  m_asnyc_logger = hand_over l.m_buffer l.m_asnyc_logger;
  m_asnyc_app_logger = hand_over l.m_app_buffer l.m_asnyc_app_logger;
}

unfoldable pub bracketed : List ℕ → List ℕ
bracketed text = b'[' ∷ (text ++ (b']' ∷ 9 ∷ []))

unfoldable pub optional : List ℕ → List ℕ
unfolding bracketed
optional [] = []
optional (c ∷ text) = bracketed (c ∷ text)

-- What the texts of a message are made of: the time, the numbers of the process and the thread, and the
-- current `RunTime`.
pub record LogEvent : Type 0 where
  pub time_str : List ℕ
  pub ids : List ℕ
  pub msgid : List ℕ
  pub method_name : List ℕ

unfoldable pub to_string : LogLevel → LogEvent → List ℕ
unfolding log_level_to_string bracketed optional
to_string level e =
    bracketed (log_level_to_string level)
    ++ (bracketed e.time_str ++ (bracketed e.ids ++ (optional e.msgid ++ optional e.method_name)))

-- The message that a macro pushes, with its place, file and line, and its formatted text.
unfoldable pub message : LogLevel → LogEvent → List ℕ → List ℕ → List ℕ
unfolding to_string bracketed
message level e place text = to_string level e ++ (bracketed place ++ (text ++ 10 ∷ []))

-- `DEBUGLOG`, `INFOLOG` and `ERRORLOG`, and those of the application.
module _ (e : LogEvent) (place text : List ℕ) where
  unfoldable pub debug_log : Logger → Logger
  debug_log l = if takes_debug l.m_set_level then push_log (message debug e place text) l else l

  unfoldable pub info_log : Logger → Logger
  info_log l = if takes_info l.m_set_level then push_log (message info e place text) l else l

  unfoldable pub error_log : Logger → Logger
  error_log l = if takes_error l.m_set_level then push_log (message error e place text) l else l

  unfoldable pub app_debug_log : Logger → Logger
  app_debug_log l =
      if takes_debug l.m_set_level then push_app_log (message debug e place text) l else l

  unfoldable pub app_info_log : Logger → Logger
  app_info_log l =
      if takes_info l.m_set_level then push_app_log (message info e place text) l else l

  unfoldable pub app_error_log : Logger → Logger
  app_error_log l =
      if takes_error l.m_set_level then push_app_log (message error e place text) l else l
