-- ===== src/Log/Async.antt =====
-- RpcFramework/rocket/common/log.cpp: the asynchronous logger and its thread. The date, the printing of
-- numbers, the success of `fopen` and what `ftell` says are arguments. A null stream given to `ftell`
-- is a fault.
use rpc_framework.Base.{
  ℕ, ◌+◌, List, [], ◌∷◌, ◌++◌, Option, none, some, ◌>>=◌, Bool, true, false, if◌then◌else◌, codes,
  text_eq,
}
use rpc_framework.Base.Int.{ℤ, pos, ltb_ℤ}

-- `m_file_handler` is the name of the open file. `output` has each `fwrite`, with its file.
pub record AsyncLogger : Type 0 where
  pub m_buffer : List (List (List ℕ))
  pub m_file_name : List ℕ
  pub m_file_path : List ℕ
  pub m_max_file_size : ℤ
  pub m_date : List ℕ
  pub m_file_handler : Option (List ℕ)
  pub m_reopen_flag : Bool
  pub m_no : ℕ
  pub m_stop_flag : Bool
  pub output : List (List ℕ × List ℕ)

-- The constructor's fields; its thread starts in `loop`.
unfoldable pub make : List ℕ → List ℕ → ℤ → AsyncLogger
make file_name file_path max_size = record {
  m_buffer = [];
  m_file_name = file_name;
  m_file_path = file_path;
  m_max_file_size = max_size;
  m_date = [];
  m_file_handler = none;
  m_reopen_flag = false;
  m_no = 0;
  m_stop_flag = false;
  output = [];
}

unfoldable pub push_log_buffer : List (List ℕ) → AsyncLogger → AsyncLogger
push_log_buffer vec l = record l { m_buffer = l.m_buffer ++ vec ∷ [] }

unfoldable pub stop : AsyncLogger → AsyncLogger
stop l = record l { m_stop_flag = true }

-- The writes of one batch; an empty message is skipped.
unfoldable pub writes_of : List ℕ → List (List ℕ) → List (List ℕ × List ℕ)
writes_of file [] = []
writes_of file ([] ∷ batch) = writes_of file batch
writes_of file ((c ∷ msg) ∷ batch) = (file, c ∷ msg) ∷ writes_of file batch

-- What the environment says: `std::to_string`, whether a file opens, and the position in the open file.
pub record Host : Type 0 where
  pub decimal : ℕ → List ℕ
  pub opens : List ℕ → Bool
  pub ftell : List ℕ → List (List ℕ × List ℕ) → ℕ

module _ (h : Host) where
  abbrev pub fopen : List ℕ → Option (List ℕ)
  fopen name = if h.opens name then some name else none

  -- `m_file_path` `m_file_name` `_` date `_log.` number
  unfoldable pub log_file_name : List ℕ → ℕ → AsyncLogger → List ℕ
  log_file_name date number l =
      l.m_file_path ++ (l.m_file_name ++ (b'_' ∷ (date ++ (codes "_log." ++ h.decimal number))))

  -- A new day starts at number 0.
  unfoldable pub set_date : List ℕ → AsyncLogger → AsyncLogger
  set_date date l =
      if text_eq date l.m_date
      then l
      else record l { m_no = 0; m_reopen_flag = true; m_date = date }

  -- The file that is open when the flag has been looked at.
  unfoldable pub reopen : List ℕ → AsyncLogger → AsyncLogger
  unfolding log_file_name
  reopen date l = elim l.m_file_handler [
    | none ↦ record l {
      m_file_handler = fopen (log_file_name date l.m_no l);
      m_reopen_flag = false;
    }
    | some file ↦
        if l.m_reopen_flag
        then record l {
          m_file_handler = fopen (log_file_name date l.m_no l);
          m_reopen_flag = false;
        }
        else l
  ]

  -- The next file where this one is too long: the number in its name is taken before it is counted up.
  unfoldable pub roll_over : List ℕ → AsyncLogger → Option AsyncLogger
  unfolding log_file_name
  roll_over date l = do
    file ← l.m_file_handler
    if ltb_ℤ l.m_max_file_size (pos (h.ftell file l.output))
        then some (record l {
          m_file_handler = fopen (log_file_name date l.m_no l);
          m_no = l.m_no + 1;
          m_reopen_flag = false;
        })
        else some l

  -- `fwrite` wants a stream.
  unfoldable pub write_batch : List (List ℕ) → AsyncLogger → Option AsyncLogger
  unfolding writes_of
  write_batch batch l = elim l.m_file_handler [
    | some file ↦ some (record l { output = l.output ++ writes_of file batch })
    | none ↦ elim (writes_of [] batch) [ [] ↦ some l | w ∷ ws ↦ none ]
  ]

  -- One turn of `loop` on a day, with the queue that it finds: it waits where there is no batch.
  unfoldable pub turn_on : List ℕ → List (List (List ℕ)) → AsyncLogger → Option AsyncLogger
  unfolding set_date reopen roll_over write_batch
  turn_on date [] l = some l
  turn_on date (temp ∷ buffer) l = do
    rolled ← roll_over date (reopen date (set_date date (record l { m_buffer = buffer })))
    write_batch temp rolled

  unfoldable pub turn : List ℕ → AsyncLogger → Option AsyncLogger
  unfolding turn_on
  turn date l = turn_on date l.m_buffer l

  -- `loop` over the days of its turns. The flag is looked at behind each turn that wrote.
  unfoldable pub loop : List (List ℕ) → AsyncLogger → Option AsyncLogger
  unfolding turn
  loop [] l = some l
  loop (date ∷ dates) l = do
    next ← turn date l
    let rest = loop dates next
    elim l.m_buffer [ [] ↦ rest | temp ∷ buffer ↦ if next.m_stop_flag then some next else rest ]
