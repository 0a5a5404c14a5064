-- ===== src/Log/Rolling.antt =====
-- log.cpp: the change to a next file.
use rpc_framework.Base.{ℕ, ◌+◌, ◌≡◌, refl, List, some, true, false, sym}
use rpc_framework.Base.Int.{ltb_ℤ, pos}
use rpc_framework.Log.Async.{AsyncLogger, Host, log_file_name, roll_over}

-- Where the open file is the one of the logger's number and has become too long, the file that is opened
-- next is the same one again; only the number is counted up.
pub roll_over-reopens :
    (h : Host) (date : List ℕ) (l : AsyncLogger)
    → l.m_file_handler ≡ some (log_file_name h date l.m_no l)
    → h.opens (log_file_name h date l.m_no l) ≡ true
    → ltb_ℤ l.m_max_file_size (pos (h.ftell (log_file_name h date l.m_no l) l.output)) ≡ true
    → (b : AsyncLogger) × (roll_over h date l ≡ some b)
      × (b.m_file_handler ≡ l.m_file_handler)
      × (b.m_no ≡ l.m_no + 1)
unfolding roll_over
roll_over-reopens h date l e o long = (
  record l {
    m_file_handler = some (log_file_name h date l.m_no l);
    m_no = l.m_no + 1;
    m_reopen_flag = false;
  },
  rw (e, long, o) refl,
  sym e,
  refl,
)
