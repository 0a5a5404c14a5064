-- ===== src/Log/Delivery.antt =====
-- log.cpp: every message that is pushed is written once, in order.
use rpc_framework.Base.{
  ℕ, bind-some, ◌≡◌, refl, ap, ◌∙◌, List, [], ◌∷◌, ◌++◌, some, arith, append_assoc, append-nil,
  Option-cases, inl, inr,
}
use rpc_framework.Log.{Logger, push_log, push_app_log, sync_loop, hand_over}
use rpc_framework.Log.Async.{
  AsyncLogger, push_log_buffer, Host, set_date, reopen, roll_over, write_batch, writes_of, turn_on,
  turn,
}

-- The bytes of some messages, of the batches in a queue, and of what was written.
abbrev pub text_of : List (List ℕ) → List ℕ
text_of [] = []
text_of (msg ∷ ms) = msg ++ text_of ms

abbrev pub queued : List (List (List ℕ)) → List ℕ
queued [] = []
queued (batch ∷ buffer) = text_of batch ++ queued buffer

abbrev pub written : List (List ℕ × List ℕ) → List ℕ
written [] = []
written ((file, bytes) ∷ output) = bytes ++ written output

text_of-append : (xs ys : List (List ℕ)) → text_of (xs ++ ys) ≡ text_of xs ++ text_of ys
text_of-append [] ys = refl
text_of-append (x ∷ xs) ys = simp (text_of-append xs ys, append_assoc)

queued-append : (xs ys : List (List (List ℕ))) → queued (xs ++ ys) ≡ queued xs ++ queued ys
queued-append [] ys = refl
queued-append (x ∷ xs) ys = simp (queued-append xs ys, append_assoc)

written-append : (xs ys : List (List ℕ × List ℕ)) → written (xs ++ ys) ≡ written xs ++ written ys
written-append [] ys = refl
written-append ((f, x) ∷ xs) ys = simp (written-append xs ys, append_assoc)

written-writes_of :
    (file : List ℕ) (batch : List (List ℕ)) → written (writes_of file batch) ≡ text_of batch
unfolding writes_of
written-writes_of file [] = refl
written-writes_of file ([] ∷ batch) = written-writes_of file batch
written-writes_of file ((c ∷ msg) ∷ batch) = ap (λ t. c ∷ (msg ++ t)) (written-writes_of file batch)

-- What an asynchronous logger has written and has still to write.
abbrev pub passed_on : AsyncLogger → List ℕ
passed_on a = written a.output ++ queued a.m_buffer

-- Choosing the file writes nothing.
roll_over-keeps :
    (h : Host) (date : List ℕ) (a b : AsyncLogger)
    → roll_over h date (reopen h date (set_date h date a)) ≡ some b
    → (b.output ≡ a.output) × (b.m_buffer ≡ a.m_buffer)
unfolding roll_over reopen set_date
roll_over-keeps h date a b e = ground (arith, e)

write_batch-passes :
    (h : Host) (batch : List (List ℕ)) (a b : AsyncLogger)
    → write_batch h batch a ≡ some b
    → (b.m_buffer ≡ a.m_buffer) × (written b.output ≡ written a.output ++ text_of batch)
unfolding write_batch
write_batch-passes h batch a b e = elim (Option-cases a.m_file_handler) [
  | inl f ↦ ground (arith, e, f, written-writes_of [] batch, append-nil (written a.output))
  | inr (file, f) ↦
      ground
        (arith, e, f, written-append a.output (writes_of file batch), written-writes_of file batch)
]

turn_on-passed_on :
    (h : Host) (date : List ℕ) (q : List (List (List ℕ))) (a b : AsyncLogger)
    → a.m_buffer ≡ q
    → turn_on h date q a ≡ some b
    → passed_on b ≡ passed_on a
unfolding turn_on
turn_on-passed_on h date [] a b f e = ground (arith, e)
turn_on-passed_on h date (batch ∷ buffer) a b f e =
    let (r, g, k) =
      bind-some
        (roll_over h date (reopen h date (set_date h date (record a { m_buffer = buffer })))) _ e in
    let kept = roll_over-keeps h date (record a { m_buffer = buffer }) r g in
    let passed = write_batch-passes h batch r b k in
    simp (passed.0, passed.1, kept.0, kept.1, f, append_assoc)

-- A turn moves bytes from the queue to the files, and does not change what both hold together.
pub turn-passed_on :
    (h : Host) (date : List ℕ) (a b : AsyncLogger)
    → turn h date a ≡ some b
    → passed_on b ≡ passed_on a
unfolding turn
turn-passed_on h date a b e = turn_on-passed_on h date a.m_buffer a b refl e

-- The logger, and all that was pushed for each of its two sides.
pub record System : Type 0 where
  pub logger : Logger
  pub pushed : List (List ℕ)
  pub app_pushed : List (List ℕ)

-- What can happen: a thread logs, the timer calls `syncLoop`, an asynchronous logger's thread takes a turn.
pub data Step (h : Host) (s : System) : System → Type 0 where
  logs :
      (msg : List ℕ)
      → Step h s (record s { logger = push_log msg s.logger; pushed = s.pushed ++ msg ∷ [] })
  app_logs :
      (msg : List ℕ)
      → Step h s
          (record s { logger = push_app_log msg s.logger; app_pushed = s.app_pushed ++ msg ∷ [] })
  syncs : Step h s (record s { logger = sync_loop s.logger })
  turns :
      (date : List ℕ) (a : AsyncLogger)
      → turn h date s.logger.m_asnyc_logger ≡ some a
      → Step h s (record s { logger = record s.logger { m_asnyc_logger = a } })
  app_turns :
      (date : List ℕ) (a : AsyncLogger)
      → turn h date s.logger.m_asnyc_app_logger ≡ some a
      → Step h s (record s { logger = record s.logger { m_asnyc_app_logger = a } })

pub data Reach (h : Host) (s : System) : System → Type 0 where
  here : Reach h s s
  next : {t u : System} → Reach h s t → Step h t u → Reach h s u

-- On each side, what was written, queued and collected is what was pushed.
pub record IsDelivered (s : System) : Type 0 where
  pub rpc : passed_on s.logger.m_asnyc_logger ++ text_of s.logger.m_buffer ≡ text_of s.pushed
  pub app :
      passed_on s.logger.m_asnyc_app_logger ++ text_of s.logger.m_app_buffer ≡ text_of s.app_pushed

pub hand_over-passed_on :
    (ms : List (List ℕ)) (a : AsyncLogger)
    → passed_on (hand_over ms a) ++ [] ≡ passed_on a ++ text_of ms
unfolding push_log_buffer
hand_over-passed_on [] a = refl
hand_over-passed_on (m ∷ ms) a =
    simp (queued-append a.m_buffer ((m ∷ ms) ∷ []), append_assoc, append-nil)

pushed_one :
    (before : List ℕ) (ms ps : List (List ℕ)) (msg : List ℕ)
    → before ++ text_of ms ≡ text_of ps
    → before ++ text_of (ms ++ msg ∷ []) ≡ text_of (ps ++ msg ∷ [])
pushed_one before ms ps msg e =
    simp (text_of-append ms (msg ∷ []), text_of-append ps (msg ∷ []), ← e, append_assoc)

Step-IsDelivered : {h : Host} {s t : System} → Step h s t → IsDelivered s → IsDelivered t
unfolding push_log push_app_log sync_loop
Step-IsDelivered {h} {s} (logs msg) d = record {
  rpc = pushed_one (passed_on s.logger.m_asnyc_logger) s.logger.m_buffer s.pushed msg d.rpc;
  app = d.app;
}
Step-IsDelivered {h} {s} (app_logs msg) d = record {
  rpc = d.rpc;
  app =
      pushed_one (passed_on s.logger.m_asnyc_app_logger) s.logger.m_app_buffer s.app_pushed msg
        d.app;
}
Step-IsDelivered {h} {s} syncs d = record {
  rpc = hand_over-passed_on s.logger.m_buffer s.logger.m_asnyc_logger ∙ d.rpc;
  app = hand_over-passed_on s.logger.m_app_buffer s.logger.m_asnyc_app_logger ∙ d.app;
}
Step-IsDelivered {h} {s} (turns date a e) d = record {
  rpc = rw (turn-passed_on h date s.logger.m_asnyc_logger a e) d.rpc;
  app = d.app;
}
Step-IsDelivered {h} {s} (app_turns date a e) d = record {
  rpc = d.rpc;
  app = rw (turn-passed_on h date s.logger.m_asnyc_app_logger a e) d.app;
}

-- In every reachable state, on each side: the bytes that were written, then those that are queued, then
-- those that the logger has collected, are the bytes of the messages that were pushed. Nothing is lost,
-- nothing comes twice, and the order is kept, across changes of the file.
pub Reach-IsDelivered : {h : Host} {s t : System} → IsDelivered s → Reach h s t → IsDelivered t
Reach-IsDelivered d here = d
Reach-IsDelivered d (next r st) = Step-IsDelivered st (Reach-IsDelivered d r)
