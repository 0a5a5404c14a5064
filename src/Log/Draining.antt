-- ===== src/Log/Draining.antt =====
-- log.cpp: what is pushed reaches a file.
use rpc_framework.Base.{
  ℕ, ◌+◌, ◌≡◌, refl, ap, sym, ◌∙◌, List, [], ◌∷◌, ◌++◌, some, Bool, true, false, arith, append-nil,
  length, Option-cases, Bool-cases, inl, inr,
}
use rpc_framework.Base.Int.{pos, ltb_ℤ}
use rpc_framework.Log.{Logger, sync_loop, hand_over}
use rpc_framework.Log.Async.{
  AsyncLogger, push_log_buffer, writes_of, Host, log_file_name, set_date, reopen, roll_over,
  write_batch, turn_on, turn, loop,
}
use rpc_framework.Log.Delivery.{
  text_of, written, queued, passed_on, turn-passed_on, hand_over-passed_on,
}

hand_over-going :
    (ms : List (List ℕ)) (a : AsyncLogger)
    → a.m_stop_flag ≡ false
    → (hand_over ms a).m_stop_flag ≡ false
unfolding push_log_buffer
hand_over-going [] a g = g
hand_over-going (m ∷ ms) a g = g

-- A logger whose file is open, with this queue and this flag.
record Runs (q : List (List (List ℕ))) (flag : Bool) (a : AsyncLogger) : Type 0 where
  file : List ℕ
  open_file : a.m_file_handler ≡ some file
  queue : a.m_buffer ≡ q
  going : a.m_stop_flag ≡ flag

module _ (h : Host) (all_open : (name : List ℕ) → h.opens name ≡ true) (date : List ℕ) where
  reopen-Runs :
      (q : List (List (List ℕ))) (flag : Bool) (a : AsyncLogger)
      → a.m_buffer ≡ q
      → a.m_stop_flag ≡ flag
      → Runs q flag (reopen h date a)
  unfolding reopen
  reopen-Runs q flag a e g = elim (Option-cases a.m_file_handler) [
    | inl f ↦ record {
      file = log_file_name h date a.m_no a;
      open_file = ground (arith, f, all_open (log_file_name h date a.m_no a));
      queue = ground (arith, f, e);
      going = ground (arith, f, g);
    }
    | inr (file, f) ↦ elim (Bool-cases a.m_reopen_flag) [
      | inl r ↦ record {
        file = log_file_name h date a.m_no a;
        open_file = ground (arith, f, r, all_open (log_file_name h date a.m_no a));
        queue = ground (arith, f, r, e);
        going = ground (arith, f, r, g);
      }
      | inr r ↦ record {
        file = file;
        open_file = ground (arith, f, r);
        queue = ground (arith, f, r, e);
        going = ground (arith, f, r, g);
      }
    ]
  ]

  roll_over-Runs :
      (q : List (List (List ℕ))) (flag : Bool) (a : AsyncLogger)
      → Runs q flag a
      → (b : AsyncLogger) × (roll_over h date a ≡ some b) × Runs q flag b
  unfolding roll_over
  roll_over-Runs q flag a r =
      elim (Bool-cases (ltb_ℤ a.m_max_file_size (pos (h.ftell r.file a.output)))) [
        | inl long ↦ (
          record a {
            m_file_handler = some (log_file_name h date a.m_no a);
            m_no = a.m_no + 1;
            m_reopen_flag = false;
          },
          rw (r.open_file, long, all_open (log_file_name h date a.m_no a)) refl,
          record {
            file = log_file_name h date a.m_no a;
            open_file = refl;
            queue = r.queue;
            going = r.going;
          },
        )
        | inr short ↦ (a, rw (r.open_file, short) refl, r)
      ]

  set_date-keeps :
      (a : AsyncLogger)
      → ((set_date h date a).m_buffer ≡ a.m_buffer)
        × ((set_date h date a).m_stop_flag ≡ a.m_stop_flag)
  unfolding set_date
  set_date-keeps a = ground arith

  write_batch-open :
      (batch : List (List ℕ)) (file : List ℕ) (a : AsyncLogger)
      → a.m_file_handler ≡ some file
      → write_batch h batch a ≡ some (record a { output = a.output ++ writes_of file batch })
  unfolding write_batch
  write_batch-open batch file a e = ground (arith, e)

  turn_on-goes_on :
      (batch : List (List ℕ)) (q : List (List (List ℕ))) (flag : Bool) (a : AsyncLogger)
      → a.m_stop_flag ≡ flag
      → (b : AsyncLogger) × (turn_on h date (batch ∷ q) a ≡ some b)
        × (b.m_buffer ≡ q)
        × (b.m_stop_flag ≡ flag)
  unfolding turn_on
  turn_on-goes_on batch q flag a g =
      let popped : AsyncLogger = record a { m_buffer = q } in
      let kept = set_date-keeps popped in
      let (b, f, r) =
        roll_over-Runs q flag (reopen h date (set_date h date popped))
          (reopen-Runs q flag (set_date h date popped) kept.0 (kept.1 ∙ g)) in
      (
        record b { output = b.output ++ writes_of r.file batch },
        rw f (write_batch-open batch r.file b r.open_file),
        r.queue,
        r.going,
      )

  -- A turn with a batch writes it, and the queue is one shorter.
  pub turn-goes_on :
      (batch : List (List ℕ)) (q : List (List (List ℕ))) (flag : Bool) (a : AsyncLogger)
      → a.m_buffer ≡ batch ∷ q
      → a.m_stop_flag ≡ flag
      → (b : AsyncLogger) × (turn h date a ≡ some b) × (b.m_buffer ≡ q) × (b.m_stop_flag ≡ flag)
  unfolding turn
  turn-goes_on batch q flag a e g =
      let (b, f, k, g') = turn_on-goes_on batch q flag a g in
      (b, ap (λ z. turn_on h date z a) e ∙ f, k, g')

module _ (h : Host) (all_open : (name : List ℕ) → h.opens name ≡ true) where
  loop-drains :
      (dates : List (List ℕ)) (q : List (List (List ℕ))) (a : AsyncLogger)
      → length dates ≡ length q
      → a.m_buffer ≡ q
      → a.m_stop_flag ≡ false
      → (b : AsyncLogger) × (loop h dates a ≡ some b)
        × (b.m_buffer ≡ [])
        × (passed_on b ≡ passed_on a)
  unfolding loop
  loop-drains [] [] a n e g = (a, refl, e, refl)
  loop-drains [] (batch ∷ q) a n e g = absurd (ground (arith, n))
  loop-drains (date ∷ dates) [] a n e g = absurd (ground (arith, n))
  loop-drains (date ∷ dates) (batch ∷ q) a n e g =
      let (b, f, e', g') = turn-goes_on h all_open date batch q false a e g in
      let (c, k, d, p) = loop-drains dates q b (ground (arith, n)) e' g' in
      (c, rw (f, loop) (simp (e, g', k)), d, p ∙ turn-passed_on h date a b f)

  -- Where files can be opened and the asynchronous logger is not stopped, `syncLoop` and then one turn of
  -- the logger's thread for each batch, on whatever days, write all that was queued or collected,
  -- and leave nothing queued.
  pub sync_loop-written :
      (dates : List (List ℕ)) (l : Logger)
      → l.m_asnyc_logger.m_stop_flag ≡ false
      → length dates ≡ length (sync_loop l).m_asnyc_logger.m_buffer
      → (a : AsyncLogger) × (loop h dates (sync_loop l).m_asnyc_logger ≡ some a)
        × (a.m_buffer ≡ [])
        × (written a.output ≡ passed_on l.m_asnyc_logger ++ text_of l.m_buffer)
  unfolding sync_loop
  sync_loop-written dates l g n =
      let handed = hand_over l.m_buffer l.m_asnyc_logger in
      let (a, f, e, p) =
        loop-drains dates handed.m_buffer handed n refl
          (hand_over-going l.m_buffer l.m_asnyc_logger g) in
      let all : written a.output ≡ passed_on a =
        sym (append-nil (written a.output)) ∙ ap (λ q. written a.output ++ queued q) (sym e) in
      (
        a,
        f,
        e,
        all
            ∙ p
            ∙ sym (append-nil (passed_on handed))
            ∙ hand_over-passed_on l.m_buffer l.m_asnyc_logger,
      )
