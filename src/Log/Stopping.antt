-- ===== src/Log/Stopping.antt =====
-- log.cpp: what `stop` does to the thread of an asynchronous logger.
use rpc_framework.Base.{ℕ, ◌≡◌, refl, List, [], ◌∷◌, some, true, drop}
use rpc_framework.Log.Async.{AsyncLogger, stop, Host, loop}
use rpc_framework.Log.Delivery.{passed_on, turn-passed_on}
use rpc_framework.Log.Draining.{turn-goes_on}

module _ (h : Host) where
  -- With an empty queue the thread does not look at the flag.
  loop-waits : (dates : List (List ℕ)) (a : AsyncLogger) → a.m_buffer ≡ [] → loop h dates a ≡ some a
  unfolding loop
  loop-waits [] a e = refl
  loop-waits (date ∷ dates) a e = simp (e, loop-waits dates a e)

  loop-stops_by :
      ((name : List ℕ) → h.opens name ≡ true)
      → (q : List (List (List ℕ))) (date : List ℕ) (dates : List (List ℕ)) (a : AsyncLogger)
      → a.m_buffer ≡ q
      → a.m_stop_flag ≡ true
      → (b : AsyncLogger) × (loop h (date ∷ dates) a ≡ some b)
        × (b.m_buffer ≡ drop 1 q)
        × (passed_on b ≡ passed_on a)
  unfolding loop
  loop-stops_by all_open [] date dates a e g = (a, loop-waits (date ∷ dates) a e, e, refl)
  loop-stops_by all_open (batch ∷ q) date dates a e g =
      let (b, f, k, g') = turn-goes_on h all_open date batch q true a e g in
      (b, rw f (simp (e, g')), k, turn-passed_on h date a b f)

  -- Where files can be opened, the thread of a logger that was stopped writes the first batch of its queue, if there is one, and no
  -- more, however many turns it is given: the other batches stay in the queue. What was written and what is
  -- queued are together what they were.
  pub loop-stops :
      ((name : List ℕ) → h.opens name ≡ true)
      → (date : List ℕ) (dates : List (List ℕ)) (a : AsyncLogger)
      → (b : AsyncLogger) × (loop h (date ∷ dates) (stop a) ≡ some b)
        × (b.m_buffer ≡ drop 1 a.m_buffer)
        × (passed_on b ≡ passed_on a)
  unfolding stop
  loop-stops all_open date dates a = loop-stops_by all_open a.m_buffer date dates (stop a) refl refl
