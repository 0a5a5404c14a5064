-- ===== src/Log/Tests.antt =====
-- A logger that has collected messages, and the theorems about logging applied to it.
use rpc_framework.Base.{◌≡◌, refl, [], ◌∷◌, none, some, true, false, length, replicate, codes}
use rpc_framework.Base.Int.{pos}
use rpc_framework.Log.{Logger, info, push_log, push_app_log, sync_loop}
use rpc_framework.Log.Async.{AsyncLogger, push_log_buffer, stop, Host, loop}
use rpc_framework.Log.Delivery.{
  passed_on, written, System, logs, app_logs, syncs, Reach, here, next, IsDelivered,
  Reach-IsDelivered,
}
use rpc_framework.Log.Draining.{sync_loop-written}
use rpc_framework.Log.Stopping.{loop-stops}

-- Numbers are written in unary, every file opens, and positions are the lengths of what was written.
abbrev host : Host
host = record {
  decimal = λ n. replicate n 49;
  opens = λ name. true;
  ftell = λ name output. length output;
}

abbrev fresh : AsyncLogger
fresh = record {
  m_buffer = [];
  m_file_name = codes "rpc";
  m_file_path = codes "/";
  m_max_file_size = pos 1;
  m_date = [];
  m_file_handler = none;
  m_reopen_flag = false;
  m_no = 0;
  m_stop_flag = false;
  output = [];
}

abbrev logger : Logger
logger = record {
  m_set_level = info;
  m_buffer = [];
  m_app_buffer = [];
  m_asnyc_logger = fresh;
  m_asnyc_app_logger = fresh;
  m_type = 1;
  printed = [];
}

abbrev started : System
started = record { logger = logger; pushed = []; app_pushed = [] }

started-IsDelivered : IsDelivered started
started-IsDelivered = record { rpc = refl; app = refl }

abbrev synced : System
synced = record {
  logger = sync_loop (push_app_log (2 ∷ []) (push_log (1 ∷ []) logger));
  pushed = (1 ∷ []) ∷ [];
  app_pushed = (2 ∷ []) ∷ [];
}

synced-Reach : Reach host started synced
synced-Reach = next (next (next here (logs (1 ∷ []))) (app_logs (2 ∷ []))) syncs

Reach-IsDelivered_example : IsDelivered synced
Reach-IsDelivered_example = Reach-IsDelivered started-IsDelivered synced-Reach

abbrev collected : Logger
collected = record logger {
  m_buffer = (1 ∷ 2 ∷ []) ∷ (3 ∷ []) ∷ [];
  m_asnyc_logger = record fresh { m_buffer = ((9 ∷ []) ∷ []) ∷ [] };
}

sync_loop-written_example :
    (a : AsyncLogger) × (loop host (codes "a" ∷ codes "b" ∷ []) (sync_loop collected).m_asnyc_logger
      ≡ some a)
    × (a.m_buffer ≡ [])
    × (written a.output ≡ 9 ∷ 1 ∷ 2 ∷ 3 ∷ [])
unfolding sync_loop push_log_buffer
sync_loop-written_example =
    sync_loop-written host (λ name. refl) (codes "a" ∷ codes "b" ∷ []) collected refl refl

abbrev two_batches : AsyncLogger
two_batches = record fresh { m_buffer = ((9 ∷ []) ∷ []) ∷ ((8 ∷ []) ∷ []) ∷ [] }

loop-stops_example :
    (a : AsyncLogger) × (loop host (codes "a" ∷ codes "b" ∷ []) (stop two_batches) ≡ some a)
    × (a.m_buffer ≡ ((8 ∷ []) ∷ []) ∷ [])
    × (passed_on a ≡ 9 ∷ 8 ∷ [])
loop-stops_example = loop-stops host (λ name. refl) (codes "a") (codes "b" ∷ []) two_batches
