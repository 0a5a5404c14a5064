-- ===== src/Log/Making/Tests.antt =====
-- A configuration and the start of a logger, and the theorems about them applied to these.
use rpc_framework.Base.{ℕ, ◌≡◌, ◌≢◌, refl, [], none, some, true, false, arith, codes}
use rpc_framework.Base.Int.{pos}
use rpc_framework.Config.{Config, default_config}
use rpc_framework.Log.{Logger, LogEvent}
use rpc_framework.Log.Making.{init_global_logger, Takes, init_global_logger-Takes}
use rpc_framework.Timer.{Timer, new_timer_event}

abbrev errors_only : Config
errors_only = record default_config { m_log_level = codes "ERROR"; m_log_sync_inteval = pos 500 }

abbrev timer : Timer ℕ
timer = record {
  events = λ id. new_timer_event 0 10 false none;
  m_pending_events = [];
  armed = none;
}

abbrev event : LogEvent
event = record { time_str = []; ids = []; msgid = []; method_name = [] }

init_global_logger-Takes_example :
    (l : Logger) × (t : Timer ℕ) × (init_global_logger 3 errors_only 1 0 7 timer ≡ some (l, t))
    × (codes "ERROR" ≡ codes "ERROR" → Takes false false false event [] (codes "a") l)
    × (codes "ERROR" ≡ codes "INFO" → Takes false true false event [] (codes "a") l)
    × (codes "ERROR" ≢ codes "INFO"
        → codes "ERROR" ≢ codes "ERROR"
        → Takes true true true event [] (codes "a") l)
unfolding default_config
init_global_logger-Takes_example =
    init_global_logger-Takes 3 errors_only 1 500 0 7 timer event [] (codes "a")
      (λ e. omega (arith, e)) refl
