-- ===== src/Log/Levels.antt =====
-- log.h: which messages a logger takes.
use rpc_framework.Base.{ℕ, ◌≡◌, refl, List}
use rpc_framework.Log.{
  info, rank, takes_debug, takes_info, takes_error, Logger, push_log, push_app_log, LogEvent,
  message, debug_log, info_log, error_log, app_debug_log, app_info_log, app_error_log,
}

-- A logger of the level `info` takes messages of this level and drops those of the levels
-- `debug` and `error`, from the library and from the application alike.
pub error_log-drops :
    (e : LogEvent) (place text : List ℕ) (l : Logger)
    → l.m_set_level ≡ info
    → (info_log e place text l ≡ push_log (message info e place text) l)
      × (app_info_log e place text l ≡ push_app_log (message info e place text) l)
      × (debug_log e place text l ≡ l)
      × (app_debug_log e place text l ≡ l)
      × (error_log e place text l ≡ l)
      × (app_error_log e place text l ≡ l)
unfolding debug_log info_log error_log app_debug_log app_info_log app_error_log takes_debug
    takes_info takes_error rank
error_log-drops e place text l h = simp h (refl, refl, refl, refl, refl, refl)
