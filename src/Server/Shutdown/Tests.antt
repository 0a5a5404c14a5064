-- ===== src/Server/Shutdown/Tests.antt =====
-- A thread that is started and in its loop.
use rpc_framework.Base.{true, false}
use rpc_framework.Server.Startup.{has_called_start, looping}
use rpc_framework.Server.Shutdown.{IoThreadLife, uses}

abbrev in_loop : IoThreadLife
in_loop = record {
  startup = record {
    m_init_semaphore = 0;
    m_start_semaphore = 0;
    m_event_loop = true;
    creator = has_called_start;
    main = looping;
  };
  m_stop_flag = false;
  has_ended = false;
  is_deleted = false;
  keeper = uses;
}
