-- ===== src/Server/Shutdown/Ending.antt =====
-- io_thread.cpp: when the destructor returns.
use rpc_framework.Base.{◌≤◌, arith}
use rpc_framework.Server.Startup.{is_started, bit}
use rpc_framework.Server.Shutdown.{IoThreadLife, Lives, begin}
use rpc_framework.Server.Shutdown.Invariant.{Lives-IsLively, begin-IsLively}

-- In every order of the threads' steps, the loop is deleted only where `Main` has returned, and `Main` returns only
-- behind `start` and with the loop stopped.
pub Lives-deletes :
    {s : IoThreadLife}
    → Lives begin s
    → (bit s.is_deleted ≤ bit s.has_ended)
      × (bit s.has_ended ≤ is_started s.startup.creator)
      × (bit s.has_ended ≤ bit s.m_stop_flag)
Lives-deletes l =
    let i = Lives-IsLively l begin-IsLively in
    (i.deleted, omega (arith, i.looped, i.counted.start), i.stopped)
