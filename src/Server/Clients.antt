-- ===== src/Server/Clients.antt =====
-- io_thread.cpp: what a thread has more behind `addClient`.
use rpc_framework.Base.{
  ℕ, ◌+◌, ◌≤◌, ◌≡◌, refl, ap, List, [], ◌∷◌, ◌++◌, Option, none, some, true, false, length, ==_refl,
}
use rpc_framework.Base.Int.{pos, negsuc}
use rpc_framework.Addr.{IpNetAddr}
use rpc_framework.Coroutine.{Thread, points_to, set_call_back}
use rpc_framework.Coroutine.Pool.{CoroutinePool, get_coroutine_instanse}
use rpc_framework.Fd.{FdEvent}
use rpc_framework.Fd.Group.{get_fd_event, Indexed, get_fd_event-finds}
use rpc_framework.Loop.{resumes, add_task, wakeup, add_coroutine}
use rpc_framework.Server.{AddClient, IoThread, add_client}
use rpc_framework.Tcp.Connection.{new_connection, by_server}

set_call_back-sets :
    {C : Type 0} (id : ℕ) (cb : C) (t : Thread C)
    → points_to t.t_main_coroutine id ≡ false
    → (t.cors id).m_is_in_cofunc ≡ false
    → ((set_call_back id (some cb) t).1.cors id).m_call_back ≡ some cb
unfolding set_call_back
set_call_back-sets id cb t h k = rw (h, k, ==_refl id) refl

-- For an accepted descriptor, with a table that is indexed by descriptor and has two entries at least, and
-- a pool that gives a coroutine other than the main one and not running, `addClient` does not fail. The
-- thread has one more connection, on this descriptor, connected and with empty buffers of 128 bytes; the
-- coroutine's callback serves it; and the loop is told to resume the coroutine and woken up. The
-- table is still indexed.
pub add_client-serves :
    (stack : ℕ → ℕ) (fd cor : ℕ) (peer local : Option IpNetAddr) (group : List (FdEvent AddClient))
    (io : IoThread) (q : CoroutinePool) (u : Thread ℕ)
    → Indexed 0 group
    → 2 ≤ length group
    → get_coroutine_instanse stack io.pool io.thread ≡ some (cor, q, u)
    → points_to u.t_main_coroutine cor ≡ false
    → (u.cors cor).m_is_in_cofunc ≡ false
    → (grown : List (FdEvent AddClient)) × (io' : IoThread) × (add_client stack
          (record { client_fd = pos fd; peer_addr = peer; local_addr = local })
          group
          io
        ≡ some (grown, io'))
      × Indexed 0 grown
      × (io'.m_clients ≡ io.m_clients ++ new_connection fd 128 peer local by_server ∷ [])
      × ((io'.thread.cors cor).m_call_back ≡ some (length io.m_clients))
      × (io'.m_event_loop.m_pending_tasks ≡ io.m_event_loop.m_pending_tasks ++ resumes cor ∷ [])
      × (io'.m_event_loop.wakeups ≡ io.m_event_loop.wakeups + 1)
unfolding add_client add_coroutine add_task wakeup
add_client-serves stack fd cor peer local group io q u h two taken other free =
    let (e, more, f, at, indexed) = get_fd_event-finds fd group h two in
    let served : ℕ → IoThread = λ n. record {
      m_event_loop = add_coroutine cor true io.m_event_loop;
      m_clients = io.m_clients ++ new_connection n 128 peer local by_server ∷ [];
      thread = (set_call_back cor (some (length io.m_clients)) u).1;
      pool = q;
    } in
    (
      group ++ more,
      served e.m_fd,
      rw (f, taken) refl,
      indexed,
      ap (λ n. io.m_clients ++ new_connection n 128 peer local by_server ∷ []) at,
      set_call_back-sets cor (length io.m_clients) u other free,
      refl,
      refl,
    )

-- A failed `accept` is not noticed before its callback runs, which then reads outside the table.
pub add_client-faults :
    (stack : ℕ → ℕ) (n : ℕ) (peer local : Option IpNetAddr) (group : List (FdEvent AddClient))
    (io : IoThread)
    → add_client stack
        (record { client_fd = negsuc n; peer_addr = peer; local_addr = local })
        group
        io
      ≡ none
unfolding add_client get_fd_event
add_client-faults stack n peer local group io = refl
