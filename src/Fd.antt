-- ===== src/Fd.antt =====
-- RpcFramework/rocket/net/fd_event.h and fd_event.cpp: a descriptor, what it listens for and its
-- callbacks. Callbacks are values of any type; no callback is the C++ `nullptr`.
pub mod Group
use rpc_framework.Base.{ℕ, ◌≡◌, refl, List, [], ◌∷◌, Option, none, some, Bool, true, false, arith}

pub data TriggerEvent : Type 0 where
  in_event out_event error_event : TriggerEvent

-- `m_listen_events.events` as its bits EPOLLIN and EPOLLOUT; `m_data_ptr` tells that `data.ptr` is this
-- event.
pub record FdEvent (C : Type 0) : Type 0 where
  pub m_fd : ℕ
  pub m_listen_in : Bool
  pub m_listen_out : Bool
  pub m_data_ptr : Bool
  pub m_read_callback : Option C
  pub m_write_callback : Option C
  pub m_error_callback : Option C

-- The calls that change what an event listens for.
pub data Call (C : Type 0) : Type 0 where
  listens : TriggerEvent → Option C → Option C → Call C
  cancels : TriggerEvent → Call C

module _ {C : Type 0} where
  unfoldable pub new_event : ℕ → FdEvent C
  new_event fd = record {
    m_fd = fd;
    m_listen_in = false;
    m_listen_out = false;
    m_data_ptr = false;
    m_read_callback = none;
    m_write_callback = none;
    m_error_callback = none;
  }

  unfoldable pub handler : TriggerEvent → FdEvent C → Option C
  handler in_event e = e.m_read_callback
  handler out_event e = e.m_write_callback
  handler error_event e = e.m_error_callback

  -- Any event but `IN_EVENT` counts as `OUT_EVENT`.
  abbrev pub listen_side : TriggerEvent → Option C → FdEvent C → FdEvent C
  listen_side in_event callback e = record e { m_listen_in = true; m_read_callback = callback }
  listen_side other callback e = record e { m_listen_out = true; m_write_callback = callback }

  -- An error callback that is there is dropped.
  abbrev pub next_error_callback : Option C → Option C → Option C
  next_error_callback none error_callback = error_callback
  next_error_callback (some c) error_callback = none

  unfoldable pub listen : TriggerEvent → Option C → Option C → FdEvent C → FdEvent C
  listen event_type callback error_callback e = record (listen_side event_type callback e) {
    m_error_callback = next_error_callback e.m_error_callback error_callback;
    m_data_ptr = true;
  }

  unfoldable pub cancel : TriggerEvent → FdEvent C → FdEvent C
  cancel in_event e = record e { m_listen_in = false }
  cancel other e = record e { m_listen_out = false }

  unfoldable pub apply : Call C → FdEvent C → FdEvent C
  unfolding listen cancel
  apply (listens t callback error_callback) e = listen t callback error_callback e
  apply (cancels t) e = cancel t e

  unfoldable pub apply_all : List (Call C) → FdEvent C → FdEvent C
  apply_all [] e = e
  apply_all (call ∷ calls) e = apply_all calls (apply call e)

  -- Whether a history leaves an event listening for reading, and for writing.
  abbrev pub reads_after : Bool → List (Call C) → Bool
  reads_after b [] = b
  reads_after b (listens in_event c err ∷ calls) = reads_after true calls
  reads_after b (cancels in_event ∷ calls) = reads_after false calls
  reads_after b (call ∷ calls) = reads_after b calls

  abbrev pub writes_after : Bool → List (Call C) → Bool
  writes_after b [] = b
  writes_after b (listens in_event c err ∷ calls) = writes_after b calls
  writes_after b (cancels in_event ∷ calls) = writes_after b calls
  writes_after b (listens other c err ∷ calls) = writes_after true calls
  writes_after b (cancels other ∷ calls) = writes_after false calls

  -- After any calls of `listen` and `cancel` the event listens for reading exactly as the last call for
  -- `IN_EVENT` says, for writing exactly as the last other call says, and its descriptor is the same.
  pub apply_all-listens :
      (calls : List (Call C)) (e : FdEvent C)
      → ((apply_all calls e).m_listen_in ≡ reads_after e.m_listen_in calls)
        × ((apply_all calls e).m_listen_out ≡ writes_after e.m_listen_out calls)
        × ((apply_all calls e).m_fd ≡ e.m_fd)
  unfolding apply_all apply
  apply_all-listens [] e = (refl, refl, refl)
  apply_all-listens (listens in_event c err ∷ calls) e =
      apply_all-listens calls (apply (listens in_event c err) e)
  apply_all-listens (listens out_event c err ∷ calls) e =
      apply_all-listens calls (apply (listens out_event c err) e)
  apply_all-listens (listens error_event c err ∷ calls) e =
      apply_all-listens calls (apply (listens error_event c err) e)
  apply_all-listens (cancels in_event ∷ calls) e =
      apply_all-listens calls (apply (cancels in_event) e)
  apply_all-listens (cancels out_event ∷ calls) e =
      apply_all-listens calls (apply (cancels out_event) e)
  apply_all-listens (cancels error_event ∷ calls) e =
      apply_all-listens calls (apply (cancels error_event) e)

  -- On an event without an error callback, listening with one keeps it, and listening a second
  -- time with one leaves none.
  pub listen-listen_error :
      (s t : TriggerEvent) (b c err err' : C) (e : FdEvent C)
      → handler error_event e ≡ none
      → (handler error_event (listen s (some b) (some err) e) ≡ some err)
        × (handler error_event (listen t (some c) (some err') (listen s (some b) (some err) e))
            ≡ none)
  unfolding listen handler
  listen-listen_error s t b c err err' e h = ground arith
