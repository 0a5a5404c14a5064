-- ===== src/Rpc/Controller.antt =====
-- RpcFramework/rocket/net/rpc/rpc_controller.h and rpc_controller.cpp.
use rpc_framework.Base.{ℕ, ◌≡◌, refl, List, [], ◌∷◌, Option, none, some, Bool, true, false, ◌∙◌}
use rpc_framework.Base.Int.{ℤ, pos}
use rpc_framework.Addr.{IpNetAddr}

pub record RpcController : Type 0 where
  pub m_error_code : ℤ
  pub m_error_info : List ℕ
  pub m_msg_id : List ℕ
  pub m_is_failed : Bool
  pub m_is_canceld : Bool
  pub m_local_addr : Option IpNetAddr
  pub m_peer_addr : Option IpNetAddr
  pub m_timeout : ℤ

abbrev pub new_controller : RpcController
new_controller = record {
  m_error_code = pos 0;
  m_error_info = [];
  m_msg_id = [];
  m_is_failed = false;
  m_is_canceld = false;
  m_local_addr = none;
  m_peer_addr = none;
  m_timeout = pos 1000;
}

unfoldable pub reset : RpcController → RpcController
reset c = record c {
  m_error_code = pos 0;
  m_error_info = [];
  m_msg_id = [];
  m_is_failed = false;
  m_is_canceld = false;
  m_local_addr = none;
  m_peer_addr = none;
  m_timeout = pos 1000;
}

unfoldable pub failed : RpcController → Bool
failed c = c.m_is_failed

unfoldable pub error_text : RpcController → List ℕ
error_text c = c.m_error_info

unfoldable pub start_cancel : RpcController → RpcController
start_cancel c = record c { m_is_canceld = true }

unfoldable pub set_failed : List ℕ → RpcController → RpcController
set_failed reason c = record c { m_error_info = reason }

unfoldable pub is_canceled : RpcController → Bool
is_canceled c = c.m_is_canceld

-- The function's body is empty.
unfoldable pub notify_on_cancel : RpcController → RpcController
notify_on_cancel c = c

unfoldable pub set_error : ℤ → List ℕ → RpcController → RpcController
set_error error_code error_info c = record c {
  m_error_code = error_code;
  m_error_info = error_info;
  m_is_failed = true;
}

unfoldable pub get_error_code : RpcController → ℤ
get_error_code c = c.m_error_code

unfoldable pub get_error_info : RpcController → List ℕ
get_error_info c = c.m_error_info

unfoldable pub set_msg_id : List ℕ → RpcController → RpcController
set_msg_id msg_id c = record c { m_msg_id = msg_id }

unfoldable pub get_msg_id : RpcController → List ℕ
get_msg_id c = c.m_msg_id

unfoldable pub set_local_addr : Option IpNetAddr → RpcController → RpcController
set_local_addr addr c = record c { m_local_addr = addr }

unfoldable pub set_peer_addr : Option IpNetAddr → RpcController → RpcController
set_peer_addr addr c = record c { m_peer_addr = addr }

unfoldable pub get_local_addr : RpcController → Option IpNetAddr
get_local_addr c = c.m_local_addr

unfoldable pub get_peer_addr : RpcController → Option IpNetAddr
get_peer_addr c = c.m_peer_addr

unfoldable pub set_timeout : ℤ → RpcController → RpcController
set_timeout timeout c = record c { m_timeout = timeout }

unfoldable pub get_timeout : RpcController → ℤ
get_timeout c = c.m_timeout

-- The calls that change a controller.
pub data Call : Type 0 where
  resets cancels notifies : Call
  fails : List ℕ → Call
  errs : ℤ → List ℕ → Call
  ids : List ℕ → Call
  locals peers : Option IpNetAddr → Call
  timeouts : ℤ → Call

unfoldable pub apply : Call → RpcController → RpcController
unfolding reset start_cancel notify_on_cancel set_failed set_error set_msg_id set_local_addr
    set_peer_addr set_timeout
apply resets c = reset c
apply cancels c = start_cancel c
apply notifies c = notify_on_cancel c
apply (fails reason) c = set_failed reason c
apply (errs code info) c = set_error code info c
apply (ids msg_id) c = set_msg_id msg_id c
apply (locals addr) c = set_local_addr addr c
apply (peers addr) c = set_peer_addr addr c
apply (timeouts t) c = set_timeout t c

unfoldable pub apply_all : List Call → RpcController → RpcController
apply_all [] c = c
apply_all (call ∷ calls) c = apply_all calls (apply call c)

-- The error that a history leaves: that of the last `SetError` since the last `Reset`.
abbrev pub last_error : Option ℤ → List Call → Option ℤ
last_error e [] = e
last_error e (resets ∷ calls) = last_error none calls
last_error e (errs code info ∷ calls) = last_error (some code) calls
last_error e (call ∷ calls) = last_error e calls

-- The outcome that a controller shows.
abbrev pub Shows : Option ℤ → RpcController → Type 0
Shows none c = (failed c ≡ false) × (get_error_code c ≡ pos 0)
Shows (some code) c = (failed c ≡ true) × (get_error_code c ≡ code)

Shows-same :
    (e : Option ℤ) (c d : RpcController)
    → d.m_is_failed ≡ c.m_is_failed
    → d.m_error_code ≡ c.m_error_code
    → Shows e c
    → Shows e d
unfolding failed get_error_code
Shows-same none c d f g s = (f ∙ s.0, g ∙ s.1)
Shows-same (some code) c d f g s = (f ∙ s.0, g ∙ s.1)

-- On a controller that shows an outcome, an error code or none, any calls leave one that shows the
-- code of the last `SetError` since the last `Reset`, or the outcome of before where neither was
-- called; no other call touches it, `SetFailed` included.
pub apply_all-Shows :
    (calls : List Call) (e : Option ℤ) (c : RpcController)
    → Shows e c
    → Shows (last_error e calls) (apply_all calls c)
unfolding apply_all apply failed get_error_code
apply_all-Shows [] e c s = s
apply_all-Shows (resets ∷ calls) e c s = apply_all-Shows calls none (reset c) (refl, refl)
apply_all-Shows (errs code info ∷ calls) e c s =
    apply_all-Shows calls (some code) (set_error code info c) (refl, refl)
apply_all-Shows (call ∷ calls) e c s =
    apply_all-Shows calls e (apply call c) (Shows-same e c (apply call c) refl refl s)
