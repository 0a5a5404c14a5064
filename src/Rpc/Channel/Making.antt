-- ===== src/Rpc/Channel/Making.antt =====
-- rpc_channel.cpp and rpc_closure.h: the references that a channel keeps, and the closure. References are values of
-- any type, and so is the state that a callback changes.
use rpc_framework.Base.{
  ℕ, ◌≡◌, refl, List, [], ◌∷◌, Option, none, some, ◌>>=◌, Bool, true, false, if◌then◌else◌,
}
use rpc_framework.Base.Int.{ℤ}
use rpc_framework.Addr.{IpNetAddr}
use rpc_framework.Fd.{FdEvent}
use rpc_framework.Tcp.Client.{TcpClient}
use rpc_framework.Tcp.Client.Making.{new_client}

-- What `Init` is called with.
pub record References (R : Type 0) : Type 0 where
  pub controller : R
  pub request : R
  pub response : R
  pub closure : R

pub record RpcChannel (R : Type 0) : Type 0 where
  pub m_peer_addr : Option IpNetAddr
  pub m_client : Option TcpClient
  pub references : Option (References R)
  pub m_is_init : Bool

module _ {C R : Type 0} where
  -- The constructor, on what `socket` returns to its client, with the table of events.
  unfoldable pub new_channel :
      ℤ → Option IpNetAddr → List ℕ → List (FdEvent C) → Option (RpcChannel R × List (FdEvent C))
  unfolding new_client
  new_channel fd peer_addr peer_addr_text group = do
    made ← new_client fd peer_addr peer_addr_text group
    some (
      record { m_peer_addr = peer_addr; m_client = made.0; references = none; m_is_init = false },
      made.1,
    )

module _ {R : Type 0} where
  -- `Init` does nothing the second time.
  unfoldable pub init : References R → RpcChannel R → RpcChannel R
  init r ch = if ch.m_is_init then ch else record ch { references = some r; m_is_init = true }

  unfoldable pub init_all : List (References R) → RpcChannel R → RpcChannel R
  unfolding init
  init_all [] ch = ch
  init_all (r ∷ rs) ch = init_all rs (init r ch)

  init-again : (r : References R) (ch : RpcChannel R) → ch.m_is_init ≡ true → init r ch ≡ ch
  unfolding init
  init-again r ch e = simp e

  init_all-made :
      (rs : List (References R)) (ch : RpcChannel R) → ch.m_is_init ≡ true → init_all rs ch ≡ ch
  unfolding init_all
  init_all-made [] ch e = refl
  init_all-made (r ∷ rs) ch e = rw (init-again r ch e, init_all) (init_all-made rs ch e)

  -- However often `Init` is called on a channel, the channel keeps the references of the first call.
  pub init_all-first :
      (r : References R) (rs : List (References R)) (ch : RpcChannel R)
      → ch.m_is_init ≡ false
      → (init_all (r ∷ rs) ch).references ≡ some r
  unfolding init_all init
  init_all-first r rs ch e =
      rw (e, init_all-made rs (record ch { references = some r; m_is_init = true }) refl) refl

-- `RpcClosure::Run`, with the callback, if there is one.
unfoldable pub run_closure : {S : Type 0} → Option (S → S) → S → S
run_closure none s = s
run_closure (some cb) s = cb s
