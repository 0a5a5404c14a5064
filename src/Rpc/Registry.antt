-- ===== src/Rpc/Registry.antt =====
-- RpcFramework/rocket/net/rpc/rpc_registry.h and rpc_registry.cpp: which addresses serve a service. Each
-- handler holds the mutex over its access of `allService`, so the handlers run one after the other.
use rpc_framework.Base.{
  ℕ, ◌≡◌, refl, ap, sym, ◌∙◌, List, [], ◌∷◌, ◌++◌, Option, none, some, lookup, insert,
  lookup-insert, text_eq, text_eq_iff, if◌then◌else◌, append_assoc, append-nil, arith, Bool, true,
  false,
}

-- `allService`, from service names to `ip:port` texts in the order of registration.
abbrev pub AllService : Type 0
AllService = List (List ℕ × List (List ℕ))

abbrev pub or_empty : Option (List (List ℕ)) → List (List ℕ)
or_empty none = []
or_empty (some addrs) = addrs

-- `allService[name]`
unfoldable pub addrs_of : AllService → List ℕ → List (List ℕ)
addrs_of services name = or_empty (lookup name services)

-- The response with the addresses added. `operator[]` makes the entry of an unknown service.
unfoldable pub get_target_addr : List ℕ → List (List ℕ) → AllService → List (List ℕ) × AllService
get_target_addr name response services =
    let addrs = addrs_of services name in (response ++ addrs, insert name addrs services)

unfoldable pub register_server : List ℕ → List ℕ → AllService → AllService
register_server name ip_and_port services =
    insert name (addrs_of services name ++ ip_and_port ∷ []) services

pub data Call : Type 0 where
  registers : List ℕ → List ℕ → Call
  gets : List ℕ → Call

unfoldable pub run : List Call → AllService → AllService
run [] services = services
run (registers name addr ∷ calls) services = run calls (register_server name addr services)
run (gets name ∷ calls) services = run calls (get_target_addr name [] services).1

-- The addresses that a history registers under a name, oldest first.
abbrev pub registered : List ℕ → List Call → List (List ℕ)
registered name [] = []
registered name (registers n addr ∷ calls) =
    if text_eq n name then addr ∷ registered name calls else registered name calls
registered name (gets n ∷ calls) = registered name calls

addrs_of-register_server :
    (n addr name : List ℕ) (services : AllService)
    → addrs_of (register_server n addr services) name
      ≡ (if text_eq n name then addrs_of services name ++ addr ∷ [] else addrs_of services name)
unfolding addrs_of register_server
addrs_of-register_server n addr name services = ground (
  arith,
  text_eq_iff n name,
  lookup-insert n name (or_empty (lookup n services) ++ addr ∷ []) services,
)

addrs_of-get_target_addr :
    (n name : List ℕ) (services : AllService)
    → addrs_of (get_target_addr n [] services).1 name ≡ addrs_of services name
unfolding addrs_of get_target_addr
addrs_of-get_target_addr n name services =
    ground (arith, text_eq_iff n name, lookup-insert n name (or_empty (lookup n services)) services)

-- After any calls the addresses of a service are those from before and then exactly the registered
-- ones, in order; queries change no service's addresses.
pub addrs_of-run :
    (calls : List Call) (name : List ℕ) (services : AllService)
    → addrs_of (run calls services) name ≡ addrs_of services name ++ registered name calls
unfolding run
addrs_of-run [] name services = sym (append-nil (addrs_of services name))
addrs_of-run (gets n ∷ calls) name services =
    addrs_of-run calls name (get_target_addr n [] services).1
    ∙ ap (λ l. l ++ registered name calls) (addrs_of-get_target_addr n name services)
addrs_of-run (registers n addr ∷ calls) name services =
    addrs_of-run calls name (register_server n addr services)
    ∙ ap (λ l. l ++ registered name calls) (addrs_of-register_server n addr name services)
    ∙ joined (text_eq n name) (addrs_of services name) (registered name calls)
  where
    joined :
        (b : Bool) (xs ys : List (List ℕ))
        → (if b then xs ++ addr ∷ [] else xs) ++ ys ≡ xs ++ (if b then addr ∷ ys else ys)
    joined true xs ys = append_assoc xs (addr ∷ []) ys
    joined false xs ys = refl

-- A query's response gains exactly the addresses registered under its name since the start.
pub get_target_addr-run :
    (calls : List Call) (name : List ℕ) (response : List (List ℕ))
    → (get_target_addr name response (run calls [])).0 ≡ response ++ registered name calls
unfolding get_target_addr lookup addrs_of
get_target_addr-run calls name response = ap (λ l. response ++ l) (addrs_of-run calls name [])
