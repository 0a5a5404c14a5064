-- ===== src/Server/Services.antt =====
-- tcp_server.cpp: the addresses of the services that the server calls.
use rpc_framework.Base.{
  ℕ, ◌-◌, ◌≤◌, ◌<◌, ◌≡◌, ◌≢◌, refl, ap, ◌∙◌, List, some, if◌then◌else◌, length, arith, get_elem?,
  get_elem?-lt, insert, lookup-insert, text_eq, text_eq_refl, text_eq_ne, ==_false,
}
use rpc_framework.Rpc.Registry.{AllService, addrs_of}
use rpc_framework.Server.{
  TcpServer, update_service, get_service_all_addr, get_service_with_load_balance,
}

addrs_of-insert :
    (n name : List ℕ) (addrs : List (List ℕ)) (services : AllService)
    → addrs_of (insert n addrs services) name
      ≡ (if text_eq n name then addrs else addrs_of services name)
unfolding addrs_of
addrs_of-insert n name addrs services = ground (arith, lookup-insert n name addrs services)

addrs_of-insert_same :
    (name : List ℕ) (addrs : List (List ℕ)) (services : AllService)
    → addrs_of (insert name addrs services) name ≡ addrs
addrs_of-insert_same name addrs services =
    addrs_of-insert name name addrs services
    ∙ ap (λ b. if b then addrs else addrs_of services name) (text_eq_refl name)

addrs_of-insert_other :
    (name other : List ℕ) (addrs : List (List ℕ)) (services : AllService)
    → name ≢ other
    → addrs_of (insert name addrs services) other ≡ addrs_of services other
addrs_of-insert_other name other addrs services differ =
    addrs_of-insert name other addrs services
    ∙ ap (λ b. if b then addrs else addrs_of services other) (text_eq_ne name other differ)

-- Behind `updateService` with some addresses, for a distribution that stays in its bound,
-- `getServiceWithLoadBalance` returns the one of these addresses that the distribution names;
-- the service then still has these addresses, and every other service those that it had.
pub get_service_with_load_balance-chooses :
    (dis : ℕ → ℕ) (name other : List ℕ) (addrs : List (List ℕ)) (s : TcpServer)
    → ((k : ℕ) → dis k ≤ k)
    → 0 < length addrs
    → name ≢ other
    → (addr : List ℕ) × (s' : TcpServer) × (get_service_with_load_balance dis name
          (update_service name addrs s)
        ≡ some (addr, s'))
      × (get_elem? addrs (dis (length addrs - 1)) ≡ some addr)
      × ((get_service_all_addr name s').0 ≡ addrs)
      × ((get_service_all_addr other s').0 ≡ (get_service_all_addr other s).0)
unfolding get_service_with_load_balance get_service_all_addr update_service
get_service_with_load_balance-chooses dis name other addrs s bounded some_addr differ =
    let (addr, e) =
      get_elem?-lt addrs (dis (length addrs - 1)) (omega (arith, bounded (length addrs - 1))) in
    let kept = insert name addrs s.m_service_cache in
    let same = addrs_of-insert_same name addrs s.m_service_cache in
    (
      addr,
      record s { m_service_cache = insert name addrs kept },
      rw
          (
            same,
            ==_false (length addrs) 0 (omega arith),
            e,
            get_service_with_load_balance,
            update_service,
          )
          refl,
      e,
      addrs_of-insert_same name addrs kept,
      addrs_of-insert_other name other addrs kept differ
          ∙ addrs_of-insert_other name other addrs s.m_service_cache differ,
    )
