-- ===== src/Rpc/Tests.antt =====
-- A service and requests for it, and the theorems about the rpc classes applied to them.
use rpc_framework.Base.{
  ℕ, ◌+◌, ◌≡◌, ◌↔◌, refl, [], ◌∷◌, none, some, true, length, lookup, text_eq, if◌then◌else◌,
}
use rpc_framework.Base.Int.{pos}
use rpc_framework.Addr.{split_first, Splits}
use rpc_framework.Coder.{new_message}
use rpc_framework.Coder.Tests.{ping}
use rpc_framework.Rpc.Dispatcher.{
  Service, RunTime, dot, parse_service_full_name, ServiceMap, register_service,
}
use rpc_framework.Rpc.Dispatch.{
  IsServed, reply, parse_service_full_name-Splits, dispatch-keeps_id, dispatch-err_code,
  dispatch-served, dispatch-dotted_service,
}
use rpc_framework.Rpc.Registry
use rpc_framework.Rpc.Registry.{registers, gets, get_target_addr, get_target_addr-run}

-- The service "A" with the method "b", which answers the length of its payload and counts its calls.
abbrev pub counter : Service ℕ ℕ ℕ
counter = record {
  full_name = 65 ∷ [];
  find_method_by_name = λ name. if text_eq name (98 ∷ []) then some 0 else none;
  parse_from_string = λ method bytes. some (length bytes);
  call_method = λ method controller message world. (message, world + 1);
  serialize_to_string = λ message. (true, message ∷ []);
}

-- The same under the name "p.A".
abbrev dotted : Service ℕ ℕ ℕ
dotted = record counter { full_name = 112 ∷ 46 ∷ 65 ∷ [] }

abbrev pub services : ServiceMap ℕ ℕ ℕ
services = (65 ∷ [], counter) ∷ []

abbrev pub idle : RunTime
idle = record { m_msgid = []; m_method_name = [] }

unfoldable served_ping : IsServed services ping new_message none none idle 5
unfolding parse_service_full_name split_first text_eq lookup
served_ping = record {
  service_name = 65 ∷ [];
  method_name = 98 ∷ [];
  service = counter;
  method = 0;
  req_msg = 1;
  name = refl;
  service_found = refl;
  method_found = refl;
  parsed = refl;
  serialized = refl;
}

dispatch-keeps_id_example :
    ((reply services ping new_message none none idle 5).0.m_msg_id ≡ 49 ∷ [])
    × ((reply services ping new_message none none idle 5).0.m_method_name ≡ ping.m_method_name)
dispatch-keeps_id_example = dispatch-keeps_id services ping new_message none none idle 5

dispatch-err_code_example :
    ((reply services ping new_message none none idle 5).0.m_err_code ≡ pos 0)
    ↔ IsServed services ping new_message none none idle 5
dispatch-err_code_example = dispatch-err_code services ping new_message none none idle 5

dispatch-served_example :
    ((reply services ping new_message none none idle 5).0.m_pb_data ≡ 1 ∷ [])
    × ((reply services ping new_message none none idle 5).1
        ≡ record { m_msgid = 49 ∷ []; m_method_name = 98 ∷ [] })
    × ((reply services ping new_message none none idle 5).2 ≡ 6)
unfolding served_ping
dispatch-served_example = dispatch-served services ping new_message none none idle 5 served_ping

dispatch-dotted_service_example :
    reply (register_service dotted services) ping new_message none none idle 5
    ≡ reply services ping new_message none none idle 5
dispatch-dotted_service_example =
    dispatch-dotted_service services dotted ping new_message none none idle 5 (λ h. h.1.0 refl)

parse_service_full_name-Splits_example :
    Splits dot (65 ∷ 46 ∷ 98 ∷ []) (parse_service_full_name (65 ∷ 46 ∷ 98 ∷ []))
parse_service_full_name-Splits_example = parse_service_full_name-Splits (65 ∷ 46 ∷ 98 ∷ [])

get_target_addr-run_example :
    (get_target_addr (65 ∷ []) [] (
      Registry.run
        (registers (65 ∷ []) (1 ∷ []) ∷ gets (66 ∷ []) ∷ registers (65 ∷ []) (2 ∷ []) ∷ [])
        [])).0
    ≡ (1 ∷ []) ∷ (2 ∷ []) ∷ []
unfolding text_eq
get_target_addr-run_example =
    get_target_addr-run
      (registers (65 ∷ []) (1 ∷ []) ∷ gets (66 ∷ []) ∷ registers (65 ∷ []) (2 ∷ []) ∷ []) (65 ∷ [])
      []
