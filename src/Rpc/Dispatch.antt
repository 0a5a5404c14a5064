-- ===== src/Rpc/Dispatch.antt =====
-- rpc_dispatcher.cpp: which requests are served, and what every reply carries.
use rpc_framework.Base.{
  ℕ, ◌≡◌, ◌≢◌, ◌↔◌, inl, inr, refl, ap, sym, ◌∙◌, List, [], ◌∷◌, ◌++◌, Option, none, some, true,
  false, lookup, insert, All, arith, text_eq, text_eq_refl, text_eq_ne, subst, lookup-insert,
  Option-cases,
}
use rpc_framework.Base.Int.{pos}
use rpc_framework.Addr.{IpNetAddr, split_first-append, split_first-Splits, Splits}
use rpc_framework.Coder.{TinyPbProtocol}
use rpc_framework.Rpc.Errors.{error_failed_serialize}
use rpc_framework.Rpc.Dispatcher.{
  Service, RunTime, dot, parse_service_full_name, set_tiny_pb_error, ServiceMap, register_service,
  invoke, handler_controller, dispatch,
}

-- A full name is read as the service before its first dot and the method behind it; without a dot it
-- is refused.
pub parse_service_full_name-Splits :
    (full_name : List ℕ) → Splits dot full_name (parse_service_full_name full_name)
unfolding parse_service_full_name
parse_service_full_name-Splits [] = tt
parse_service_full_name-Splits (c ∷ full_name) = split_first-Splits dot (c ∷ full_name)

-- Joining a service name without dots and a method name is undone by parsing.
pub parse_service_full_name-join :
    (service method : List ℕ)
    → All (λ c. c ≢ dot) service
    → parse_service_full_name (service ++ dot ∷ method) ≡ some (service, method)
unfolding parse_service_full_name
parse_service_full_name-join [] method h = split_first-append dot [] method h
parse_service_full_name-join (c ∷ service) method h = split_first-append dot (c ∷ service) method h

module _ {Method Message World : Type 0} (services : ServiceMap Method Message World)
    (request response : TinyPbProtocol) (local peer : Option IpNetAddr) (run_time : RunTime)
    (world : World) where
  -- A request that reaches the end of `dispatch`: its name parses, service and method are there, its
  -- payload parses, and the handler's answer serializes.
  pub record IsServed : Type 0 where
    pub service_name : List ℕ
    pub method_name : List ℕ
    pub service : Service Method Message World
    pub method : Method
    pub req_msg : Message
    pub name : parse_service_full_name request.m_method_name ≡ some (service_name, method_name)
    pub service_found : lookup service_name services ≡ some service
    pub method_found : service.find_method_by_name method_name ≡ some method
    pub parsed : service.parse_from_string method request.m_pb_data ≡ some req_msg
    pub serialized :
        (service.serialize_to_string
          (service.call_method method
            (handler_controller request.m_msg_id local peer)
            req_msg
            world).0).0
        ≡ true

  abbrev pub reply : TinyPbProtocol × RunTime × World
  reply = dispatch services request response local peer run_time world

  -- Every reply carries the id and the method name of its request, on each branch.
  pub dispatch-keeps_id :
      (reply.0.m_msg_id ≡ request.m_msg_id) × (reply.0.m_method_name ≡ request.m_method_name)
  unfolding dispatch invoke set_tiny_pb_error
  dispatch-keeps_id = ground arith

  -- The error code of a reply is 0 exactly when the request was served: its name parses, the
  -- service and the method are there, the payload parses and the answer serializes.
  pub dispatch-err_code : (reply.0.m_err_code ≡ pos 0) ↔ IsServed
  unfolding dispatch invoke set_tiny_pb_error
  dispatch-err_code = (
    λ h. elim (Option-cases (parse_service_full_name request.m_method_name)) [
      | inl e ↦ absurd (ground (arith, e, h))
      | inr ((sn, mn), e) ↦ elim (Option-cases (lookup sn services)) [
        | inl f ↦ absurd (ground (arith, e, f, h))
        | inr (s, f) ↦ elim (Option-cases (s.find_method_by_name mn)) [
          | inl g ↦ absurd (ground (arith, e, f, g, h))
          | inr (m, g) ↦ elim (Option-cases (s.parse_from_string m request.m_pb_data)) [
            | inl k ↦ absurd (ground (arith, e, f, g, k, h))
            | inr (q, k) ↦ record {
              service_name = sn;
              method_name = mn;
              service = s;
              method = m;
              req_msg = q;
              name = e;
              service_found = f;
              method_found = g;
              parsed = k;
              serialized = ground (arith, e, f, g, k, h);
            }
          ]
        ]
      ]
    ],
    λ s. ground (arith, s.name, s.service_found, s.method_found, s.parsed, s.serialized),
  )

  -- A served request gets its handler's answer as payload; the handler's effect on the world is kept,
  -- and the thread's `RunTime` names the request.
  pub dispatch-served :
      (s : IsServed)
      → let called =
          s.service.call_method s.method
            (handler_controller request.m_msg_id local peer)
            s.req_msg
            world in
        (reply.0.m_pb_data ≡ (s.service.serialize_to_string called.0).1)
        × (reply.1 ≡ record { m_msgid = request.m_msg_id; m_method_name = s.method_name })
        × (reply.2 ≡ called.1)
  unfolding dispatch invoke
  dispatch-served s =
      ground (arith, s.name, s.service_found, s.method_found, s.parsed, s.serialized)

  -- A request that is refused before the service call leaves the world and the `RunTime` alone. The one
  -- other error is that of the answer's serialization.
  pub dispatch-refused :
      reply.0.m_err_code ≢ pos 0
      → reply.0.m_err_code ≢ pos error_failed_serialize
      → (reply.1 ≡ run_time) × (reply.2 ≡ world)
  unfolding dispatch invoke set_tiny_pb_error
  dispatch-refused h k = ground arith

text_eq_dotted :
    (dotted plain : List ℕ)
    → ¬ All (λ c. c ≢ dot) dotted
    → All (λ c. c ≢ dot) plain
    → text_eq dotted plain ≡ false
text_eq_dotted dotted plain h k =
    text_eq_ne dotted plain (λ e. h (subst (All (λ c. c ≢ dot)) (sym e) k))

module _ {Method Message World : Type 0} (services : ServiceMap Method Message World)
    (service : Service Method Message World) (request response : TinyPbProtocol)
    (local peer : Option IpNetAddr) (run_time : RunTime) (world : World) where
  -- A service with a dot in its full name, as protobuf gives it inside a package, is never found:
  -- registering it changes no reply.
  pub dispatch-dotted_service :
      ¬ All (λ c. c ≢ dot) service.full_name
      → reply (register_service service services) request response local peer run_time world
        ≡ reply services request response local peer run_time world
  unfolding dispatch register_service
  dispatch-dotted_service h = go (parse_service_full_name request.m_method_name) refl
    where
      go :
          (o : Option (List ℕ × List ℕ))
          → parse_service_full_name request.m_method_name ≡ o
          → reply (register_service service services) request response local peer run_time world
            ≡ reply services request response local peer run_time world
      go none e = rw (e, dispatch)
      go (some (sn, mn)) e =
          let s : Splits dot request.m_method_name (some (sn, mn)) =
            subst (Splits dot request.m_method_name) e
              (parse_service_full_name-Splits request.m_method_name) in
          rw
            (
              e,
              dispatch,
              lookup-insert service.full_name sn service services,
              text_eq_dotted service.full_name sn h s.1,
            )
            refl

  abbrev pub called : Method → Message → Message × World
  called method req_msg =
      service.call_method method (handler_controller request.m_msg_id local peer) req_msg world

  abbrev pub answer : TinyPbProtocol × RunTime × World
  answer = reply (register_service service services) request response local peer run_time world

  -- A registered service whose full name has no dot serves the requests of its name, where its method
  -- is there, the payload parses and the answer serializes.
  pub register_service-served :
      (method_name : List ℕ) (method : Method) (req_msg : Message)
      → All (λ c. c ≢ dot) service.full_name
      → request.m_method_name ≡ service.full_name ++ dot ∷ method_name
      → service.find_method_by_name method_name ≡ some method
      → service.parse_from_string method request.m_pb_data ≡ some req_msg
      → (service.serialize_to_string (called method req_msg).0).0 ≡ true
      → (answer.0.m_err_code ≡ pos 0)
        × (answer.0.m_pb_data ≡ (service.serialize_to_string (called method req_msg).0).1)
        × (answer.2 ≡ (called method req_msg).1)
  unfolding dispatch register_service invoke
  register_service-served mn method q h e f g k =
      let name =
        ap parse_service_full_name e ∙ parse_service_full_name-join service.full_name mn h in
      let found : lookup service.full_name (insert service.full_name service services)
          ≡ some service =
        rw
          (
            lookup-insert service.full_name service.full_name service services,
            text_eq_refl service.full_name,
          )
          refl in
      ground (arith, name, found, f, g, k)
