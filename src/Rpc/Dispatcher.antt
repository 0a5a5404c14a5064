-- ===== src/Rpc/Dispatcher.antt =====
-- RpcFramework/rocket/net/rpc/rpc_dispatcher.h and rpc_dispatcher.cpp, and common/run_time.h. A service
-- is protobuf's: its descriptor, its parsing and printing of messages and its handler stand as the
-- fields of a record. `world` is whatever its handlers share.
use rpc_framework.Base.{
  ℕ, List, [], ◌∷◌, Option, none, some, Bool, length, lookup, insert, codes, if◌then◌else◌,
}
use rpc_framework.Base.Int.{pos}
use rpc_framework.Addr.{IpNetAddr, split_first}
use rpc_framework.Coder.{TinyPbProtocol, int_length}
use rpc_framework.Rpc.Controller.{
  RpcController, new_controller, set_local_addr, set_peer_addr, set_msg_id,
}
use rpc_framework.Rpc.Errors.{
  error_parse_service_name, error_service_not_found, error_method_not_found,
  error_failed_deserialize, error_failed_serialize,
}

-- `google::protobuf::Service` with the messages of its methods. `SerializeToString` reports its success
-- beside what it leaves in the output.
pub record Service (Method Message World : Type 0) : Type 0 where
  pub full_name : List ℕ
  pub find_method_by_name : List ℕ → Option Method
  pub parse_from_string : Method → List ℕ → Option Message
  pub call_method : Method → RpcController → Message → World → Message × World
  pub serialize_to_string : Message → Bool × List ℕ

-- `RunTime`, of the thread.
pub record RunTime : Type 0 where
  pub m_msgid : List ℕ
  pub m_method_name : List ℕ

abbrev pub dot : ℕ
dot = b'.'

-- `parseServiceFullName`: none where it logs and returns false.
unfoldable pub parse_service_full_name : List ℕ → Option (List ℕ × List ℕ)
parse_service_full_name [] = none
parse_service_full_name (c ∷ full_name) = split_first dot (c ∷ full_name)

-- `setTinyPBError`
unfoldable pub set_tiny_pb_error : ℕ → List ℕ → TinyPbProtocol → TinyPbProtocol
set_tiny_pb_error err_code err_info msg = record msg {
  m_err_code = pos err_code;
  m_err_info = err_info;
  m_err_info_len = int_length (length err_info);
}

-- The controller that a handler gets.
abbrev pub handler_controller : List ℕ → Option IpNetAddr → Option IpNetAddr → RpcController
handler_controller msg_id local peer =
    set_msg_id msg_id (set_peer_addr peer (set_local_addr local new_controller))

-- The dispatcher's state, `m_service_map`.
abbrev pub ServiceMap : Type 0 → Type 0 → Type 0 → Type 0
ServiceMap Method Message World = List (List ℕ × Service Method Message World)

module _ {Method Message World : Type 0} where
  unfoldable pub register_service :
      Service Method Message World
      → ServiceMap Method Message World
      → ServiceMap Method Message World
  register_service service m = insert service.full_name service m

  -- The end of `dispatch`, from the service call on.
  unfoldable pub invoke :
      Service Method Message World
      → Method
      → RpcController
      → Message
      → TinyPbProtocol
      → World
      → TinyPbProtocol × World
  invoke service method controller req_msg rsp world =
      let called = service.call_method method controller req_msg world in
      let written = service.serialize_to_string called.0 in
      let filled = record rsp { m_err_code = pos 0; m_pb_data = written.1 } in
      (
        if written.0
            then filled
            else set_tiny_pb_error error_failed_serialize (codes "serilize error") filled,
        called.1,
      )

  -- `dispatch` of a request whose connection has these addresses: the response, the thread's `RunTime`
  -- and the world after it.
  unfoldable pub dispatch :
      ServiceMap Method Message World
      → TinyPbProtocol
      → TinyPbProtocol
      → Option IpNetAddr
      → Option IpNetAddr
      → RunTime
      → World
      → TinyPbProtocol × RunTime × World
  dispatch services request response local peer run_time world =
      let rsp = record response {
        m_msg_id = request.m_msg_id;
        m_method_name = request.m_method_name;
      } in
      elim (parse_service_full_name request.m_method_name) [
        | none ↦ (
          set_tiny_pb_error error_parse_service_name (codes "parse service name error") rsp,
          run_time,
          world,
        )
        | some (service_name, method_name) ↦ elim (lookup service_name services) [
          | none ↦ (
            set_tiny_pb_error error_service_not_found (codes "service not found") rsp,
            run_time,
            world,
          )
          | some service ↦ elim (service.find_method_by_name method_name) [
            | none ↦ (
              set_tiny_pb_error error_method_not_found (codes "method not found") rsp,
              run_time,
              world,
            )
            | some method ↦ elim (service.parse_from_string method request.m_pb_data) [
              | none ↦ (
                set_tiny_pb_error error_failed_deserialize (codes "deserilize error") rsp,
                run_time,
                world,
              )
              | some req_msg ↦
                  let controller = handler_controller request.m_msg_id local peer in
                  let done = invoke service method controller req_msg rsp world in
                  (
                    done.0,
                    record { m_msgid = request.m_msg_id; m_method_name = method_name },
                    done.1,
                  )
            ]
          ]
        ]
      ]
