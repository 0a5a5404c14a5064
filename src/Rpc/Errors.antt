-- ===== src/Rpc/Errors.antt =====
-- RpcFramework/rocket/common/error_code.h
use rpc_framework.Base.{ℕ}

abbrev pub error_peer_closed : ℕ
error_peer_closed = 10000000

abbrev pub error_failed_connect : ℕ
error_failed_connect = 10000001

abbrev pub error_failed_get_reply : ℕ
error_failed_get_reply = 10000002

abbrev pub error_failed_deserialize : ℕ
error_failed_deserialize = 10000003

abbrev pub error_failed_serialize : ℕ
error_failed_serialize = 10000004

abbrev pub error_failed_encode : ℕ
error_failed_encode = 10000005

abbrev pub error_failed_decode : ℕ
error_failed_decode = 10000006

abbrev pub error_rpc_call_timeout : ℕ
error_rpc_call_timeout = 10000007

abbrev pub error_service_not_found : ℕ
error_service_not_found = 10000008

abbrev pub error_method_not_found : ℕ
error_method_not_found = 10000009

abbrev pub error_parse_service_name : ℕ
error_parse_service_name = 10000010

abbrev pub error_rpc_channel_init : ℕ
error_rpc_channel_init = 10000011

abbrev pub error_rpc_peer_addr : ℕ
error_rpc_peer_addr = 10000012
