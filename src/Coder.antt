-- ===== src/Coder.antt =====
-- RpcFramework/rocket/net/coder: the TinyPB packets (tinypb_protocol.h and .cpp, tinypb_coder.cpp),
-- `getInt32FromNetByte` (common/util.cpp) and the string coder (string_coder.h). Bytes are numbers
-- below 256. An access outside a vector or array, an `int` sum that overflows and a string of negative
-- length are faults (`none`). Memory is never exhausted.
pub mod Decoder
pub mod Located
pub mod Fields
pub mod RoundTrip
pub mod Search
pub mod Misreads
pub mod Waiting
pub mod Divergence
pub mod Strings
pub mod Tests
use rpc_framework.Base.{
  ℕ, ◌+◌, ◌*◌, ◌/◌, ◌%◌, ◌^◌, Bool, true, false, List, [], ◌∷◌, ◌++◌, Option, none, some, ◌>>=◌,
  take, length, ◌==◌, if◌then◌else◌,
}
use rpc_framework.Base.Int.{ℤ, pos, signed32, bits32, pos_part}
use rpc_framework.Buffer.{TcpBuffer, write_to_buffer}

-- `AbstractProtocol` has the message id, `TinyPBProtocol` the other fields.
pub record TinyPbProtocol : Type 0 where
  pub m_msg_id : List ℕ
  pub m_pk_len : ℤ
  pub m_msg_id_len : ℤ
  pub m_method_name_len : ℤ
  pub m_method_name : List ℕ
  pub m_err_code : ℤ
  pub m_err_info_len : ℤ
  pub m_err_info : List ℕ
  pub m_pb_data : List ℕ
  pub m_check_sum : ℤ
  pub parse_success : Bool

-- A new message.
abbrev pub new_message : TinyPbProtocol
new_message = record {
  m_msg_id = [];
  m_pk_len = pos 0;
  m_msg_id_len = pos 0;
  m_method_name_len = pos 0;
  m_method_name = [];
  m_err_code = pos 0;
  m_err_info_len = pos 0;
  m_err_info = [];
  m_pb_data = [];
  m_check_sum = pos 0;
  parse_success = false;
}

abbrev pub pb_start : ℕ
pb_start = 0x02

abbrev pub pb_end : ℕ
pb_end = 0x03

-- `htonl` and `memcpy`: the four bytes of an `int`, the highest first.
unfoldable pub net_bytes : ℤ → List ℕ
net_bytes z =
    let w = bits32 z in (w / 2 ^ 24 % 256) ∷ (w / 2 ^ 16 % 256) ∷ (w / 2 ^ 8 % 256) ∷ (w % 256) ∷ []

-- A `size_t` length as an `int`.
unfoldable pub int_length : ℕ → ℤ
int_length n = signed32 (n % 2 ^ 32)

-- "123456789"
abbrev pub default_msg_id : List ℕ
default_msg_id = 49 ∷ 50 ∷ 51 ∷ 52 ∷ 53 ∷ 54 ∷ 55 ∷ 56 ∷ 57 ∷ []

abbrev pub or_default : List ℕ → List ℕ
or_default [] = default_msg_id
or_default (c ∷ cs) = c ∷ cs

-- The bytes that are written to the packet, in order.
unfoldable pub packet : TinyPbProtocol → ℤ → List ℕ
packet m pk_len =
    pb_start
    ∷ (net_bytes pk_len
        ++ (net_bytes (int_length (length m.m_msg_id))
            ++ (m.m_msg_id
                ++ (net_bytes (int_length (length m.m_method_name))
                    ++ (m.m_method_name
                        ++ (net_bytes m.m_err_code
                            ++ (net_bytes (int_length (length m.m_err_info))
                                ++ (m.m_err_info
                                    ++ (m.m_pb_data ++ (net_bytes (pos 1) ++ (pb_end ∷ [])))))))))))

unfoldable pub packet_size : TinyPbProtocol → ℕ
packet_size m =
    2 + 24 + length m.m_msg_id + length m.m_method_name + length m.m_err_info + length m.m_pb_data

-- `encodeTinyPB`: the message with its lengths filled in, the packet and its length.
unfoldable pub encode_tiny_pb : TinyPbProtocol → TinyPbProtocol × List ℕ × ℤ
encode_tiny_pb message =
    let m = record message { m_msg_id = or_default message.m_msg_id } in
    let pk_len = int_length (packet_size m) in
    (
      record m {
        m_pk_len = pk_len;
        m_msg_id_len = int_length (length m.m_msg_id);
        m_method_name_len = int_length (length m.m_method_name);
        m_err_info_len = int_length (length m.m_err_info);
        parse_success = true;
      },
      packet m pk_len,
      pk_len,
    )

-- `encode`: each packet goes to the end of the buffer, and each message keeps its lengths.
unfoldable pub encode : List TinyPbProtocol → TcpBuffer → Option (List TinyPbProtocol × TcpBuffer)
encode [] out_buffer = some ([], out_buffer)
encode (m ∷ messages) out_buffer = do
  let encoded = encode_tiny_pb m
  let len = pos_part encoded.2
  written ← if len == 0 then some out_buffer else write_to_buffer (take len encoded.1) out_buffer
  rest ← encode messages written
  some (encoded.0 ∷ rest.0, rest.1)
