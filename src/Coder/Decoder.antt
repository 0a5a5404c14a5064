-- ===== src/Coder/Decoder.antt =====
-- tinypb_coder.cpp: `TinyPBCoder::decode`, which looks for packets among the unread bytes.
use rpc_framework.Base.{
  ℕ, zero, suc, ◌+◌, ◌-◌, ◌*◌, ◌^◌, true, not, List, [], ◌∷◌, ◌++◌, Option, none, some, ◌>>=◌,
  get_elem?, ltb, leb, ◌==◌, ◌&&◌, if◌then◌else◌,
}
use rpc_framework.Base.Int.{ℤ, pos, signed32, ltb_ℤ, ◌+ℤ◌, ◌-ℤ◌, index}
use rpc_framework.Buffer.{TcpBuffer, copy_from, move_read_index}
use rpc_framework.Coder.{TinyPbProtocol, new_message, pb_start, pb_end}

-- The number that four bytes stand for, the highest first.
unfoldable pub net_int : List ℕ → Option ℤ
net_int (a ∷ b ∷ c ∷ d ∷ []) = some (signed32 (a * 2 ^ 24 + b * 2 ^ 16 + c * 2 ^ 8 + d))
net_int other = none

unfoldable pub get_int32_from_net_byte : List ℕ → ℕ → Option ℤ
unfolding net_int copy_from
get_int32_from_net_byte temp i = do bytes ← copy_from temp i 4; net_int bytes

-- The end of a packet of length `pk_len` that would begin at `i`: none where it has not arrived, or
-- where there is no end byte.
unfoldable pub packet_end : List ℕ → ℕ → ℕ → ℤ → Option (Option ℕ)
packet_end temp write_index i pk_len =
    if ltb_ℤ (pos (2 ^ 31 - 1)) (pos i +ℤ pk_len)
    then none
    else if not (ltb_ℤ (pos i +ℤ pk_len -ℤ pos 1) (pos write_index))
    then some none
    else do
      j ← index (pos i +ℤ pk_len -ℤ pos 1)
      c ← get_elem? temp j
      some (if c == pb_end then some j else none)

-- One round of the search: the length and the end of a packet that begins at `i`.
unfoldable pub packet_at : List ℕ → ℕ → ℕ → Option (Option (ℤ × ℕ))
unfolding packet_end get_int32_from_net_byte
packet_at temp write_index i = do
  c ← get_elem? temp i
  if not ((c == pb_start) && ltb (i + 1) write_index) then some none else do
    pk_len ← get_int32_from_net_byte temp (i + 1)
    end ← packet_end temp write_index i pk_len
    elim end [ none ↦ some none | some j ↦ some (some (pk_len, j)) ]

-- The search over the `n` unread bytes from `i` on: the packet's start, length and end.
unfoldable pub find_packet : ℕ → List ℕ → ℕ → ℕ → Option (Option (ℕ × ℤ × ℕ))
unfolding packet_at
find_packet zero temp write_index i = some none
find_packet (suc n) temp write_index i =
    let rest = find_packet n temp write_index (i + 1) in
    elim (packet_at temp write_index i) [
      | none ↦ none
      | some none ↦ rest
      | some (some (pk_len, j)) ↦ some (some (i, pk_len, j))
    ]

-- What `std::string(array)` reads from an array of `cap` zeros that `bytes` were copied into.
unfoldable pub c_string : ℕ → List ℕ → Option (List ℕ)
c_string zero bytes = none
c_string (suc cap) [] = some []
c_string (suc cap) (c ∷ bytes) =
    let rest = c_string cap bytes in
    if c == 0 then some [] else elim rest [ none ↦ none | some s ↦ some (c ∷ s) ]

-- `char array[cap] = {0}; memcpy(array, &temp[i], len); std::string(array)`
unfoldable pub string_field : ℕ → List ℕ → ℕ → ℤ → Option (List ℕ)
unfolding c_string copy_from
string_field cap temp i len = do
  n ← index len
  bytes ← copy_from temp i n
  if leb n cap then c_string cap bytes else none

-- The fields of a packet from `start_index` to `end_index`: none where an index runs past the end.
unfoldable pub parse_fields : List ℕ → ℕ → ℕ → ℤ → Option (Option TinyPbProtocol)
unfolding string_field get_int32_from_net_byte
parse_fields temp start_index end_index pk_len =
    let msg_id_len_index = start_index + 1 + 4 in
    if leb end_index msg_id_len_index then some none else do
      msg_id_len ← get_int32_from_net_byte temp msg_id_len_index
      let msg_id_index = msg_id_len_index + 4
      msg_id ← string_field 100 temp msg_id_index msg_id_len
      method_name_len_index ← index (pos msg_id_index +ℤ msg_id_len)
      if leb end_index method_name_len_index then some none else do
        method_name_len ← get_int32_from_net_byte temp method_name_len_index
        let method_name_index = method_name_len_index + 4
        method_name ← string_field 512 temp method_name_index method_name_len
        err_code_index ← index (pos method_name_index +ℤ method_name_len)
        if leb end_index err_code_index then some none else do
          err_code ← get_int32_from_net_byte temp err_code_index
          let error_info_len_index = err_code_index + 4
          if leb end_index error_info_len_index then some none else do
            err_info_len ← get_int32_from_net_byte temp error_info_len_index
            let error_info_index = error_info_len_index + 4
            err_info ← string_field 512 temp error_info_index err_info_len
            pb_data_len ←
                index (pk_len -ℤ method_name_len -ℤ msg_id_len -ℤ err_info_len -ℤ pos 2 -ℤ pos 24)
            pb_data_index ← index (pos error_info_index +ℤ err_info_len)
            pb_data ← copy_from temp pb_data_index pb_data_len
            some (
                some (record new_message {
                  m_msg_id = msg_id;
                  m_pk_len = pk_len;
                  m_msg_id_len = msg_id_len;
                  m_method_name_len = method_name_len;
                  m_method_name = method_name;
                  m_err_code = err_code;
                  m_err_info_len = err_info_len;
                  m_err_info = err_info;
                  m_pb_data = pb_data;
                  parse_success = true;
                }))

-- One turn of `while (1)`: none returns; otherwise the message, if it parses, and the buffer with the
-- read index moved.
unfoldable pub decode_round : TcpBuffer → Option (Option (Option TinyPbProtocol × TcpBuffer))
unfolding find_packet parse_fields
decode_round buffer = do
  let temp = buffer.m_buffer
  let unread = buffer.m_write_index - buffer.m_read_index
  found ← find_packet unread temp buffer.m_write_index buffer.m_read_index
  elim found [
    | none ↦ some none
    | some (start_index, pk_len, end_index) ↦ do
      moved ← move_read_index (pos end_index -ℤ pos start_index +ℤ pos 1) buffer
      message ← parse_fields temp start_index end_index pk_len
      some (some (message, moved))
  ]

pub data Decoded : Type 0 where
  returns : List TinyPbProtocol → TcpBuffer → Decoded
  faults : Decoded
  runs_on : Decoded

-- `decode` for at most `fuel` turns, with the messages found so far.
unfoldable pub decode : ℕ → List TinyPbProtocol → TcpBuffer → Decoded
decode zero out_messages buffer = runs_on
decode (suc fuel) out_messages buffer = elim (decode_round buffer) [
  | none ↦ faults
  | some none ↦ returns out_messages buffer
  | some (some (none, moved)) ↦ decode fuel out_messages moved
  | some (some (some message, moved)) ↦ decode fuel (out_messages ++ message ∷ []) moved
]
