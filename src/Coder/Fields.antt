-- ===== src/Coder/Fields.antt =====
-- tinypb_coder.cpp: the fields that `decode` reads from a packet which `encodeTinyPB` made.
use rpc_framework.Base.{
  ℕ, ◌+◌, ◌-◌, ◌^◌, ◌<◌, ◌≤◌, ◌≡◌, refl, ap, List, [], ◌∷◌, some, true, length, arith, lt→leb_false,
}
use rpc_framework.Base.Int.{pos, ◌+ℤ◌, ◌-ℤ◌, index, IsInt32}
use rpc_framework.Coder.{
  TinyPbProtocol, net_bytes, packet, packet_size, int_length, pb_start, pb_end,
}
use rpc_framework.Coder.Decoder.{parse_fields}
use rpc_framework.Coder.Located.{
  At, At-head, At-tail, At-move, copy_from-At, get_int32-At, string_field-At, FitsArray,
}

-- A message that the decoder's arrays hold, with a packet whose length is an `int`.
pub record IsSendable (m : TinyPbProtocol) : Type 0 where
  pub id_fits : FitsArray 100 m.m_msg_id
  pub name_fits : FitsArray 512 m.m_method_name
  pub info_fits : FitsArray 512 m.m_err_info
  pub code_fits : IsInt32 m.m_err_code
  pub size_fits : packet_size m < 2 ^ 31

-- The message that arrives: its lengths filled in, and no check sum.
abbrev pub arrived : TinyPbProtocol → TinyPbProtocol
arrived m = record m {
  m_pk_len = pos (packet_size m);
  m_msg_id_len = pos (length m.m_msg_id);
  m_method_name_len = pos (length m.m_method_name);
  m_err_info_len = pos (length m.m_err_info);
  m_check_sum = pos 0;
  parse_success = true;
}

pub int_length-pos : (n : ℕ) → n < 2 ^ 31 → int_length n ≡ pos n
unfolding int_length
int_length-pos n h = ground arith

index-add : (a b : ℕ) → index (pos a +ℤ pos b) ≡ some (a + b)
index-add a b = ground arith

sub-pos : (a b : ℕ) → b ≤ a → pos a -ℤ pos b ≡ pos (a - b)
sub-pos a b h = ground arith

-- `pb_data_len`
index-data_len :
    (size i n e d : ℕ)
    → size ≡ 2 + 24 + i + n + e + d
    → index (pos size -ℤ pos n -ℤ pos i -ℤ pos e -ℤ pos 2 -ℤ pos 24) ≡ some d
index-data_len size i n e d h =
    rw
      (
        sub-pos size n (omega arith),
        sub-pos (size - n) i (omega arith),
        sub-pos (size - n - i) e (omega arith),
        sub-pos (size - n - i - e) 2 (omega arith),
        sub-pos (size - n - i - e - 2) 24 (omega arith),
      )
      (ap some {x = size - n - i - e - 2 - 24} {y = d} (omega arith))

-- Where each part of a packet lies.
pub record Parts (temp : List ℕ) (start : ℕ) (m : TinyPbProtocol) : Type 0 where
  pub first : At temp start (pb_start ∷ [])
  pub pk_len : At temp (start + 1) (net_bytes (pos (packet_size m)))
  pub id_len : At temp (start + 1 + 4) (net_bytes (pos (length m.m_msg_id)))
  pub id : At temp (start + 1 + 4 + 4) m.m_msg_id
  pub name_len :
      At temp (start + 1 + 4 + 4 + length m.m_msg_id) (net_bytes (pos (length m.m_method_name)))
  pub name : At temp (start + 1 + 4 + 4 + length m.m_msg_id + 4) m.m_method_name
  pub code :
      At temp
        (start + 1 + 4 + 4 + length m.m_msg_id + 4 + length m.m_method_name)
        (net_bytes m.m_err_code)
  pub info_len :
      At temp
        (start + 1 + 4 + 4 + length m.m_msg_id + 4 + length m.m_method_name + 4)
        (net_bytes (pos (length m.m_err_info)))
  pub info :
      At temp
        (start + 1 + 4 + 4 + length m.m_msg_id + 4 + length m.m_method_name + 4 + 4)
        m.m_err_info
  pub payload :
      At temp
        (start
          + 1
          + 4
          + 4
          + length m.m_msg_id
          + 4
          + length m.m_method_name
          + 4
          + 4
          + length m.m_err_info)
        m.m_pb_data
  pub last : At temp (start + packet_size m - 1) (pb_end ∷ [])

pub packet-Parts :
    (temp : List ℕ) (start : ℕ) (m : TinyPbProtocol)
    → IsSendable m
    → At temp start (packet m (pos (packet_size m)))
    → Parts temp start m
unfolding packet packet_size net_bytes
packet-Parts temp start m s a =
    let i = m.m_msg_id in
    let n = m.m_method_name in
    let e = m.m_err_info in
    let d = m.m_pb_data in
    let id = int_length-pos (length i) (omega (arith, s.size_fits)) in
    let name = int_length-pos (length n) (omega (arith, s.size_fits)) in
    let info = int_length-pos (length e) (omega (arith, s.size_fits)) in
    let a1 = At-tail (pb_start ∷ []) _ a in
    let a2 = At-tail (net_bytes (pos (packet_size m))) _ a1 in
    let a3 = At-tail (net_bytes (int_length (length i))) _ a2 in
    let a4 = At-tail i _ a3 in
    let a5 = At-tail (net_bytes (int_length (length n))) _ a4 in
    let a6 = At-tail n _ a5 in
    let a7 = At-tail (net_bytes m.m_err_code) _ a6 in
    let a8 = At-tail (net_bytes (int_length (length e))) _ a7 in
    let a9 = At-tail e _ a8 in
    let a10 = At-tail d _ a9 in
    let a11 = At-tail (net_bytes (pos 1)) (pb_end ∷ []) a10 in
    record {
      first = At-head (pb_start ∷ []) _ a;
      pk_len = At-head (net_bytes (pos (packet_size m))) _ a1;
      id_len = rw id at (At-head (net_bytes (int_length (length i))) _ a2);
      id = At-head i _ a3;
      name_len = rw name at (At-head (net_bytes (int_length (length n))) _ a4);
      name = At-head n _ a5;
      code = At-head (net_bytes m.m_err_code) _ a6;
      info_len = rw info at (At-head (net_bytes (int_length (length e))) _ a7);
      info = At-head e _ a8;
      payload = At-head d _ a9;
      last = At-move (omega arith) a11;
    }

-- Parsing the fields of such a packet gives the message that arrives.
pub parse_fields-packet :
    (temp : List ℕ) (start : ℕ) (m : TinyPbProtocol)
    → IsSendable m
    → Parts temp start m
    → parse_fields temp start (start + packet_size m - 1) (pos (packet_size m))
      ≡ some (some (arrived m))
unfolding parse_fields packet_size
parse_fields-packet temp start m s p =
    let i = length m.m_msg_id in
    let n = length m.m_method_name in
    let e = length m.m_err_info in
    let d = length m.m_pb_data in
    let size = 2 + 24 + i + n + e + d in
    let end = start + size - 1 in
    let at = start + 1 + 4 in
    rw
      (
        lt→leb_false end at (omega arith),
        get_int32-At (pos i) (omega (arith, s.size_fits)) p.id_len,
        string_field-At 100 m.m_msg_id s.id_fits p.id,
        index-add (at + 4) i,
        lt→leb_false end (at + 4 + i) (omega arith),
        get_int32-At (pos n) (omega (arith, s.size_fits)) p.name_len,
        string_field-At 512 m.m_method_name s.name_fits p.name,
        index-add (at + 4 + i + 4) n,
        lt→leb_false end (at + 4 + i + 4 + n) (omega arith),
        get_int32-At m.m_err_code s.code_fits p.code,
        lt→leb_false end (at + 4 + i + 4 + n + 4) (omega arith),
        get_int32-At (pos e) (omega (arith, s.size_fits)) p.info_len,
        string_field-At 512 m.m_err_info s.info_fits p.info,
        index-data_len size i n e d refl,
        index-add (at + 4 + i + 4 + n + 4 + 4) e,
        copy_from-At p.payload,
      )
      refl
