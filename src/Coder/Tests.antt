-- ===== src/Coder/Tests.antt =====
-- Inputs for the coder, and its theorems applied to them.
use rpc_framework.Base.{
  ◌+◌, ◌≤◌, ℕ, ◌+◌, ◌<◌, ◌≡◌, refl, List, [], ◌∷◌, ◌++◌, some, length, length-append, arith, ◌^◌,
}
use rpc_framework.Base.Int.{pos}
use rpc_framework.Buffer.{TcpBuffer, CanTake, IsValid, readable}
use rpc_framework.Coder.{TinyPbProtocol, new_message, packet, packet_size, encode, net_bytes}
use rpc_framework.Coder.Decoder.{decode_round, decode, returns, runs_on}
use rpc_framework.Coder.Fields.{IsSendable, arrived}
use rpc_framework.Coder.RoundTrip.{
  IsOpen, IsDrained, packets, decode_round-packet, decode-packets, encode-readable,
}
use rpc_framework.Coder.Divergence.{null_packet, decode-runs_on_at_end, decode-runs_on_null_packet}

abbrev pub ping : TinyPbProtocol
ping = record new_message {
  m_msg_id = 49 ∷ [];
  m_method_name = 65 ∷ 46 ∷ 98 ∷ [];
  m_pb_data = 7 ∷ [];
}

abbrev pub pong : TinyPbProtocol
pong = record new_message { m_msg_id = 50 ∷ []; m_method_name = 65 ∷ 46 ∷ 99 ∷ [] }

-- A buffer with these unread bytes, and one more place.
abbrev pub inbox : List ℕ → TcpBuffer
inbox xs = record {
  m_read_index = 0;
  m_write_index = length xs;
  m_size = length xs + 1;
  m_buffer = xs ++ 0 ∷ [];
}

-- A buffer that these unread bytes fill.
abbrev pub full : List ℕ → TcpBuffer
full xs = record { m_read_index = 0; m_write_index = length xs; m_size = length xs; m_buffer = xs }

pub ping-IsSendable : IsSendable ping
unfolding packet_size
ping-IsSendable = record {
  id_fits = record { short = omega arith; no_nul = ground arith };
  name_fits = record { short = omega arith; no_nul = ground arith };
  info_fits = record { short = omega arith; no_nul = tt };
  code_fits = omega arith;
  size_fits = omega arith;
}

pub inbox-IsOpen : (xs : List ℕ) → length xs < 2 ^ 30 → IsOpen (inbox xs)
inbox-IsOpen xs h = record {
  valid = record { ordered = omega arith; within = ground (arith, length-append xs (0 ∷ [])) };
  room = ground (arith, length-append xs (0 ∷ []));
  small = ground (arith, length-append xs (0 ∷ []));
}

decode_round-packet_example :
    (c : TcpBuffer) × (decode_round (inbox (packets (ping ∷ [])))
      ≡ some (some (some (arrived ping), c)))
    × IsDrained (inbox (packets (ping ∷ []))) c
    × (readable c ≡ [])
unfolding packet packet_size net_bytes
decode_round-packet_example =
    decode_round-packet (inbox (packets (ping ∷ []))) ping []
      (inbox-IsOpen (packets (ping ∷ [])) (omega arith)) ping-IsSendable refl

decode-packets_example :
    (c : TcpBuffer) × (decode 3 [] (inbox (packets (ping ∷ ping ∷ [])))
      ≡ returns (arrived ping ∷ arrived ping ∷ []) c)
    × IsDrained (inbox (packets (ping ∷ ping ∷ []))) c
    × (readable c ≡ [])
unfolding packet packet_size net_bytes
decode-packets_example =
    decode-packets (ping ∷ ping ∷ []) (inbox (packets (ping ∷ ping ∷ []))) []
      (inbox-IsOpen (packets (ping ∷ ping ∷ [])) (omega arith))
      (ping-IsSendable, (ping-IsSendable, tt)) refl

ping-CanTake : CanTake (length (packets (ping ∷ []))) (inbox (1 ∷ 2 ∷ []))
unfolding packet packet_size net_bytes
ping-CanTake = record {
  valid = record { ordered = omega arith; within = omega arith };
  small = omega arith;
}

encode-readable_example :
    (sent : List TinyPbProtocol) × (c : TcpBuffer) × (encode (ping ∷ []) (inbox (1 ∷ 2 ∷ []))
      ≡ some (sent, c))
    × IsValid c
    × (readable c ≡ (1 ∷ 2 ∷ []) ++ packets (ping ∷ []))
    × (c.m_write_index ≤ 2 + length (packets (ping ∷ [])))
encode-readable_example =
    encode-readable (ping ∷ []) (inbox (1 ∷ 2 ∷ [])) ping-CanTake (ping-IsSendable, tt)

decode-runs_on_at_end_example :
    decode 1000 [] (full (packet ping (pos (packet_size ping)))) ≡ runs_on
unfolding packet packet_size net_bytes
decode-runs_on_at_end_example =
    decode-runs_on_at_end 1000 [] (full (packet ping (pos (packet_size ping)))) ping
      (record { ordered = omega arith; within = omega arith }) refl (omega arith) ping-IsSendable
      refl

decode-runs_on_null_packet_example : decode 1000 [] (inbox (null_packet (1 ∷ 2 ∷ []))) ≡ runs_on
decode-runs_on_null_packet_example =
    decode-runs_on_null_packet 1000 [] (inbox (null_packet (1 ∷ 2 ∷ []))) (1 ∷ 2 ∷ [])
      (inbox-IsOpen (null_packet (1 ∷ 2 ∷ [])) (omega arith)) refl
