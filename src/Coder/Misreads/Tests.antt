-- ===== src/Coder/Misreads/Tests.antt =====
-- Bytes that are misread, and the theorems about them applied to them.
use rpc_framework.Base.{ℕ, ◌≡◌, refl, List, [], ◌∷◌, ◌++◌, some, arith, replicate}
use rpc_framework.Base.Int.{pos}
use rpc_framework.Buffer.{TcpBuffer}
use rpc_framework.Coder.{packet, packet_size, net_bytes, pb_start}
use rpc_framework.Coder.Decoder.{decode_round, decode, faults}
use rpc_framework.Coder.Fields.{arrived}
use rpc_framework.Coder.Misreads.{
  decode-repeats, decode_round-takes_inner, decode-faults_on_short_head,
}
use rpc_framework.Coder.RoundTrip.{IsOpen, packets}
use rpc_framework.Coder.Tests.{ping, inbox, ping-IsSendable, inbox-IsOpen}

-- As many zeros as the packet of `ping` is long, and the packet.
abbrev behind_junk : List ℕ
behind_junk = replicate 31 0 ++ packets (ping ∷ [])

decode-repeats_example :
    (c : TcpBuffer) × (decode 3 [] (inbox behind_junk)
      ≡ decode 1 (arrived ping ∷ arrived ping ∷ []) c)
    × IsOpen c
unfolding packet packet_size net_bytes
decode-repeats_example =
    decode-repeats 1 [] (replicate 31 0) [] (inbox behind_junk) ping
      (inbox-IsOpen behind_junk (omega arith)) ping-IsSendable (ground arith) (omega arith) refl

-- The head of a packet of 100 bytes, and in it the packet of `ping`.
abbrev outer : List ℕ
outer = (pb_start ∷ (net_bytes (pos 100) ++ 0 ∷ [])) ++ packets (ping ∷ [])

decode_round-takes_inner_example :
    (c : TcpBuffer) × (decode_round (inbox outer) ≡ some (some (some (arrived ping), c))) × IsOpen c
unfolding packet packet_size net_bytes
decode_round-takes_inner_example =
    decode_round-takes_inner 100 (0 ∷ []) [] (inbox outer) ping (inbox-IsOpen outer (omega arith))
      ping-IsSendable (ground arith) refl (omega arith) (omega arith)

-- A new buffer with the first two bytes of a packet.
abbrev short_head : TcpBuffer
short_head = record {
  m_read_index = 0;
  m_write_index = 2;
  m_size = 8;
  m_buffer = pb_start ∷ replicate 7 0;
}

decode-faults_on_short_head_example : decode 5 [] short_head ≡ faults
decode-faults_on_short_head_example =
    decode-faults_on_short_head 4 [] (replicate 3 0) short_head refl (omega arith) refl
