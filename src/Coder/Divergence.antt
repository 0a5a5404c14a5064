-- ===== src/Coder/Divergence.antt =====
-- tinypb_coder.cpp: inputs on which `decode` never leaves `while (1)`.
use rpc_framework.Base.{
  ℕ, zero, suc, ◌+◌, ◌-◌, ◌^◌, ◌<◌, ◌≤◌, ◌≡◌, refl, ap, ◌∙◌, List, [], ◌∷◌, ◌++◌, none, some, true,
  false, length, arith, le→leb, lt→ltb, subst,
}
use rpc_framework.Base.Int.{pos, ◌+ℤ◌, ◌-ℤ◌, index, ltb_ℤ}
use rpc_framework.Buffer.{TcpBuffer, IsValid, readable}
use rpc_framework.Buffer.Laws.{length-readable}
use rpc_framework.Buffer.Moves.{move_read_index-readable, move_read_index-refused}
use rpc_framework.Coder.{TinyPbProtocol, net_bytes, packet, packet_size, pb_start, pb_end}
use rpc_framework.Coder.Decoder.{
  parse_fields, packet_end, packet_at, find_packet, decode_round, decode, runs_on,
}
use rpc_framework.Coder.Located.{At, At-head, At-tail, At-readable, get_elem?-At, get_int32-At}
use rpc_framework.Coder.Fields.{IsSendable, arrived, packet-Parts, parse_fields-packet}
use rpc_framework.Coder.RoundTrip.{
  IsOpen, packet_at-Parts, two_le-packet_size, length-packet, find_packet-here, packet_span,
}

-- Where the unread bytes are one packet that ends with the vector, a turn delivers the message and
-- leaves the buffer as it was.
decode_round-at_end :
    (b : TcpBuffer) (m : TinyPbProtocol)
    → IsValid b
    → b.m_write_index ≡ length b.m_buffer
    → length b.m_buffer < 2 ^ 31
    → IsSendable m
    → readable b ≡ packet m (pos (packet_size m))
    → decode_round b ≡ some (some (some (arrived m), b))
unfolding decode_round
decode_round-at_end b m v full small s e =
    let size = packet_size m in
    let r = b.m_read_index in
    let long : r + size ≡ b.m_write_index =
      omega (arith, v.ordered, length-readable v, ap length e, length-packet m (pos size)) in
    let two : 2 ≤ size = two_le-packet_size m in
    let parts = packet-Parts b.m_buffer r m s (subst (At b.m_buffer r) e (At-readable b v)) in
    let found =
      packet_at-Parts b.m_buffer b.m_write_index r m s parts two (omega arith) (omega arith) in
    rw
      (
        find_packet-here (b.m_write_index - r) b.m_buffer b.m_write_index r _ _ (omega arith) found,
        packet_span r size (omega arith),
        move_read_index-refused size b (omega arith),
        parse_fields-packet b.m_buffer r m s parts,
      )
      refl

-- Where the unread bytes of a valid buffer below 2 GB are the packet of a sendable message that
-- ends where the vector ends, `decode` returns after no number of turns.
pub decode-runs_on_at_end :
    (fuel : ℕ) (out : List TinyPbProtocol) (b : TcpBuffer) (m : TinyPbProtocol)
    → IsValid b
    → b.m_write_index ≡ length b.m_buffer
    → length b.m_buffer < 2 ^ 31
    → IsSendable m
    → readable b ≡ packet m (pos (packet_size m))
    → decode fuel out b ≡ runs_on
unfolding decode
decode-runs_on_at_end zero out b m v full small s e = refl
decode-runs_on_at_end (suc fuel) out b m v full small s e =
    rw (decode_round-at_end b m v full small s e, decode)
      (decode-runs_on_at_end fuel (out ++ arrived m ∷ []) b m v full small s e)

-- An end byte, and a packet head that announces the length 0.
abbrev pub null_packet : List ℕ → List ℕ
null_packet rest = pb_end ∷ pb_start ∷ 0 ∷ 0 ∷ 0 ∷ 0 ∷ rest

find_packet-next :
    (n : ℕ) (temp : List ℕ) (w i : ℕ)
    → 0 < n
    → packet_at temp w i ≡ some none
    → find_packet n temp w i ≡ find_packet (n - 1) temp w (i + 1)
unfolding find_packet
find_packet-next zero temp w i h e = elim h [ ]
find_packet-next (suc n) temp w i h e =
    let pred : suc n - 1 ≡ n = omega arith in rw (e, pred, find_packet)

null_end :
    (i w : ℕ)
    → i + 1 < w
    → w < 2 ^ 31
    → (ltb_ℤ (pos (2 ^ 31 - 1)) (pos (i + 1) +ℤ pos 0) ≡ false)
      × (ltb_ℤ (pos (i + 1) +ℤ pos 0 -ℤ pos 1) (pos w) ≡ true)
      × (index (pos (i + 1) +ℤ pos 0 -ℤ pos 1) ≡ some i)
null_end i w h k = (ground arith, ground arith, ground arith)

null_span : (i : ℕ) → pos i -ℤ pos (i + 1) +ℤ pos 1 ≡ pos 0
null_span i = ground arith

packet_at-null :
    (temp : List ℕ) (w i : ℕ) (rest : List ℕ)
    → At temp i (null_packet rest)
    → i + 2 < w
    → w < 2 ^ 31
    → (packet_at temp w i ≡ some none) × (packet_at temp w (i + 1) ≡ some (some (pos 0, i)))
unfolding packet_at packet_end net_bytes
packet_at-null temp w i rest a h k =
    let b = At-tail (pb_end ∷ []) (pb_start ∷ 0 ∷ 0 ∷ 0 ∷ 0 ∷ rest) a in
    let c : At temp (i + 1 + 1) (net_bytes (pos 0)) =
      At-head (0 ∷ 0 ∷ 0 ∷ 0 ∷ []) rest (At-tail (pb_start ∷ []) (0 ∷ 0 ∷ 0 ∷ 0 ∷ rest) b) in
    let e = null_end i w (omega arith) k in
    (
      rw (get_elem?-At a) refl,
      rw
          (
            get_elem?-At b,
            lt→ltb (i + 1 + 1) w (omega arith),
            get_int32-At (pos 0) (omega arith) c,
            e.0,
            e.1,
            e.2,
            get_elem?-At a,
          )
          refl,
    )

-- Such bytes are taken for a packet, refused, and left unread.
decode_round-null :
    (b : TcpBuffer) (rest : List ℕ)
    → IsOpen b
    → readable b ≡ null_packet rest
    → (c : TcpBuffer) × (decode_round b ≡ some (some (none, c)))
      × IsOpen c
      × (readable c ≡ null_packet rest)
unfolding decode_round parse_fields
decode_round-null b rest o e =
    let r = b.m_read_index in
    let long : r + 6 ≤ b.m_write_index =
      omega (arith, o.valid.ordered, length-readable o.valid, ap length e) in
    let p =
      packet_at-null b.m_buffer b.m_write_index r rest
        (subst (At b.m_buffer r) e (At-readable b o.valid)) (omega arith)
        (omega (arith, o.room, o.small)) in
    let moved = move_read_index-readable 0 b o.valid (omega arith) (omega (arith, o.room)) in
    (
      moved.result,
      rw
          (
            find_packet-next (b.m_write_index - r) b.m_buffer b.m_write_index r (omega arith) p.0,
            find_packet-here (b.m_write_index - r - 1) b.m_buffer b.m_write_index (r + 1) _ _
                (omega arith) p.1,
            null_span r,
            moved.returns,
            le→leb r (r + 1 + 1 + 4) (omega arith),
          )
          refl,
      record {
        valid = moved.valid;
        room = omega (arith, moved.bounded, moved.capacity, o.room);
        small = omega (arith, moved.capacity, o.small);
      },
      moved.bytes ∙ e,
    )

-- With an end byte, a start byte and the length 0 as the first unread bytes of a buffer below 2 GB
-- that has room behind its bytes, `decode` returns after no number of turns, whatever follows
-- them.
pub decode-runs_on_null_packet :
    (fuel : ℕ) (out : List TinyPbProtocol) (b : TcpBuffer) (rest : List ℕ)
    → IsOpen b
    → readable b ≡ null_packet rest
    → decode fuel out b ≡ runs_on
unfolding decode
decode-runs_on_null_packet zero out b rest o e = refl
decode-runs_on_null_packet (suc fuel) out b rest o e =
    let (c, d, p, r) = decode_round-null b rest o e in
    rw (d, decode) (decode-runs_on_null_packet fuel out c rest p r)
