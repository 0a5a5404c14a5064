-- ===== src/Coder/Search.antt =====
-- tinypb_coder.cpp: the search of `decode` over bytes where no packet begins.
use rpc_framework.Base.{
  ℕ, zero, suc, ◌+◌, ◌-◌, ◌^◌, ◌<◌, ◌≤◌, ◌≡◌, ◌≢◌, refl, ap, ◌∙◌, List, [], ◌∷◌, none, some, false,
  length, arith, All, lt→ltb, ==_false, drop,
}
use rpc_framework.Base.Int.{pos, ◌+ℤ◌, ◌-ℤ◌, ltb_ℤ}
use rpc_framework.Buffer.{TcpBuffer, readable}
use rpc_framework.Buffer.Moves.{move_read_index-readable}
use rpc_framework.Coder.{TinyPbProtocol, net_bytes, packet, packet_size, pb_start}
use rpc_framework.Coder.Decoder.{packet_end, packet_at, find_packet, decode_round}
use rpc_framework.Coder.Fields.{IsSendable, arrived, packet-Parts, parse_fields-packet}
use rpc_framework.Coder.Located.{At, At-tail, get_elem?-At, get_int32-At}
use rpc_framework.Coder.RoundTrip.{
  IsOpen, packet_at-Parts, find_packet-here, packet_span, two_le-packet_size,
}

-- At none of the `n` indices from `i` on the search finds a packet.
abbrev pub Quiet : List ℕ → ℕ → ℕ → ℕ → Type 0
Quiet temp w zero i = Unit
Quiet temp w (suc n) i = (packet_at temp w i ≡ some none) × Quiet temp w n (i + 1)

-- The search goes over such indices.
pub find_packet-Quiet :
    (k n : ℕ) (temp : List ℕ) (w i : ℕ)
    → Quiet temp w k i
    → find_packet (k + n) temp w i ≡ find_packet n temp w (i + k)
unfolding find_packet
find_packet-Quiet zero n temp w i q =
    let e : 0 + n ≡ n = omega arith in let f : i + 0 ≡ i = omega arith in rw (e, f) refl
find_packet-Quiet (suc k) n temp w i q =
    let e : suc k + n ≡ suc (k + n) = omega arith in
    let f : i + suc k ≡ i + 1 + k = omega arith in
    rw (e, f, q.0, find_packet) (find_packet-Quiet k n temp w (i + 1) q.1)

-- No byte is the start byte.
abbrev pub HasNoStart : List ℕ → Type 0
HasNoStart = All (λ c. c ≢ pb_start)

pub HasNoStart-Quiet :
    (xs : List ℕ) (temp : List ℕ) (w i : ℕ)
    → At temp i xs
    → HasNoStart xs
    → Quiet temp w (length xs) i
unfolding packet_at
HasNoStart-Quiet [] temp w i a h = tt
HasNoStart-Quiet (c ∷ xs) temp w i a h = (
  rw (get_elem?-At a, ==_false c pb_start h.0) refl,
  HasNoStart-Quiet xs temp w (i + 1) (At-tail (c ∷ []) xs a) h.1,
)

-- A packet's head whose packet ends behind the write index is passed over.
pub packet_at-incomplete :
    (temp : List ℕ) (w i size : ℕ)
    → At temp i (pb_start ∷ net_bytes (pos size))
    → i + 1 < w
    → w < i + size
    → i + size < 2 ^ 31
    → packet_at temp w i ≡ some none
unfolding packet_at packet_end
packet_at-incomplete temp w i size a h long small =
    let over : ltb_ℤ (pos (2 ^ 31 - 1)) (pos i +ℤ pos size) ≡ false = ground arith in
    let beyond : ltb_ℤ (pos i +ℤ pos size -ℤ pos 1) (pos w) ≡ false = ground arith in
    rw
      (
        get_elem?-At a,
        lt→ltb (i + 1) w h,
        get_int32-At (pos size) (omega arith) (At-tail (pb_start ∷ []) (net_bytes (pos size)) a),
        over,
        beyond,
      )
      refl

-- Where the packet of a sendable message lies behind indices at which the search finds nothing, one turn
-- of `decode` returns the message. It moves the read index by the packet's length from where it was.
pub decode_round-behind :
    (k : ℕ) (b : TcpBuffer) (m : TinyPbProtocol)
    → IsOpen b
    → IsSendable m
    → Quiet b.m_buffer b.m_write_index k b.m_read_index
    → b.m_read_index + k + packet_size m ≤ b.m_write_index
    → At b.m_buffer (b.m_read_index + k) (packet m (pos (packet_size m)))
    → (c : TcpBuffer) × (decode_round b ≡ some (some (some (arrived m), c)))
      × IsOpen c
      × (readable c ≡ drop (packet_size m) (readable b))
unfolding decode_round
decode_round-behind k b m o s q long a =
    let size = packet_size m in
    let r = b.m_read_index in
    let w = b.m_write_index in
    let two : 2 ≤ size = two_le-packet_size m in
    let parts = packet-Parts b.m_buffer (r + k) m s a in
    let found =
      packet_at-Parts b.m_buffer w (r + k) m s parts two long (omega (arith, o.room, o.small)) in
    let unread : w - r ≡ k + (w - r - k) = omega arith in
    let searched =
      ap (λ n. find_packet n b.m_buffer w r) unread
      ∙ find_packet-Quiet k (w - r - k) b.m_buffer w r q
      ∙ find_packet-here (w - r - k) b.m_buffer w (r + k) _ _ (omega arith) found in
    let moved = move_read_index-readable size b o.valid (omega arith) (omega (arith, o.room)) in
    (
      moved.result,
      rw
          (
            searched,
            packet_span (r + k) size (omega arith),
            moved.returns,
            parse_fields-packet b.m_buffer (r + k) m s parts,
          )
          refl,
      record {
        valid = moved.valid;
        room = omega (arith, moved.bounded, moved.capacity, o.room);
        small = omega (arith, moved.capacity, o.small);
      },
      moved.bytes,
    )

-- Where the search finds nothing at any unread index, `decode` returns.
pub decode_round-Quiet :
    (b : TcpBuffer)
    → Quiet b.m_buffer b.m_write_index (b.m_write_index - b.m_read_index) b.m_read_index
    → decode_round b ≡ some none
unfolding decode_round find_packet
decode_round-Quiet b q =
    let n = b.m_write_index - b.m_read_index in
    let e : n ≡ n + 0 = omega arith in
    rw (e, find_packet-Quiet n 0 b.m_buffer b.m_write_index b.m_read_index q) refl
