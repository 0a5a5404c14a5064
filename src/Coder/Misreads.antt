-- ===== src/Coder/Misreads.antt =====
-- tinypb_coder.cpp: bytes that `decode` takes for other messages than were sent, or cannot read.
pub mod Tests
use rpc_framework.Base.{
  ℕ, zero, suc, ◌+◌, ◌-◌, ◌^◌, ◌<◌, ◌≤◌, ◌≡◌, refl, ap, ◌∙◌, List, [], ◌∷◌, ◌++◌, none, some, true,
  length, arith, length-append, lt→ltb, subst, drop, drop-append_le,
}
use rpc_framework.Base.Int.{pos, ltb_ℤ, ◌+ℤ◌, ◌-ℤ◌}
use rpc_framework.Buffer.{TcpBuffer, readable}
use rpc_framework.Buffer.Laws.{length-readable}
use rpc_framework.Coder.{TinyPbProtocol, net_bytes, packet, packet_size, pb_start}
use rpc_framework.Coder.Decoder.{packet_at, packet_end, find_packet, decode_round, decode, faults}
use rpc_framework.Coder.Fields.{IsSendable, arrived}
use rpc_framework.Coder.Located.{At, At-head, At-tail, At-readable, get_elem?-At, get_int32-At}
use rpc_framework.Coder.RoundTrip.{IsOpen, length-packet}
use rpc_framework.Coder.Search.{
  HasNoStart, HasNoStart-Quiet, packet_at-incomplete, decode_round-behind,
}

-- Bytes before a packet, among which no start byte is.
decode_round-junk :
    (junk rest : List ℕ) (b : TcpBuffer) (m : TinyPbProtocol)
    → IsOpen b
    → IsSendable m
    → HasNoStart junk
    → readable b ≡ junk ++ (packet m (pos (packet_size m)) ++ rest)
    → (c : TcpBuffer) × (decode_round b ≡ some (some (some (arrived m), c)))
      × IsOpen c
      × (readable c ≡ drop (packet_size m) (junk ++ (packet m (pos (packet_size m)) ++ rest)))
decode_round-junk junk rest b m o s h e =
    let bytes = packet m (pos (packet_size m)) in
    let at = subst (At b.m_buffer b.m_read_index) e (At-readable b o.valid) in
    let quiet =
      HasNoStart-Quiet junk b.m_buffer b.m_write_index b.m_read_index
        (At-head junk (bytes ++ rest) at) h in
    let long : b.m_read_index + length junk + packet_size m ≤ b.m_write_index = omega (
      arith,
      o.valid.ordered,
      length-readable o.valid,
      ap length e,
      length-append junk (bytes ++ rest),
      length-append bytes rest,
      length-packet m (pos (packet_size m)),
    ) in
    let (c, f, p, r) =
      decode_round-behind (length junk) b m o s quiet long
        (At-head bytes rest (At-tail junk (bytes ++ rest) at)) in
    (c, f, p, r ∙ ap (drop (packet_size m)) e)

HasNoStart-drop : (n : ℕ) (xs : List ℕ) → HasNoStart xs → HasNoStart (drop n xs)
HasNoStart-drop zero xs h = h
HasNoStart-drop (suc n) [] h = h
HasNoStart-drop (suc n) (x ∷ xs) h = HasNoStart-drop n xs h.1

-- Where the unread bytes of a buffer below 2 GB with room behind them are the packet of one sendable
-- message behind at least as many other bytes, among which no start byte is, the first two turns of
-- `decode` hand the message over twice.
pub decode-repeats :
    (fuel : ℕ) (out : List TinyPbProtocol) (junk rest : List ℕ) (b : TcpBuffer) (m : TinyPbProtocol)
    → IsOpen b
    → IsSendable m
    → HasNoStart junk
    → packet_size m ≤ length junk
    → readable b ≡ junk ++ (packet m (pos (packet_size m)) ++ rest)
    → (c : TcpBuffer) × (decode (suc (suc fuel)) out b
        ≡ decode fuel ((out ++ arrived m ∷ []) ++ arrived m ∷ []) c)
      × IsOpen c
unfolding decode
decode-repeats fuel out junk rest b m o s h long e =
    let size = packet_size m in
    let bytes = packet m (pos size) in
    let (c, f, p, r) = decode_round-junk junk rest b m o s h e in
    let (d, g, q, r') =
      decode_round-junk (drop size junk) rest c m p s (HasNoStart-drop size junk h)
        (r ∙ drop-append_le size junk (bytes ++ rest) long) in
    (d, rw (f, decode, g) refl, q)

-- Where a packet's head has arrived, but not its end, and a whole packet of a sendable message lies among the
-- bytes behind the head, with no start byte between, a turn of `decode` hands that message over, as if it
-- had been sent. The buffer is below 2 GB, has room, and so has the announced size.
pub decode_round-takes_inner :
    (size : ℕ) (gap rest : List ℕ) (b : TcpBuffer) (inner : TinyPbProtocol)
    → IsOpen b
    → IsSendable inner
    → HasNoStart (net_bytes (pos size) ++ gap)
    → readable b
      ≡ (pb_start ∷ (net_bytes (pos size) ++ gap))
        ++ (packet inner (pos (packet_size inner)) ++ rest)
    → length (readable b) < size
    → b.m_read_index + size < 2 ^ 31
    → (c : TcpBuffer) × (decode_round b ≡ some (some (some (arrived inner), c))) × IsOpen c
unfolding net_bytes
decode_round-takes_inner size gap rest b inner o s h e short small =
    let bytes = packet inner (pos (packet_size inner)) in
    let r = b.m_read_index in
    let w = b.m_write_index in
    let head = net_bytes (pos size) ++ gap in
    let at = subst (At b.m_buffer r) e (At-readable b o.valid) in
    let whole = At-head (pb_start ∷ head) (bytes ++ rest) at in
    let long : r + length (pb_start ∷ head) + packet_size inner ≤ w = omega (
      arith,
      o.valid.ordered,
      length-readable o.valid,
      ap length e,
      length-append (pb_start ∷ head) (bytes ++ rest),
      length-append bytes rest,
      length-packet inner (pos (packet_size inner)),
    ) in
    let first =
      packet_at-incomplete b.m_buffer w r size (At-head (pb_start ∷ net_bytes (pos size)) gap whole)
        (omega (arith, long)) (omega (arith, length-readable o.valid, o.valid.ordered, short))
        small in
    let others =
      HasNoStart-Quiet head b.m_buffer w (r + 1) (At-tail (pb_start ∷ []) head whole) h in
    let (c, f, p, q) =
      decode_round-behind (length (pb_start ∷ head)) b inner o s (first, others) long
        (At-head bytes rest (At-tail (pb_start ∷ head) (bytes ++ rest) at)) in
    (c, f, p)

-- Four zeros are the length 0, whose packet would end one byte before its start.
packet_at-zeros :
    (temp after : List ℕ) (w : ℕ)
    → temp ≡ pb_start ∷ 0 ∷ 0 ∷ 0 ∷ 0 ∷ after
    → 2 ≤ w
    → packet_at temp w 0 ≡ none
unfolding packet_at packet_end net_bytes
packet_at-zeros temp after w e h =
    let at : At temp 0 ((pb_start ∷ []) ++ net_bytes (pos 0)) = record {
      before = [];
      after = after;
      split = e;
      start = refl;
    } in
    let behind : ltb_ℤ (pos 0 +ℤ pos 0 -ℤ pos 1) (pos w) ≡ true = ground arith in
    rw
      (
        get_elem?-At at,
        lt→ltb 1 w (omega arith),
        get_int32-At (pos 0) (omega arith) (At-tail (pb_start ∷ []) (net_bytes (pos 0)) at),
        behind,
      )
      refl

find_packet-zeros :
    (n r : ℕ) (temp after : List ℕ) (w : ℕ)
    → temp ≡ pb_start ∷ 0 ∷ 0 ∷ 0 ∷ 0 ∷ after
    → 2 ≤ w
    → 0 < n
    → r ≡ 0
    → find_packet n temp w r ≡ none
unfolding find_packet
find_packet-zeros zero r temp after w e h p z = elim p [ ]
find_packet-zeros (suc n) r temp after w e h p z =
    rw (z, find_packet, packet_at-zeros temp after w e h) refl

-- Where the vector begins with a start byte and four zeros, the read index is 0 and at least two bytes have been
-- written, `decode` reads the byte before the vector. The zeros may be those of a new vector: so it is
-- when the first two to four bytes of a packet of less than 2^8 bytes arrive alone.
pub decode-faults_on_short_head :
    (fuel : ℕ) (out : List TinyPbProtocol) (after : List ℕ) (b : TcpBuffer)
    → b.m_read_index ≡ 0
    → 2 ≤ b.m_write_index
    → b.m_buffer ≡ pb_start ∷ 0 ∷ 0 ∷ 0 ∷ 0 ∷ after
    → decode (suc fuel) out b ≡ faults
unfolding decode decode_round
decode-faults_on_short_head fuel out after b r w e =
    let fails =
      find_packet-zeros (b.m_write_index - b.m_read_index) b.m_read_index b.m_buffer after
        b.m_write_index e w (omega arith) r in
    rw (decode, decode_round, fails) refl
