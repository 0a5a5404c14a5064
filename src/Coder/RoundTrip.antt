-- ===== src/Coder/RoundTrip.antt =====
-- tinypb_coder.cpp: decoding what was encoded.
use rpc_framework.Base.{
  ℕ, zero, suc, ◌+◌, ◌-◌, ◌^◌, ◌<◌, ◌≤◌, ◌≡◌, refl, ap, sym, ◌∙◌, List, [], ◌∷◌, ◌++◌, none, some,
  true, false, map, length, arith, length-append, All, append_assoc, append-nil, lt→ltb,
  drop-length_append, subst, take-all, drop, ==_false,
}
use rpc_framework.Base.Int.{ℤ, pos, ◌+ℤ◌, ◌-ℤ◌, index, ltb_ℤ}
use rpc_framework.Buffer.{TcpBuffer, IsValid, CanTake, readable}
use rpc_framework.Buffer.Laws.{length-readable, write_to_buffer-Written}
use rpc_framework.Buffer.Moves.{move_read_index-readable}
use rpc_framework.Coder.{
  TinyPbProtocol, net_bytes, packet, packet_size, int_length, pb_end, encode_tiny_pb, encode,
  or_default,
}
use rpc_framework.Coder.Decoder.{packet_end, packet_at, find_packet, decode_round, decode, returns}
use rpc_framework.Coder.Located.{At, At-head, At-readable, get_elem?-At, get_int32-At}
use rpc_framework.Coder.Fields.{
  IsSendable, arrived, Parts, packet-Parts, parse_fields-packet, int_length-pos,
}

pub length-packet : (m : TinyPbProtocol) (z : ℤ) → length (packet m z) ≡ packet_size m
unfolding packet packet_size net_bytes
length-packet m z =
    let i = m.m_msg_id in
    let n = m.m_method_name in
    let e = m.m_err_info in
    let d = m.m_pb_data in
    let tail = d ++ (net_bytes (pos 1) ++ (pb_end ∷ [])) in
    let info = net_bytes (int_length (length e)) ++ (e ++ tail) in
    let name = net_bytes (int_length (length n)) ++ (n ++ (net_bytes m.m_err_code ++ info)) in
    omega (
      arith,
      length-append d (net_bytes (pos 1) ++ (pb_end ∷ [])),
      length-append e tail,
      length-append n (net_bytes m.m_err_code ++ info),
      length-append i name,
    )

pub two_le-packet_size : (m : TinyPbProtocol) → 2 ≤ packet_size m
unfolding packet_size
two_le-packet_size m = omega arith

packet_end_index :
    (i size w : ℕ)
    → 0 < size
    → i + size ≤ w
    → w < 2 ^ 31
    → (ltb_ℤ (pos (2 ^ 31 - 1)) (pos i +ℤ pos size) ≡ false)
      × (ltb_ℤ (pos i +ℤ pos size -ℤ pos 1) (pos w) ≡ true)
      × (index (pos i +ℤ pos size -ℤ pos 1) ≡ some (i + size - 1))
packet_end_index i size w h k l = (ground arith, ground arith, ground arith)

-- At the start of a whole packet the search stops, with the packet's length and end.
pub packet_at-Parts :
    (temp : List ℕ) (w i : ℕ) (m : TinyPbProtocol)
    → IsSendable m
    → Parts temp i m
    → 2 ≤ packet_size m
    → i + packet_size m ≤ w
    → w < 2 ^ 31
    → packet_at temp w i ≡ some (some (pos (packet_size m), i + packet_size m - 1))
unfolding packet_at packet_end
packet_at-Parts temp w i m s p two h k =
    let e = packet_end_index i (packet_size m) w (omega arith) h k in
    rw
      (
        get_elem?-At p.first,
        lt→ltb (i + 1) w (omega arith),
        get_int32-At (pos (packet_size m)) (s.size_fits) p.pk_len,
        e.0,
        e.1,
        e.2,
        get_elem?-At p.last,
      )
      refl

pub find_packet-here :
    (n : ℕ) (temp : List ℕ) (w i : ℕ) (pk_len : ℤ) (j : ℕ)
    → 0 < n
    → packet_at temp w i ≡ some (some (pk_len, j))
    → find_packet n temp w i ≡ some (some (i, pk_len, j))
unfolding find_packet
find_packet-here zero temp w i pk_len j h e = elim h [ ]
find_packet-here (suc n) temp w i pk_len j h e = rw (e, find_packet)

pub packet_span : (i size : ℕ) → 0 < size → pos (i + size - 1) -ℤ pos i +ℤ pos 1 ≡ pos size
packet_span i size h = ground arith

-- A buffer that a packet can be decoded from: valid, of `int` size, and with room behind the bytes.
pub record IsOpen (b : TcpBuffer) : Type 0 where
  pub valid : IsValid b
  pub room : b.m_write_index < length b.m_buffer
  pub small : length b.m_buffer < 2 ^ 31

-- The second buffer is what reading packets out of the first one leaves: a packet can be decoded from it, the
-- vector is as long as before, and the write index is not higher.
pub record IsDrained (b c : TcpBuffer) : Type 0 where
  pub still_open : IsOpen c
  pub lower : c.m_write_index ≤ b.m_write_index
  pub capacity : length c.m_buffer ≡ length b.m_buffer

-- With the packet of a sendable message at the front of the unread bytes of a buffer below 2 GB
-- that has room behind them, one turn of `decode` returns the message and leaves the rest.
pub decode_round-packet :
    (b : TcpBuffer) (m : TinyPbProtocol) (rest : List ℕ)
    → IsOpen b
    → IsSendable m
    → readable b ≡ packet m (pos (packet_size m)) ++ rest
    → (c : TcpBuffer) × (decode_round b ≡ some (some (some (arrived m), c)))
      × IsDrained b c
      × (readable c ≡ rest)
unfolding decode_round
decode_round-packet b m rest o s e =
    let size = packet_size m in
    let r = b.m_read_index in
    let long : r + size ≤ b.m_write_index = omega (
      arith,
      o.valid.ordered,
      length-readable o.valid,
      ap length e,
      length-append (packet m (pos size)) rest,
      length-packet m (pos size),
    ) in
    let two : 2 ≤ size = two_le-packet_size m in
    let parts =
      packet-Parts b.m_buffer r m s
        (At-head (packet m (pos size)) rest (subst (At b.m_buffer r) e (At-readable b o.valid))) in
    let found =
      packet_at-Parts b.m_buffer b.m_write_index r m s parts two long
        (omega (arith, o.room, o.small)) in
    let moved = move_read_index-readable size b o.valid long (omega (arith, o.room)) in
    (
      moved.result,
      rw
          (
            find_packet-here (b.m_write_index - r) b.m_buffer b.m_write_index r _ _ (omega arith)
                found,
            packet_span r size (omega arith),
            moved.returns,
            parse_fields-packet b.m_buffer r m s parts,
          )
          refl,
      record {
        still_open = record {
          valid = moved.valid;
          room = omega (arith, moved.bounded, moved.capacity, o.room);
          small = omega (arith, moved.capacity, o.small);
        };
        lower = moved.bounded;
        capacity = moved.capacity;
      },
      moved.bytes
          ∙ ap (λ l. drop size l) e
          ∙ drop-length_append (packet m (pos size)) rest size (sym (length-packet m (pos size))),
    )

-- The message as `encodeTinyPB` sends it: an empty id is replaced.
abbrev pub named : TinyPbProtocol → TinyPbProtocol
named m = record m { m_msg_id = or_default m.m_msg_id }

abbrev pub AllSendable : List TinyPbProtocol → Type 0
AllSendable = All (λ m. IsSendable (named m))

-- The packets of the messages, one after the other.
abbrev pub packets : List TinyPbProtocol → List ℕ
packets [] = []
packets (m ∷ ms) = packet (named m) (pos (packet_size (named m))) ++ packets ms

-- With nothing unread no packet is found.
pub decode_round-empty : (b : TcpBuffer) → IsOpen b → readable b ≡ [] → decode_round b ≡ some none
unfolding decode_round find_packet
decode_round-empty b o e =
    let none_left : b.m_write_index - b.m_read_index ≡ 0 =
      omega (arith, length-readable o.valid, ap length e) in
    rw none_left

-- With the packets of sendable messages as the unread bytes of a buffer below 2 GB that has room
-- behind them, `decode` returns after one turn for each and one more. It appends exactly the
-- messages, in order, and leaves nothing unread and no less room for what comes.
pub decode-packets :
    (ms : List TinyPbProtocol) (b : TcpBuffer) (out : List TinyPbProtocol)
    → IsOpen b
    → AllSendable ms
    → readable b ≡ packets ms
    → (c : TcpBuffer) × (decode (suc (length ms)) out b
        ≡ returns (out ++ map (λ m. arrived (named m)) ms) c)
      × IsDrained b c
      × (readable c ≡ [])
unfolding decode
decode-packets [] b out o s e = (
  b,
  rw (decode_round-empty b o e, decode, append-nil) refl,
  record { still_open = o; lower = omega arith; capacity = refl },
  e,
)
decode-packets (m ∷ ms) b out o s e =
    let (c, d, p, r) = decode_round-packet b (named m) (packets ms) o s.0 e in
    let (c', d', p', r') = decode-packets ms c (out ++ arrived (named m) ∷ []) p.still_open s.1 r in
    (
      c',
      rw (d, decode) (d' ∙ ap (λ l. returns l c') (append_assoc out _ _)),
      record {
        still_open = p'.still_open;
        lower = omega (arith, p.lower, p'.lower);
        capacity = p'.capacity ∙ p.capacity;
      },
      r',
    )

-- On a valid buffer whose write index and the packets of the messages are together at most `write_limit`
-- (about 1.43 GB), `encode` of sendable messages does not fault: it appends their packets to the unread bytes, and the
-- write index is at most their length higher.
pub encode-readable :
    (ms : List TinyPbProtocol) (b : TcpBuffer)
    → CanTake (length (packets ms)) b
    → AllSendable ms
    → (sent : List TinyPbProtocol) × (c : TcpBuffer) × (encode ms b ≡ some (sent, c))
      × IsValid c
      × (readable c ≡ readable b ++ packets ms)
      × (c.m_write_index ≤ b.m_write_index + length (packets ms))
unfolding encode encode_tiny_pb
encode-readable [] b t s = ([], b, refl, t.valid, sym (append-nil (readable b)), omega arith)
encode-readable (m ∷ ms) b t s =
    let size = packet_size (named m) in
    let bytes = packet (named m) (pos size) in
    let count = length-append bytes (packets ms) in
    let w =
      write_to_buffer-Written bytes b
        (record { valid = t.valid; small = omega (arith, t.small, count) }) in
    let (sent, d, e, v, r, k) =
      encode-readable ms w.result
        (record { valid = w.valid; small = omega (arith, t.small, w.bounded, count) }) s.1 in
    (
      (encode_tiny_pb m).0 ∷ sent,
      d,
      rw
          (
            int_length-pos size s.0.size_fits,
            ==_false size 0 (omega (arith, two_le-packet_size (named m))),
            take-all size bytes (omega (arith, length-packet (named m) (pos size))),
            w.returns,
            e,
          )
          refl,
      v,
      r ∙ ap (λ l. l ++ packets ms) w.bytes ∙ append_assoc (readable b) bytes (packets ms),
      omega (arith, k, w.bounded, count),
    )
