-- ===== src/Tcp/Reading.antt =====
-- tcp_connection.cpp: what `onRead` does with the bytes that arrive.
use rpc_framework.Base.{
  ℕ, ◌+◌, ◌-◌, ◌<◌, ◌≤◌, ◌≡◌, refl, ap, sym, ◌∙◌, List, [], ◌∷◌, ◌++◌, Option, none, some, true,
  false, length, take, drop, arith, length-append, length-take, length-drop, drop-append_le,
  drop-take, take-length_append, ==_false, ==_refl, append-nil, append_assoc, le→ltb_false,
  lt→leb_false,
}
use rpc_framework.Base.Int.{index}
use native.Mathlib.Decide.{dec_lt, ℕ_discrete}
use rpc_framework.Buffer.{TcpBuffer, IsValid, readable, write_able, copy_into}
use rpc_framework.Buffer.Laws.{copy_into_lem, write_here, write_here-Holds, length-readable}
use rpc_framework.Buffer.Moves.{move_write_index-refused, move_write_index-advances}
use rpc_framework.Coder.RoundTrip.{IsOpen}
use rpc_framework.Tcp.Connection.{
  ReadResult, reads, ends, again, fails, ReadEnd, leaves, waits, make_room, read_loop,
}

-- The vector with `xs` stored from the write index on.
abbrev stored : TcpBuffer → List ℕ → List ℕ
stored b xs =
    take b.m_write_index b.m_buffer ++ (xs ++ drop (b.m_write_index + length xs) b.m_buffer)

length-stored :
    (b : TcpBuffer) (xs : List ℕ)
    → b.m_write_index + length xs ≤ length b.m_buffer
    → length (stored b xs) ≡ length b.m_buffer
length-stored b xs h = omega (
  arith,
  length-append (take b.m_write_index b.m_buffer)
      (xs ++ drop (b.m_write_index + length xs) b.m_buffer),
  length-append xs (drop (b.m_write_index + length xs) b.m_buffer),
  length-take b.m_write_index b.m_buffer (omega arith),
  length-drop (b.m_write_index + length xs) b.m_buffer,
)

-- Storing behind the write index changes no unread byte.
readable-stored :
    (b : TcpBuffer) (xs : List ℕ)
    → IsValid b
    → readable (record b { m_buffer = stored b xs }) ≡ readable b
readable-stored b xs v =
    let front = take b.m_write_index b.m_buffer in
    let rest = xs ++ drop (b.m_write_index + length xs) b.m_buffer in
    let len = length-take b.m_write_index b.m_buffer v.within in
    rw
      (
        drop-append_le b.m_read_index front rest (omega (arith, len, v.ordered)),
        drop-take b.m_read_index b.m_write_index b.m_buffer v.ordered,
      )
      (take-length_append (readable b) rest (b.m_write_index - b.m_read_index)
        (omega (arith, length-readable v)))

make_room-open : (b : TcpBuffer) → b.m_write_index < length b.m_buffer → make_room b ≡ some b
unfolding make_room
make_room-open b h = rw (==_false b.m_write_index (length b.m_buffer) (omega arith))

index-write_able :
    (b : TcpBuffer) → IsValid b → index (write_able b) ≡ some (length b.m_buffer - b.m_write_index)
index-write_able b v = ground arith

-- Fewer bytes than there is room for become unread bytes behind the others, in a vector of the same
-- length and before an index that is at most so much higher, and the loop ends with all read.
pub read_loop-appends :
    (x : ℕ) (xs : List ℕ) (results : List ReadResult) (b : TcpBuffer)
    → IsOpen b
    → b.m_write_index + length (x ∷ xs) < length b.m_buffer
    → (c : TcpBuffer) × (read_loop (reads x xs ∷ results) b ≡ some (leaves false true c))
      × IsOpen c
      × (readable c ≡ readable b ++ x ∷ xs)
      × (c.m_write_index ≤ b.m_write_index + length (x ∷ xs))
      × (length c.m_buffer ≡ length b.m_buffer)
unfolding read_loop write_here
read_loop-appends x xs results b o h =
    let bytes = x ∷ xs in
    let s = record b { m_buffer = stored b bytes } in
    let n = length bytes in
    let w = write_here-Holds bytes b o.valid (omega arith) in
    let same : w.result
        ≡ record b { m_buffer = stored b bytes; m_write_index = b.m_write_index + n } =
      ground (arith, w.returns, copy_into_lem b.m_buffer b.m_write_index bytes (omega arith)) in
    (
      w.result,
      rw
          (
            make_room-open b o.room,
            index-write_able b o.valid,
            copy_into_lem b.m_buffer b.m_write_index bytes (omega arith),
            le→ltb_false (length b.m_buffer - b.m_write_index) n (omega arith),
            ==_false n (length b.m_buffer - b.m_write_index) (omega arith),
            move_write_index-advances n s (omega (arith, length-stored b bytes (omega arith))),
            same,
          )
          refl,
      record {
        valid = w.valid;
        room = omega (arith, w.bounded, w.capacity);
        small = omega (arith, w.capacity, o.small);
      },
      w.bytes,
      w.bounded,
      w.capacity,
    )

-- Of a read into a buffer below 2 GB with room behind its bytes, exactly as many bytes as there is
-- room for are lost: the write index and the vector's length stay, the unread bytes are as before, and the
-- loop goes on from there.
pub read_loop-loses :
    (x : ℕ) (xs : List ℕ) (results : List ReadResult) (b : TcpBuffer)
    → IsOpen b
    → b.m_write_index + length (x ∷ xs) ≡ length b.m_buffer
    → (c : TcpBuffer) × (read_loop (reads x xs ∷ results) b ≡ read_loop results c)
      × IsOpen c
      × (readable c ≡ readable b)
      × (c.m_write_index ≡ b.m_write_index)
      × (length c.m_buffer ≡ length b.m_buffer)
unfolding read_loop
read_loop-loses x xs results b o h =
    let bytes = x ∷ xs in
    let s = record b { m_buffer = stored b bytes } in
    let n = length bytes in
    let len = length-stored b bytes (omega arith) in
    let count : length b.m_buffer - b.m_write_index ≡ n = omega arith in
    (
      s,
      rw
          (
            make_room-open b o.room,
            index-write_able b o.valid,
            copy_into_lem b.m_buffer b.m_write_index bytes (omega arith),
            move_write_index-refused n s (omega (arith, len)),
            count,
            le→ltb_false n n (omega arith),
            ==_refl n,
          )
          refl,
      record {
        valid = record { ordered = o.valid.ordered; within = omega (arith, o.room, len) };
        room = omega (arith, o.room, len);
        small = omega (arith, o.small, len);
      },
      readable-stored b bytes o.valid,
      refl,
      len,
    )

abbrev pub left_buffer : ReadEnd → TcpBuffer
left_buffer (leaves close all b) = b
left_buffer (waits b) = b

-- What `onRead` reads goes behind the unread bytes.
record Extends (b c : TcpBuffer) : Type 0 where
  open_still : IsOpen c
  more : List ℕ
  bytes : readable c ≡ readable b ++ more

Extends-trans : (b c d : TcpBuffer) → Extends b c → Extends c d → Extends b d
Extends-trans b c d p q = record {
  open_still = q.open_still;
  more = p.more ++ q.more;
  bytes = q.bytes ∙ ap (λ l. l ++ q.more) p.bytes ∙ append_assoc (readable b) p.more q.more;
}

Extends-refl : (b : TcpBuffer) → IsOpen b → Extends b b
Extends-refl b o = record { open_still = o; more = []; bytes = sym (append-nil (readable b)) }

read_loop-too_long :
    (x : ℕ) (xs : List ℕ) (results : List ReadResult) (b : TcpBuffer)
    → IsOpen b
    → length b.m_buffer < b.m_write_index + length (x ∷ xs)
    → read_loop (reads x xs ∷ results) b ≡ none
unfolding read_loop copy_into
read_loop-too_long x xs results b o h =
    rw
      (
        make_room-open b o.room,
        index-write_able b o.valid,
        lt→leb_false (b.m_write_index + length (x ∷ xs)) (length b.m_buffer) h,
        copy_into,
      )
      refl

read_loop-Extends :
    (results : List ReadResult) (b : TcpBuffer) (e : ReadEnd)
    → IsOpen b
    → read_loop results b ≡ some e
    → Extends b (left_buffer e)
unfolding read_loop
read_loop-Extends [] b e o h =
    let same : b ≡ left_buffer e = ground (arith, make_room-open b o.room) in
    rw (← same) (Extends-refl b o)
read_loop-Extends (ends ∷ results) b e o h =
    let same : b ≡ left_buffer e = ground (arith, make_room-open b o.room) in
    rw (← same) (Extends-refl b o)
read_loop-Extends (again ∷ results) b e o h =
    let same : b ≡ left_buffer e = ground (arith, make_room-open b o.room) in
    rw (← same) (Extends-refl b o)
read_loop-Extends (fails ∷ results) b e o h =
    read_loop-Extends results b e o (rw (make_room-open b o.room) at h)
read_loop-Extends (reads x xs ∷ results) b e o h =
    elim (dec_lt (b.m_write_index + length (x ∷ xs)) (length b.m_buffer)) [
      | yes p ↦
          let (c, f, q, r, _w, _l) = read_loop-appends x xs results b o p in
          let same : c ≡ left_buffer e = ap end_of (sym f ∙ h) in
          rw (← same) (record { open_still = q; more = x ∷ xs; bytes = r })
      | no p ↦ elim (ℕ_discrete (b.m_write_index + length (x ∷ xs)) (length b.m_buffer)) [
        | yes full ↦
            let (c, f, q, r, _w, _l) = read_loop-loses x xs results b o full in
            Extends-trans b c (left_buffer e)
              (record { open_still = q; more = []; bytes = r ∙ sym (append-nil (readable b)) })
              (read_loop-Extends results c e q (sym f ∙ h))
        | no long ↦ cc (read_loop-too_long x xs results b o (omega arith))
      ]
    ]
  where
    end_of : Option ReadEnd → TcpBuffer
    end_of none = b
    end_of (some r) = left_buffer r

-- Whatever sequence of results `read` gives, from a buffer below 2 GB with room behind its bytes:
-- a loop that ends or waits leaves such a buffer, in which the unread bytes of before come first
-- and in order.
pub read_loop-IsOpen :
    (results : List ReadResult) (b : TcpBuffer) (e : ReadEnd)
    → IsOpen b
    → read_loop results b ≡ some e
    → IsOpen (left_buffer e) × ((more : List ℕ) × (readable (left_buffer e) ≡ readable b ++ more))
read_loop-IsOpen results b e o h =
    let x = read_loop-Extends results b e o h in (x.open_still, (x.more, x.bytes))
