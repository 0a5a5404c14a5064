-- ===== src/Buffer/Moves.antt =====
-- tcp_buffer.cpp: moving the indices, and reading.
use rpc_framework.Base.{
  ℕ, ◌+◌, ◌-◌, ◌≤◌, ◌<◌, ◌≡◌, ap, sym, ◌∙◌, List, ◌++◌, min, none, some, take, drop, length, arith,
  take-add, take-take, drop-take, drop-drop, if◌then◌else◌, ==_iff, ==_false, drop-min,
}
use rpc_framework.Base.Int.{ℤ, pos, index, ◌+ℤ◌, ltb_ℤ}
use rpc_framework.Buffer.{
  TcpBuffer, IsValid, readable, read_able, adjust_buffer, read_from_buffer, move_read_index,
  move_write_index, in_buffer,
}
use rpc_framework.Buffer.Laws.{Holds, adjust_buffer-readable, copy_from_lem, length-readable}

-- Skipping unread bytes by the read index alone.
skipped : ℕ → TcpBuffer → TcpBuffer
skipped n b = record b { m_read_index = b.m_read_index + n }

drop-readable :
    (n : ℕ) (b : TcpBuffer)
    → IsValid b
    → b.m_read_index + n ≤ b.m_write_index
    → readable (skipped n b) ≡ drop n (readable b)
unfolding skipped
drop-readable n b v h =
    rw
      (
        ← drop-take (b.m_read_index + n) b.m_write_index b.m_buffer h,
        ← drop-take b.m_read_index b.m_write_index b.m_buffer v.ordered,
      )
      (sym (drop-drop n b.m_read_index (take b.m_write_index b.m_buffer)))

skipped-adjusted :
    (n : ℕ) (b : TcpBuffer)
    → IsValid b
    → b.m_read_index + n ≤ b.m_write_index
    → Holds (drop n (readable b)) (length b.m_buffer) b.m_write_index (adjust_buffer (skipped n b))
unfolding skipped
skipped-adjusted n b v h = rw (← drop-readable n b v h) (
    adjust_buffer-readable (record b { m_read_index = b.m_read_index + n })
      (record { ordered = h; within = v.within }))

in_buffer-some :
    (i n : ℕ) (b : TcpBuffer)
    → i + n < length b.m_buffer
    → in_buffer (pos i +ℤ pos n) b ≡ some (i + n)
unfolding in_buffer
in_buffer-some i n b h = ground arith

in_buffer-none :
    (i n : ℕ) (b : TcpBuffer) → length b.m_buffer ≤ i + n → in_buffer (pos i +ℤ pos n) b ≡ none
unfolding in_buffer
in_buffer-none i n b h = ground arith

-- Moving the read index over `n` unread bytes drops them, where the new index lies inside the vector.
pub move_read_index-readable :
    (n : ℕ) (b : TcpBuffer)
    → IsValid b
    → b.m_read_index + n ≤ b.m_write_index
    → b.m_read_index + n < length b.m_buffer
    → Holds (drop n (readable b)) (length b.m_buffer) b.m_write_index (move_read_index (pos n) b)
unfolding move_read_index skipped
move_read_index-readable n b v h k =
    rw (in_buffer-some b.m_read_index n b k, move_read_index) (skipped-adjusted n b v h)

-- At the end of the vector the move is refused: the bytes stay unread.
pub move_read_index-refused :
    (n : ℕ) (b : TcpBuffer)
    → length b.m_buffer ≤ b.m_read_index + n
    → move_read_index (pos n) b ≡ some b
unfolding move_read_index
move_read_index-refused n b h = rw (in_buffer-none b.m_read_index n b h, move_read_index)

-- `n` bytes that were stored from the write index on become unread ones, where the new index lies
-- inside the vector.
pub move_write_index-readable :
    (n : ℕ) (b : TcpBuffer)
    → IsValid b
    → b.m_write_index + n < length b.m_buffer
    → IsValid (move_write_index (pos n) b)
      × (readable (move_write_index (pos n) b)
          ≡ readable b ++ take n (drop b.m_write_index b.m_buffer))
unfolding move_write_index
move_write_index-readable n b v h =
    rw (in_buffer-some b.m_write_index n b h, move_write_index)
      (record { ordered = omega (arith, v.ordered); within = omega arith }, split)
  where
    split :
        take (b.m_write_index + n - b.m_read_index) (drop b.m_read_index b.m_buffer)
        ≡ readable b ++ take n (drop b.m_write_index b.m_buffer)
    split =
        let e : b.m_read_index + (b.m_write_index - b.m_read_index) ≡ b.m_write_index =
          omega (arith, v.ordered) in
        take-add (b.m_write_index - b.m_read_index) n (b.m_write_index + n - b.m_read_index)
          (drop b.m_read_index b.m_buffer) (omega (arith, v.ordered))
        ∙ ap (λ l. readable b ++ take n l)
            (drop-drop (b.m_write_index - b.m_read_index) b.m_read_index b.m_buffer
              ∙ ap (λ k. drop k b.m_buffer) e)

pub move_write_index-advances :
    (n : ℕ) (b : TcpBuffer)
    → b.m_write_index + n < length b.m_buffer
    → move_write_index (pos n) b ≡ record b { m_write_index = b.m_write_index + n }
unfolding move_write_index
move_write_index-advances n b h = rw (in_buffer-some b.m_write_index n b h, move_write_index)

-- A write that fills the vector to its end is not recorded.
pub move_write_index-refused :
    (n : ℕ) (b : TcpBuffer)
    → length b.m_buffer ≤ b.m_write_index + n
    → move_write_index (pos n) b ≡ b
unfolding move_write_index
move_write_index-refused n b h = rw (in_buffer-none b.m_write_index n b h, move_write_index)

-- With nothing unread, a read keeps the destination and the buffer.
pub read_from_buffer-empty :
    (re : List ℕ) (n : ℤ) (b : TcpBuffer)
    → b.m_write_index ≡ b.m_read_index
    → read_from_buffer re n b ≡ some (re, b)
unfolding read_from_buffer
read_from_buffer-empty re n b e = rw ((==_iff b.m_write_index b.m_read_index).1 e)

read_size-min :
    (n : ℕ) (b : TcpBuffer)
    → IsValid b
    → index (if ltb_ℤ (pos n) (read_able b) then pos n else read_able b)
      ≡ some (min n (b.m_write_index - b.m_read_index))
read_size-min n b v = ground arith

-- Reading `n` of a valid buffer's unread bytes returns the first `n` of them, or all where there are
-- fewer, and leaves the others in order.
pub read_from_buffer-readable :
    (re : List ℕ) (n : ℕ) (b : TcpBuffer)
    → IsValid b
    → b.m_read_index < b.m_write_index
    → (c : TcpBuffer) × (read_from_buffer re (pos n) b ≡ some (take n (readable b), c))
      × IsValid c
      × (readable c ≡ drop n (readable b))
      × (c.m_write_index ≤ b.m_write_index)
unfolding read_from_buffer skipped
read_from_buffer-readable re n b v h =
    let k = min n (b.m_write_index - b.m_read_index) in
    let s = skipped-adjusted k b v (omega (arith, v.ordered)) in
    let taken : take k (drop b.m_read_index b.m_buffer) ≡ take n (readable b) =
      sym (take-take n (b.m_write_index - b.m_read_index) (drop b.m_read_index b.m_buffer)) in
    (
      s.result,
      rw (
        ==_false b.m_write_index b.m_read_index (omega arith),
        read_size-min n b v,
        copy_from_lem b.m_buffer b.m_read_index k (omega (arith, v.ordered, v.within)),
        s.returns,
        taken,
      ),
      s.valid,
      s.bytes ∙ dropped (readable b) (length-readable v),
      s.bounded,
    )
  where
    dropped :
        (xs : List ℕ)
        → length xs ≡ b.m_write_index - b.m_read_index
        → drop (min n (b.m_write_index - b.m_read_index)) xs ≡ drop n xs
    dropped xs e = drop-min n (b.m_write_index - b.m_read_index) xs (omega (arith, e))
