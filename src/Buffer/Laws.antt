-- ===== src/Buffer/Laws.antt =====
-- tcp_buffer.cpp: resizing, compacting, writing and reading keep the unread bytes in order.
use rpc_framework.Base.{
  ℕ, ◌+◌, ◌/◌, ◌-◌, ◌≤◌, ◌≡◌, refl, ap, ◌∙◌, List, ◌++◌, Option, some, none, true, false, ◌*◌, ◌<◌,
  ◌>>=◌, drop-take, take-take, Bool-cases, inl, inr, ltb, take, drop, length, replicate, arith, min,
  length-append, length-replicate, length-take, length-drop, take-length_append, drop-append_le,
  take-all, append_assoc,
}
use rpc_framework.Base.Int.{pos, index, ltb_ℤ, in_int}
use rpc_framework.Buffer.{
  TcpBuffer, IsValid, readable, read_able, write_able, resize_buffer, adjust_buffer,
  write_to_buffer, copy_from, copy_into, one_and_half, write_limit, CanTake,
}

pub length-readable :
    {b : TcpBuffer} → IsValid b → length (readable b) ≡ b.m_write_index - b.m_read_index
length-readable {b} v =
    length-take (b.m_write_index - b.m_read_index) (drop b.m_read_index b.m_buffer)
      (omega (arith, v.ordered, v.within, length-drop b.m_read_index b.m_buffer))

pub copy_from_lem :
    (v : List ℕ) (i n : ℕ) → i + n ≤ length v → copy_from v i n ≡ some (take n (drop i v))
unfolding copy_from
copy_from_lem v i n h = ground arith

pub copy_into_lem :
    (v : List ℕ) (i : ℕ) (xs : List ℕ)
    → i + length xs ≤ length v
    → copy_into v i xs ≡ some (take i v ++ (xs ++ drop (i + length xs) v))
unfolding copy_into
copy_into_lem v i xs h = ground arith

-- What a successful operation leaves: a valid buffer with these unread bytes, a vector of this
-- size, and the write index no further than `limit`.
pub record Holds (xs : List ℕ) (size limit : ℕ) (o : Option TcpBuffer) : Type 0 where
  pub result : TcpBuffer
  pub returns : o ≡ some result
  pub valid : IsValid result
  pub bytes : readable result ≡ xs
  pub capacity : length result.m_buffer ≡ size
  pub bounded : result.m_write_index ≤ limit

-- `xs` copied to the front of a vector of zeros.
abbrev fronted : ℕ → List ℕ → List ℕ
fronted size xs = xs ++ drop (length xs) (replicate size 0)

copy_into_front :
    (size : ℕ) (xs : List ℕ)
    → length xs ≤ size
    → copy_into (replicate size 0) 0 xs ≡ some (fronted size xs)
copy_into_front size xs h =
    let e : 0 + length xs ≡ length xs = omega arith in
    copy_into_lem (replicate size 0) 0 xs (omega (arith, length-replicate {A = ℕ} size 0))
    ∙ ap (λ k. some (xs ++ drop k (replicate size 0))) e

fronted-Holds :
    (b : TcpBuffer) (size n : ℕ) (xs : List ℕ)
    → length xs ≡ n
    → n ≤ size
    → Holds xs size n
        (some (record b { m_buffer = fronted size xs; m_read_index = 0; m_write_index = n }))
fronted-Holds b size n xs e h = record {
  result = record b { m_buffer = fronted size xs; m_read_index = 0; m_write_index = n };
  returns = refl;
  valid = record {
    ordered = omega arith;
    within = omega (arith, e, length-append xs (drop (length xs) (replicate size 0)));
  };
  bytes = take-length_append xs (drop (length xs) (replicate size 0)) (n - 0) (omega (arith, e));
  capacity = length-fronted;
  bounded = omega arith;
}
  where
    length-fronted : length (fronted size xs) ≡ size
    length-fronted = omega (
      arith,
      e,
      length-append xs (drop (length xs) (replicate size 0)),
      length-drop (length xs) (replicate {A = ℕ} size 0),
      length-replicate {A = ℕ} size 0,
    )

-- The three statements that `resize_buffer` and `adjust_buffer` share.
front_copy : TcpBuffer → ℕ → ℕ → Option TcpBuffer
front_copy b size n = do
  bytes ← copy_from b.m_buffer b.m_read_index n
  temp ← copy_into (replicate size 0) 0 bytes
  some (record b { m_buffer = temp; m_read_index = 0; m_write_index = n })

front_copy-Holds :
    (b : TcpBuffer) (size n : ℕ)
    → b.m_read_index + n ≤ length b.m_buffer
    → n ≤ size
    → Holds (take n (drop b.m_read_index b.m_buffer)) size n (front_copy b size n)
unfolding front_copy
front_copy-Holds b size n h k =
    let xs = take n (drop b.m_read_index b.m_buffer) in
    let e : length xs ≡ n =
      length-take n (drop b.m_read_index b.m_buffer)
        (omega (arith, length-drop b.m_read_index b.m_buffer)) in
    rw (copy_from_lem b.m_buffer b.m_read_index n h, copy_into_front size xs (omega (arith, e)))
      (fronted-Holds b size n xs e k)

Holds-weaken :
    {xs : List ℕ} {size m n : ℕ} {o : Option TcpBuffer}
    → m ≤ n
    → Holds xs size m o
    → Holds xs size n o
Holds-weaken h r = record {
  result = r.result;
  returns = r.returns;
  valid = r.valid;
  bytes = r.bytes;
  capacity = r.capacity;
  bounded = omega (arith, r.bounded);
}

index-read_able :
    {b : TcpBuffer} → IsValid b → index (read_able b) ≡ some (b.m_write_index - b.m_read_index)
index-read_able v = ground arith

-- Resizing a valid buffer returns a valid one that holds the first `new_size` unread bytes.
pub resize_buffer-readable :
    (b : TcpBuffer) (new_size : ℕ)
    → IsValid b
    → Holds (take new_size (readable b)) new_size b.m_write_index (resize_buffer new_size b)
unfolding resize_buffer front_copy
resize_buffer-readable b new_size v =
    rw (index-read_able v, take-take new_size (b.m_write_index - b.m_read_index))
      (Holds-weaken (omega arith) (
        front_copy-Holds b new_size (min new_size (b.m_write_index - b.m_read_index))
          (omega (arith, v.ordered, v.within)) (omega arith)))

-- Compacting a valid buffer returns a valid one with the same unread bytes.
pub adjust_buffer-readable :
    (b : TcpBuffer)
    → IsValid b
    → Holds (readable b) (length b.m_buffer) b.m_write_index (adjust_buffer b)
unfolding adjust_buffer front_copy
adjust_buffer-readable b v = elim (Bool-cases (ltb b.m_read_index (length b.m_buffer / 3))) [
  | inl e ↦ rw e (record {
    result = b;
    returns = refl;
    valid = v;
    bytes = refl;
    capacity = refl;
    bounded = omega arith;
  })
  | inr e ↦
      rw (e, index-read_able v)
        (Holds-weaken (omega arith) (
          front_copy-Holds b (length b.m_buffer) (b.m_write_index - b.m_read_index)
            (omega (arith, v.ordered, v.within)) (omega (arith, v.within))))
]

-- The last two statements of `write_to_buffer`, where the index does not overflow.
unfoldable pub write_here : List ℕ → TcpBuffer → Option TcpBuffer
write_here buf b = do
  buffer ← copy_into b.m_buffer b.m_write_index buf
  some (record b { m_buffer = buffer; m_write_index = b.m_write_index + length buf })

pub write_here-Holds :
    (xs : List ℕ) (b : TcpBuffer)
    → IsValid b
    → b.m_write_index + length xs ≤ length b.m_buffer
    → Holds (readable b ++ xs) (length b.m_buffer) (b.m_write_index + length xs) (write_here xs b)
unfolding write_here
write_here-Holds xs b v h = rw (copy_into_lem b.m_buffer b.m_write_index xs h) (record {
  result = record b { m_buffer = written; m_write_index = b.m_write_index + length xs };
  returns = refl;
  valid = record {
    ordered = omega (arith, v.ordered);
    within = omega (arith, length-append front (xs ++ rest), length-append xs rest, length-front);
  };
  bytes =
      rw
        (
          drop-append_le b.m_read_index front (xs ++ rest) (omega (arith, length-front, v.ordered)),
          drop-take b.m_read_index b.m_write_index b.m_buffer v.ordered,
          ← append_assoc (readable b) xs rest,
        )
        (take-length_append (readable b ++ xs) rest (b.m_write_index + length xs - b.m_read_index)
          (omega (arith, length-append (readable b) xs, length-readable v, v.ordered)));
  capacity = length-written;
  bounded = omega arith;
})
  where
    front : List ℕ
    front = take b.m_write_index b.m_buffer

    rest : List ℕ
    rest = drop (b.m_write_index + length xs) b.m_buffer

    written : List ℕ
    written = front ++ (xs ++ rest)

    length-front : length front ≡ b.m_write_index
    length-front = length-take b.m_write_index b.m_buffer v.within

    length-written : length written ≡ length b.m_buffer
    length-written = omega (
      arith,
      length-append front (xs ++ rest),
      length-append xs rest,
      length-front,
      length-drop (b.m_write_index + length xs) b.m_buffer,
    )

write_able-fits :
    (n : ℕ) {b : TcpBuffer}
    → IsValid b
    → ltb_ℤ (write_able b) (pos n) ≡ false
    → b.m_write_index + n ≤ length b.m_buffer
write_able-fits n v e = ground arith

-- What a write gives: the bytes at the end of the unread ones.
pub record Written (xs : List ℕ) (b : TcpBuffer) (o : Option TcpBuffer) : Type 0 where
  pub result : TcpBuffer
  pub returns : o ≡ some result
  pub valid : IsValid result
  pub bytes : readable result ≡ readable b ++ xs
  pub bounded : result.m_write_index ≤ b.m_write_index + length xs

-- The two statements with the sum as the code adds it.
add_here : List ℕ → TcpBuffer → Option TcpBuffer
add_here buf b = do
  buffer ← copy_into b.m_buffer b.m_write_index buf
  moved ← in_int (b.m_write_index + length buf)
  some (record b { m_buffer = buffer; m_write_index = moved })

in_int-lt : (n : ℕ) → n ≤ write_limit → in_int n ≡ some n
in_int-lt n h = ground arith

one_and_half-lt : (n : ℕ) → n ≤ write_limit → one_and_half n ≡ some (3 * n / 2)
one_and_half-lt n h = ground arith

add_here-small :
    (xs : List ℕ) (b : TcpBuffer)
    → b.m_write_index + length xs ≤ write_limit
    → add_here xs b ≡ write_here xs b
unfolding add_here write_here
add_here-small xs b h = rw (in_int-lt (b.m_write_index + length xs) h) refl

-- Writing to a valid buffer, of so many bytes that the new write index is at most `write_limit`, does not
-- fault: it returns a valid one with the bytes at the end of the unread ones, grown where they did not fit.
pub write_to_buffer-Written :
    (xs : List ℕ) (b : TcpBuffer) → CanTake (length xs) b → Written xs b (write_to_buffer xs b)
unfolding write_to_buffer add_here
write_to_buffer-Written xs b t = elim (Bool-cases (ltb_ℤ (write_able b) (pos (length xs)))) [
  | inl e ↦
      rw
        (
          e,
          in_int-lt (b.m_write_index + length xs) t.small,
          one_and_half-lt (b.m_write_index + length xs) t.small,
        )
        (grown (resize_buffer-readable b _ t.valid))
  | inr e ↦ rw e (kept (write_here-Holds xs b t.valid (write_able-fits (length xs) t.valid e)))
]
  where
    kept :
        Holds (readable b ++ xs) (length b.m_buffer) (b.m_write_index + length xs) (write_here xs b)
        → Written xs b (add_here xs b)
    kept r = record {
      result = r.result;
      returns = add_here-small xs b t.small ∙ r.returns;
      valid = r.valid;
      bytes = r.bytes;
      bounded = r.bounded;
    }

    size : ℕ
    size = 3 * (b.m_write_index + length xs) / 2

    grown :
        Holds (take size (readable b)) size b.m_write_index (resize_buffer size b)
        → Written xs b (resize_buffer size b >>= add_here xs)
    grown r =
        let same : readable r.result ≡ readable b =
          r.bytes
          ∙ take-all size (readable b) (omega (arith, length-readable t.valid, t.valid.ordered)) in
        let w = write_here-Holds xs r.result r.valid (omega (arith, r.capacity, r.bounded)) in
        record {
          result = w.result;
          returns =
              rw r.returns
                (add_here-small xs r.result (omega (arith, r.bounded, t.small)) ∙ w.returns);
          valid = w.valid;
          bytes = w.bytes ∙ ap (λ l. l ++ xs) same;
          bounded = omega (arith, w.bounded, r.bounded);
        }

-- A write that would have to grow the vector past what an `int` can count is a fault.
pub write_to_buffer-overflows :
    (xs : List ℕ) (b : TcpBuffer)
    → length b.m_buffer < b.m_write_index + length xs
    → write_limit < b.m_write_index + length xs
    → write_to_buffer xs b ≡ none
unfolding write_to_buffer
write_to_buffer-overflows xs b full large =
    let e : ltb_ℤ (write_able b) (pos (length xs)) ≡ true = ground arith in rw e (ground arith)
