-- ===== src/Buffer.antt =====
-- RpcFramework/rocket/net/tcp/tcp_buffer.h and tcp_buffer.cpp: the growing byte buffer between a
-- socket and a coder. Indices are `int`s that stay below the buffer's length; a call that copies out
-- of bounds, makes a vector of negative length or overflows an `int` is a fault (`none`).
pub mod Queue
pub mod Tests
pub mod Laws
pub mod Moves
use rpc_framework.Base.{
  ℕ, ◌+◌, ◌*◌, ◌/◌, ◌-◌, ◌≤◌, Bool, List, [], ◌++◌, Option, none, some, ◌>>=◌, take, drop, length,
  replicate, leb, ltb, ◌==◌, if◌then◌else◌, min,
}
use rpc_framework.Base.Int.{ℤ, pos, negsuc, sub_ℕ, ltb_ℤ, ◌+ℤ◌, index, in_int}

pub record TcpBuffer : Type 0 where
  pub m_read_index : ℕ
  pub m_write_index : ℕ
  pub m_size : ℕ
  pub m_buffer : List ℕ

-- `memcpy` out of a vector and into one.
unfoldable pub copy_from : List ℕ → ℕ → ℕ → Option (List ℕ)
copy_from v i n = if leb (i + n) (length v) then some (take n (drop i v)) else none

unfoldable pub copy_into : List ℕ → ℕ → List ℕ → Option (List ℕ)
copy_into v i xs =
    if leb (i + length xs) (length v)
    then some (take i v ++ (xs ++ drop (i + length xs) v))
    else none

unfoldable pub make : ℕ → TcpBuffer
make size = record {
  m_read_index = 0;
  m_write_index = 0;
  m_size = size;
  m_buffer = replicate size 0;
}

abbrev pub read_able : TcpBuffer → ℤ
read_able b = sub_ℕ b.m_write_index b.m_read_index

abbrev pub write_able : TcpBuffer → ℤ
write_able b = sub_ℕ (length b.m_buffer) b.m_write_index

unfoldable pub resize_buffer : ℕ → TcpBuffer → Option TcpBuffer
resize_buffer new_size b = do
  readable ← index (read_able b)
  let count = min new_size readable
  bytes ← copy_from b.m_buffer b.m_read_index count
  temp ← copy_into (replicate new_size 0) 0 bytes
  some (record b { m_buffer = temp; m_read_index = 0; m_write_index = count })

unfoldable pub adjust_buffer : TcpBuffer → Option TcpBuffer
adjust_buffer b = if ltb b.m_read_index (length b.m_buffer / 3) then some b else do
  count ← index (read_able b)
  bytes ← copy_from b.m_buffer b.m_read_index count
  buffer ← copy_into (replicate (length b.m_buffer) 0) 0 bytes
  some (record b { m_buffer = buffer; m_read_index = 0; m_write_index = count })

-- `(int)(1.5 * n)`. A double holds the product of an `int` exactly; what it is too large for is a fault.
abbrev pub one_and_half : ℕ → Option ℕ
one_and_half n = in_int (3 * n / 2)

unfoldable pub write_to_buffer : List ℕ → TcpBuffer → Option TcpBuffer
write_to_buffer buf b = do
  let size = length buf
  roomy ←
      if ltb_ℤ (write_able b) (pos size)
      then (do
        needed ← in_int (b.m_write_index + size)
        new_size ← one_and_half needed
        resize_buffer new_size b)
      else some b
  buffer ← copy_into roomy.m_buffer roomy.m_write_index buf
  moved ← in_int (roomy.m_write_index + size)
  some (record roomy { m_buffer = buffer; m_write_index = moved })

-- The vector `re` is replaced by what is read, and kept when nothing is readable.
unfoldable pub read_from_buffer : List ℕ → ℤ → TcpBuffer → Option (List ℕ × TcpBuffer)
read_from_buffer re size b = if b.m_write_index == b.m_read_index then some (re, b) else do
  read_size ← index (if ltb_ℤ size (read_able b) then size else read_able b)
  temp ← copy_from b.m_buffer b.m_read_index read_size
  adjusted ← adjust_buffer (record b { m_read_index = b.m_read_index + read_size })
  some (temp, adjusted)

-- The new index is a `size_t`: a negative one is larger than any size.
unfoldable pub in_buffer : ℤ → TcpBuffer → Option ℕ
in_buffer (pos j) b = if leb (length b.m_buffer) j then none else some j
in_buffer (negsuc j) b = none

-- An index out of the buffer is logged and changes nothing.
unfoldable pub move_read_index : ℤ → TcpBuffer → Option TcpBuffer
unfolding in_buffer
move_read_index size b = elim (in_buffer (pos b.m_read_index +ℤ size) b) [
  | none ↦ some b
  | some j ↦ adjust_buffer (record b { m_read_index = j })
]

unfoldable pub move_write_index : ℤ → TcpBuffer → TcpBuffer
unfolding in_buffer
move_write_index size b = elim (in_buffer (pos b.m_write_index +ℤ size) b) [
  | none ↦ b
  | some j ↦ record b { m_write_index = j }
]

-- The indices lie in order inside the vector.
pub record IsValid (b : TcpBuffer) : Type 0 where
  pub ordered : b.m_read_index ≤ b.m_write_index
  pub within : b.m_write_index ≤ length b.m_buffer

-- The highest number whose `(int)(1.5 * n)` is an `int`: about 1.43 GB.
abbrev pub write_limit : ℕ
write_limit = 1431655765

-- A valid buffer that can be written so many bytes more without an overflow, grown or not.
pub record CanTake (n : ℕ) (b : TcpBuffer) : Type 0 where
  pub valid : IsValid b
  pub small : b.m_write_index + n ≤ write_limit

-- The bytes that are written and not yet read.
abbrev pub readable : TcpBuffer → List ℕ
readable b = take (b.m_write_index - b.m_read_index) (drop b.m_read_index b.m_buffer)
