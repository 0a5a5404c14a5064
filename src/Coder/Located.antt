-- ===== src/Coder/Located.antt =====
-- tinypb_coder.cpp: what the decoder reads from a vector that holds known bytes at an index.
use rpc_framework.Base.{
  ℕ, zero, suc, ◌+◌, ◌-◌, ◌*◌, ◌/◌, ◌%◌, ◌^◌, ◌<◌, ◌≤◌, ◌≢◌, ◌≡◌, refl, ap, sym, ◌∙◌, List, [], ◌∷◌,
  ◌++◌, some, length, get_elem?, take, drop, All, arith, append_assoc, length-append,
  take-length_append, drop-length_append, get_elem?-append_length, ==_false, le→leb,
  take-append-drop, length-take,
}
use rpc_framework.Base.Int.{ℤ, pos, IsInt32, bits32, signed32-bits32, bits32-lt}
use rpc_framework.Buffer.{TcpBuffer, IsValid, readable, copy_from}
use rpc_framework.Buffer.Laws.{copy_from_lem}
use rpc_framework.Coder.{net_bytes}
use rpc_framework.Coder.Decoder.{net_int, get_int32_from_net_byte, c_string, string_field}

-- The bytes `xs` lie in `temp` from index `i` on.
pub record At (temp : List ℕ) (i : ℕ) (xs : List ℕ) : Type 0 where
  pub before : List ℕ
  pub after : List ℕ
  pub split : temp ≡ before ++ (xs ++ after)
  pub start : length before ≡ i

pub At-head : {temp : List ℕ} {i : ℕ} (xs ys : List ℕ) → At temp i (xs ++ ys) → At temp i xs
At-head xs ys a = record {
  before = a.before;
  after = ys ++ a.after;
  split = a.split ∙ ap (λ l. a.before ++ l) (append_assoc xs ys a.after);
  start = a.start;
}

pub At-tail :
    {temp : List ℕ} {i : ℕ} (xs ys : List ℕ) → At temp i (xs ++ ys) → At temp (i + length xs) ys
At-tail xs ys a = record {
  before = a.before ++ xs;
  after = a.after;
  split =
      a.split
      ∙ ap (λ l. a.before ++ l) (append_assoc xs ys a.after)
      ∙ sym (append_assoc a.before xs (ys ++ a.after));
  start = omega (arith, a.start, length-append a.before xs);
}

pub At-move : {temp : List ℕ} {i j : ℕ} {xs : List ℕ} → i ≡ j → At temp i xs → At temp j xs
At-move e a = record { before = a.before; after = a.after; split = a.split; start = a.start ∙ e }

pub At-within : {temp : List ℕ} {i : ℕ} {xs : List ℕ} → At temp i xs → i + length xs ≤ length temp
At-within {xs = xs} a = omega (
  arith,
  ap length a.split,
  a.start,
  length-append a.before (xs ++ a.after),
  length-append xs a.after,
)

pub copy_from-At :
    {temp : List ℕ} {i : ℕ} {xs : List ℕ} → At temp i xs → copy_from temp i (length xs) ≡ some xs
copy_from-At {temp} {i} {xs} a =
    copy_from_lem temp i (length xs) (At-within a)
    ∙ ap (λ l. some (take (length xs) (drop i l))) a.split
    ∙ ap (λ l. some (take (length xs) l))
        (drop-length_append a.before (xs ++ a.after) i (sym a.start))
    ∙ ap some (take-length_append xs a.after (length xs) refl)

pub get_elem?-At :
    {temp : List ℕ} {i c : ℕ} {xs : List ℕ} → At temp i (c ∷ xs) → get_elem? temp i ≡ some c
get_elem?-At {i = i} {c = c} {xs = xs} a =
    ap (λ l. get_elem? l i) a.split
    ∙ get_elem?-append_length a.before c (xs ++ a.after) i (sym a.start)

-- The unread bytes of a valid buffer lie in its vector at the read index.
pub At-readable : (b : TcpBuffer) → IsValid b → At b.m_buffer b.m_read_index (readable b)
At-readable b v = record {
  before = take b.m_read_index b.m_buffer;
  after = drop (b.m_write_index - b.m_read_index) (drop b.m_read_index b.m_buffer);
  split =
      sym (take-append-drop b.m_read_index b.m_buffer)
      ∙ ap (λ l. take b.m_read_index b.m_buffer ++ l)
          (sym
            (take-append-drop (b.m_write_index - b.m_read_index) (drop b.m_read_index b.m_buffer)));
  start = length-take b.m_read_index b.m_buffer (omega (arith, v.ordered, v.within));
}

-- Four bytes put together give the pattern that they were taken from.
quads :
    (w : ℕ)
    → w < 2 ^ 32
    → w / 2 ^ 24 % 256 * 2 ^ 24 + w / 2 ^ 16 % 256 * 2 ^ 16 + w / 2 ^ 8 % 256 * 2 ^ 8 + w % 256 ≡ w
quads w h = omega arith

pub net_int-net_bytes : (z : ℤ) → IsInt32 z → net_int (net_bytes z) ≡ some z
unfolding net_int net_bytes
net_int-net_bytes z h = rw (quads (bits32 z) (bits32-lt z)) (ap some (signed32-bits32 z h))

pub length-net_bytes : (z : ℤ) → length (net_bytes z) ≡ 4
unfolding net_bytes
length-net_bytes z = refl

-- Reading an `int` where its network bytes lie gives it back.
pub get_int32-At :
    {temp : List ℕ} {i : ℕ} (z : ℤ)
    → IsInt32 z
    → At temp i (net_bytes z)
    → get_int32_from_net_byte temp i ≡ some z
unfolding get_int32_from_net_byte
get_int32-At {temp} {i} z h a =
    rw (ap (copy_from temp i) (sym (length-net_bytes z)) ∙ copy_from-At a) (net_int-net_bytes z h)

-- A text that an array of `cap` bytes holds with its final zero.
pub record FitsArray (cap : ℕ) (s : List ℕ) : Type 0 where
  pub no_nul : All (λ c. c ≢ 0) s
  pub short : length s < cap

c_string_lem :
    (cap : ℕ) (s : List ℕ) → All (λ c. c ≢ 0) s → length s < cap → c_string cap s ≡ some s
unfolding c_string
c_string_lem zero s n h = elim h [ ]
c_string_lem (suc cap) [] n h = refl
c_string_lem (suc cap) (c ∷ s) n h = rw (==_false c 0 n.0, c_string_lem cap s n.1 (omega arith))

-- So does reading a text field.
pub string_field-At :
    {temp : List ℕ} {i : ℕ} (cap : ℕ) (s : List ℕ)
    → FitsArray cap s
    → At temp i s
    → string_field cap temp i (pos (length s)) ≡ some s
unfolding string_field
string_field-At cap s f a =
    rw (copy_from-At a, le→leb (length s) cap (omega (arith, f.short)))
      (c_string_lem cap s f.no_nul f.short)
