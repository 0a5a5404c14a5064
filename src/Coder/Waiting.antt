-- ===== src/Coder/Waiting.antt =====
-- tinypb_coder.cpp: `decode` on a packet of which the end has not arrived.
use rpc_framework.Base.{
  ℕ, suc, ◌+◌, ◌-◌, ◌^◌, ◌<◌, ◌≤◌, ◌≡◌, refl, ap, sym, List, [], ◌∷◌, ◌++◌, length, arith,
  length-append, subst,
}
use rpc_framework.Base.Int.{pos}
use rpc_framework.Buffer.{TcpBuffer, IsValid, readable}
use rpc_framework.Buffer.Laws.{length-readable}
use rpc_framework.Coder.{TinyPbProtocol, net_bytes, pb_start}
use rpc_framework.Coder.Decoder.{decode, returns}
use rpc_framework.Coder.Located.{At-head, At-tail, At-readable, At, length-net_bytes}
use rpc_framework.Coder.Search.{
  Quiet, HasNoStart, HasNoStart-Quiet, packet_at-incomplete, decode_round-Quiet,
}

-- The unread bytes are the head of a packet and some of what follows it, with no other start byte among
-- them; the packet's end would be beyond them.
pub record IsPartial (size : ℕ) (body : List ℕ) (b : TcpBuffer) : Type 0 where
  pub valid : IsValid b
  pub bytes : readable b ≡ pb_start ∷ (net_bytes (pos size) ++ body)
  pub others : HasNoStart (net_bytes (pos size) ++ body)
  pub short : length (readable b) < size
  pub small : b.m_read_index + size < 2 ^ 31

pub IsPartial-Quiet :
    (size : ℕ) (body : List ℕ) (b : TcpBuffer)
    → IsPartial size body b
    → Quiet b.m_buffer b.m_write_index (b.m_write_index - b.m_read_index) b.m_read_index
IsPartial-Quiet size body b p =
    let r = b.m_read_index in
    let w = b.m_write_index in
    let head = net_bytes (pos size) ++ body in
    let at = subst (At b.m_buffer r) p.bytes (At-readable b p.valid) in
    let count : w - r ≡ suc (length head) =
      omega (arith, length-readable p.valid, ap length p.bytes) in
    let four : 4 ≤ length head =
      omega (arith, length-append (net_bytes (pos size)) body, length-net_bytes (pos size)) in
    let first =
      packet_at-incomplete b.m_buffer w r size (At-head (pb_start ∷ net_bytes (pos size)) body at)
        (omega arith) (omega (arith, length-readable p.valid, p.short, p.valid.ordered)) p.small in
    subst (λ n. Quiet b.m_buffer w n r) (sym count)
      (first, HasNoStart-Quiet head b.m_buffer w (r + 1) (At-tail (pb_start ∷ []) head at) p.others)

-- `decode` leaves the bytes of such a packet in the buffer and returns with what it found before.
pub decode-waits :
    (fuel size : ℕ) (body : List ℕ) (out : List TinyPbProtocol) (b : TcpBuffer)
    → IsPartial size body b
    → decode (suc fuel) out b ≡ returns out b
unfolding decode
decode-waits fuel size body out b p =
    rw (decode_round-Quiet b (IsPartial-Quiet size body b p), decode) refl
