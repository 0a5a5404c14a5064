-- ===== src/Coder/Strings.antt =====
-- RpcFramework/rocket/net/coder/string_coder.h: messages that are plain text, with no framing.
use rpc_framework.Base.{
  ℕ, length, length-append, ◌≡◌, refl, ap, sym, ◌∙◌, List, [], ◌∷◌, ◌++◌, Option, some, ◌>>=◌, ◌<◌,
  ◌-◌, append_assoc, append-nil, arith, take-all, drop-all,
}
use rpc_framework.Base.Int.{pos}
use rpc_framework.Buffer.{
  TcpBuffer, IsValid, CanTake, readable, read_able, write_to_buffer, read_from_buffer,
}
use rpc_framework.Buffer.Laws.{write_to_buffer-Written, length-readable}
use rpc_framework.Buffer.Moves.{read_from_buffer-readable}

pub record StringProtocol : Type 0 where
  pub m_msg_id : List ℕ
  pub info : List ℕ

-- "123456"
abbrev pub string_msg_id : List ℕ
string_msg_id = 49 ∷ 50 ∷ 51 ∷ 52 ∷ 53 ∷ 54 ∷ []

unfoldable pub encode : List StringProtocol → TcpBuffer → Option TcpBuffer
encode [] out_buffer = some out_buffer
encode (msg ∷ messages) out_buffer = write_to_buffer msg.info out_buffer >>= encode messages

-- `decode` adds one message, with all that is readable.
unfoldable pub decode : List StringProtocol → TcpBuffer → Option (List StringProtocol × TcpBuffer)
decode out_messages buffer = do
  r ← read_from_buffer [] (read_able buffer) buffer
  some (out_messages ++ record { m_msg_id = string_msg_id; info = r.0 } ∷ [], r.1)

abbrev pub texts : List StringProtocol → List ℕ
texts [] = []
texts (msg ∷ messages) = msg.info ++ texts messages

-- `encode` does not fault on a valid buffer whose write index and the texts are together at most
-- `write_limit`, and appends the texts to the unread bytes.
pub encode-texts :
    (ms : List StringProtocol) (b : TcpBuffer)
    → CanTake (length (texts ms)) b
    → (c : TcpBuffer) × (encode ms b ≡ some c) × IsValid c × (readable c ≡ readable b ++ texts ms)
unfolding encode
encode-texts [] b t = (b, refl, t.valid, sym (append-nil (readable b)))
encode-texts (m ∷ ms) b t =
    let count = length-append m.info (texts ms) in
    let w =
      write_to_buffer-Written m.info b
        (record { valid = t.valid; small = omega (arith, t.small, count) }) in
    let (d, e, v, r) =
      encode-texts ms w.result
        (record { valid = w.valid; small = omega (arith, t.small, w.bounded, count) }) in
    (
      d,
      rw w.returns e,
      v,
      r ∙ ap (λ l. l ++ texts ms) w.bytes ∙ append_assoc (readable b) m.info (texts ms),
    )

-- On a valid buffer with unread bytes `decode` returns one more message, whose text is all of them: the
-- borders between the messages that were encoded are lost. It leaves nothing unread.
pub decode-readable :
    (out : List StringProtocol) (b : TcpBuffer)
    → IsValid b
    → b.m_read_index < b.m_write_index
    → (c : TcpBuffer) × (decode out b
        ≡ some (out ++ record { m_msg_id = string_msg_id; info = readable b } ∷ [], c))
      × IsValid c
      × (readable c ≡ [])
unfolding decode
decode-readable out b v h =
    let n = b.m_write_index - b.m_read_index in
    let (c, e, v', r, _k) = read_from_buffer-readable [] n b v h in
    let able : read_able b ≡ pos n = ground (arith, v.ordered) in
    let all = take-all n (readable b) (omega (arith, length-readable v)) in
    (c, rw (able, e, all) refl, v', r ∙ drop-all n (readable b) (omega (arith, length-readable v)))
