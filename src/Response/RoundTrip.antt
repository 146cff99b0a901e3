-- ===== src/Response/RoundTrip.antt =====
-- A response that was packed is unpacked as it was.
use ntut_network_and_system.Base.{
  ℕ, ◌≡◌, refl, sym, append_assoc, ◌∙◌, List, ◌++◌, arith, append-nil, length, length-append,
  take-append, drop-append, take_all, drop_all, done,
}
use ntut_network_and_system.Base.Int.{pos, IsInt, word_of, int_of-word_of, word_of-lt}
use ntut_network_and_system.Float.{FloatOps, IsEncoded}
use ntut_network_and_system.Memory.{le32, of_le32-le32}
use ntut_network_and_system.Protocol.{BankingPacket, op_response}
use ntut_network_and_system.Protocol.Codec.{packed, pack_request-packed, unpack_request-packed}
use ntut_network_and_system.Response.{
  BankingResponse, response_bytes, response_of, pack_response, unpack_response,
}

-- The status is a 32-bit `int`, and the message fills its array.
pub record IsSized {F : Type 0} (r : BankingResponse F) : Type 0 where
  pub status_range : IsInt r.status
  pub message_length : length r.message ≡ 256

length-le32 : (x : ℕ) → length (le32 x) ≡ 4
unfolding le32
length-le32 x = refl

module _ {F : Type 0} (f : FloatOps F) (enc : IsEncoded f) (r : BankingResponse F)
    (ok : IsSized r) where
  pub length-response_bytes : length (response_bytes f r) ≡ 268
  unfolding response_bytes
  length-response_bytes =
      length-append (le32 (word_of r.status)) (r.message ++ f.to_bytes r.balance)
      ∙ omega (
        arith,
        length-append r.message (f.to_bytes r.balance),
        length-le32 (word_of r.status),
        enc.length_bytes r.balance,
        ok.message_length,
      )

  status_bytes : (response_of f (response_bytes f r)).status ≡ r.status
  unfolding response_of response_bytes
  status_bytes =
      rw (of_le32-le32 (word_of r.status) (r.message ++ f.to_bytes r.balance) (word_of-lt r.status))
        (int_of-word_of r.status ok.status_range)

  message_bytes : (response_of f (response_bytes f r)).message ≡ r.message
  unfolding response_of response_bytes
  message_bytes =
      rw
        (drop-append 4 (le32 (word_of r.status)) (r.message ++ f.to_bytes r.balance)
          (length-le32 (word_of r.status)))
        (take-append 256 r.message (f.to_bytes r.balance) ok.message_length)

  balance_bytes : (response_of f (response_bytes f r)).balance ≡ r.balance
  unfolding response_of response_bytes
  balance_bytes =
      let front = le32 (word_of r.status) ++ r.message in
      let size : length front ≡ 260 =
        length-append (le32 (word_of r.status)) r.message
        ∙ omega (arith, length-le32 (word_of r.status), ok.message_length) in
      rw
        (
          sym (append_assoc (le32 (word_of r.status)) r.message (f.to_bytes r.balance)),
          drop-append 260 front (f.to_bytes r.balance) size,
          take_all 8 (f.to_bytes r.balance) (omega (arith, enc.length_bytes r.balance)),
        )
        (enc.of_to_bytes r.balance)

  -- A response whose status is a 32-bit int and whose message has 256 bytes is read back from
  -- its 268 bytes as it was, where a double is read back from its 8 bytes.
  pub response_of-bytes : response_of f (response_bytes f r) ≡ r
  response_of-bytes =
      λ i. record { status = status_bytes i; message = message_bytes i; balance = balance_bytes i }

  -- What `pack_response` puts in a packet.
  pub pack_response-packed :
      (rand_id : ℕ) (packet : BankingPacket)
      → pack_response f rand_id packet r
        ≡ done (pos 0, packed rand_id op_response (response_bytes f r))
  unfolding pack_response
  pack_response-packed rand_id packet = rw (sym length-response_bytes) (
      pack_request-packed rand_id packet op_response (response_bytes f r)
        (omega (arith, length-response_bytes)))

  -- The receiver's struct holds the response.
  pub unpack_response-packed :
      (rand_id : ℕ) (block : List ℕ)
      → length block ≡ 268
      → unpack_response (packed rand_id op_response (response_bytes f r)) block
        ≡ done (pos 0, response_bytes f r)
  unfolding unpack_response
  unpack_response-packed rand_id block size = rw (
    sym size,
    unpack_request-packed rand_id op_response (response_bytes f r) block
        (omega (arith, length-response_bytes, size)) (omega (arith, length-response_bytes)),
    drop_all (length (response_bytes f r)) block (omega (arith, length-response_bytes, size)),
    append-nil (response_bytes f r),
  )
