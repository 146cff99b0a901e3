-- ===== src/ClientCore/Interop.antt =====
-- This client and the banking server do not understand one another.
use ntut_network_and_system.Base.{
  ℕ, ◌+◌, ◌%◌, ◌^◌, ◌<◌, ◌≡◌, inl, inr, Bool-cases, le-ltb, lt-ltb, refl, ◌∙◌, true, not, ◌||◌,
  Option, some, List, [], ◌∷◌, ◌++◌, arith, ◌==◌, length, take, length-append, length-take, done,
}
use ntut_network_and_system.Base.Int.{ℤ, pos, neg}
use ntut_network_and_system.Memory.{le16, le32, htonl}
use ntut_network_and_system.Protocol.{PacketHeader, op_response}
use ntut_network_and_system.Protocol.Codec.{packed}
use ntut_network_and_system.Crypto.Sum.{sum, calculate_checksum-sum}
use ntut_network_and_system.ClientCore.{
  ClientContext, client_header, client_send, client_receive, receive_body, header_bytes,
}

length-header_bytes : (h : PacketHeader) → length (header_bytes h) ≡ 12
unfolding header_bytes le16 le32
length-header_bytes h = refl

client_header-done :
    (rand_id op_code : ℕ) (payload : List ℕ)
    → length payload < 1024
    → (h : PacketHeader) × (client_header rand_id op_code payload (length payload) ≡ done h)
      × (h.length_field ≡ 12 + length payload)
unfolding client_header
client_header-done rand_id op_code [] short = (_, refl, omega arith)
client_header-done rand_id op_code (b ∷ payload) short = (
  record {
    length_field = (12 + length (b ∷ payload)) % 2 ^ 32;
    op_code = op_code;
    checksum = sum (take (length (b ∷ payload)) (b ∷ payload)) % 2 ^ 16;
    req_id = rand_id;
  },
  ground (arith, calculate_checksum-sum (b ∷ payload) (length (b ∷ payload)) (omega arith)),
  omega arith,
)

-- A connected client that sends a payload of fewer than 1024 bytes hands 12 bytes and the
-- payload to TLS, which is less than the 1036 bytes of the packet that the server reads.
pub client_send_short :
    (rand_id : ℕ) (sent : ℕ → ℕ) (client : ClientContext) (op_code : ℕ) (payload : List ℕ)
    → client.is_connected ≡ true
    → client.has_ssl ≡ true
    → length payload < 1024
    → (code : ℤ) × (written : List ℕ) × (client_send rand_id sent client op_code payload
          (length payload)
        ≡ done (code, written))
      × (length written ≡ 12 + length payload)
unfolding client_send
client_send_short rand_id sent client op_code payload up ssl short =
    let (h, run, len) = client_header-done rand_id op_code payload short in
    let written = header_bytes h ++ take (length payload) payload in
    let size : length written ≡ 12 + length payload =
      length-append (header_bytes h) (take (length payload) payload)
      ∙ omega (arith, length-header_bytes h, length-take (length payload) payload) in
    elim (Bool-cases (sent h.length_field == 0)) [
      | inl failed ↦ (
        neg 1,
        written,
        rw (
          up,
          ssl,
          run,
          le-ltb h.length_field 4096 (omega arith),
          le-ltb (length payload) 4084 (omega arith),
          failed,
        ),
        size,
      )
      | inr went ↦ (
        pos (sent h.length_field),
        written,
        rw (
          up,
          ssl,
          run,
          le-ltb h.length_field 4096 (omega arith),
          le-ltb (length payload) 4084 (omega arith),
          went,
        ),
        size,
      )
    ]

-- The header of a server's answer, which announces 280 bytes in network order, makes this
-- client's receive return -1 for every buffer of fewer than 400 million bytes.
pub client_receive_refuses :
    (client : ClientContext) (rand_id : ℕ) (block : List ℕ) (body : Option (ℕ × List ℕ))
    (buffer_size : ℕ)
    → length block ≡ 268
    → buffer_size < 400000000
    → client_receive client
        (record { header = some (packed rand_id op_response block).header; body = body })
        buffer_size
      ≡ done (neg 1)
unfolding client_receive receive_body htonl
client_receive_refuses client rand_id block body buffer_size size small =
    elim (Bool-cases (not client.is_connected || not client.has_ssl)) [
      | inl down ↦ rw down
      | inr up ↦ rw (up, size, lt-ltb buffer_size 402718708 (omega arith))
    ]
