-- ===== src/Protocol/Codec.antt =====
-- Packing and unpacking: the round trip, the bounds of every access, and corrupted data.
use ntut_network_and_system.Base.{
  ℕ, ==_iff, le-ltb, lt-ltb, ◌+◌, ◌%◌, ◌^◌, ◌≤◌, ◌<◌, ◌≡◌, refl, ◌∙◌, List, ◌++◌, arith, length,
  drop, take_all, take-append, length-replicate, length-append, length-drop, done,
}
use ntut_network_and_system.Base.Int.{pos, neg}
use ntut_network_and_system.Memory.{memcpy-done, htons, htonl, ntohs-htons, ntohl-htonl}
use ntut_network_and_system.Crypto.Sum.{sum, calculate_checksum-sum}
use ntut_network_and_system.Protocol.{
  BankingPacket, data_length, blank_data, verify_packet_checksum, pack_request, unpack_request,
}

pub length-blank_data : length blank_data ≡ 1024
unfolding blank_data
length-blank_data = length-replicate {A = ℕ} 1024 0

-- The packet that a block of `n` bytes is packed into.
abbrev pub packed : ℕ → ℕ → List ℕ → BankingPacket
packed rand_id opcode block = record {
  header = record {
    length_field = htonl (12 + length block);
    op_code = htons opcode;
    checksum = htons (sum block % 2 ^ 16);
    req_id = rand_id;
  };
  payload = block ++ drop (length block) blank_data;
}

header_length : (n : ℕ) → n ≤ 1024 → (12 + n) % 2 ^ 32 ≡ 12 + n
header_length n h = omega arith

pub pack_request-packed :
    (rand_id : ℕ) (packet : BankingPacket) (opcode : ℕ) (block : List ℕ)
    → length block ≤ 1024
    → pack_request rand_id packet opcode block (length block)
      ≡ done (pos 0, packed rand_id opcode block)
unfolding pack_request
pack_request-packed rand_id packet opcode block h = rw (
  le-ltb (length block) 1024 h,
  memcpy-done blank_data block (length block) (omega arith) (omega (arith, length-blank_data)),
  take_all (length block) block (omega arith),
  calculate_checksum-sum (block ++ drop (length block) blank_data) (length block)
      (omega (arith, length-append block (drop (length block) blank_data))),
  take-append (length block) block (drop (length block) blank_data) refl,
  header_length (length block) h,
)

pub pack_request_too_large :
    (rand_id : ℕ) (packet : BankingPacket) (opcode : ℕ) (block : List ℕ) (n : ℕ)
    → 1024 < n
    → pack_request rand_id packet opcode block n ≡ done (neg 1, packet)
unfolding pack_request
pack_request_too_large rand_id packet opcode block n h = ground arith

-- The length that the receiver computes is the length that was sent.
pub data_length-packed :
    (rand_id opcode : ℕ) (block : List ℕ)
    → length block ≤ 1024
    → data_length (packed rand_id opcode block) ≡ length block
data_length-packed rand_id opcode block h =
    rw (ntohl-htonl (12 + length block) (omega arith)) (omega arith)

pub length-packed :
    (rand_id opcode : ℕ) (block : List ℕ)
    → length block ≤ 1024
    → length (packed rand_id opcode block).payload ≡ 1024
length-packed rand_id opcode block h =
    length-append block (drop (length block) blank_data)
    ∙ omega (arith, length-drop (length block) blank_data, length-blank_data)

-- A packed packet passes the check.
pub verify-packed :
    (rand_id opcode : ℕ) (block : List ℕ)
    → length block ≤ 1024
    → verify_packet_checksum (packed rand_id opcode block) ≡ done (pos 0)
unfolding verify_packet_checksum
verify-packed rand_id opcode block h = rw (
  data_length-packed rand_id opcode block h,
  calculate_checksum-sum (packed rand_id opcode block).payload (length block)
      (omega (arith, length-packed rand_id opcode block h)),
  take-append (length block) block (drop (length block) blank_data) refl,
  ntohs-htons (sum block % 2 ^ 16) (omega arith),
  (==_iff (sum block % 2 ^ 16) (sum block % 2 ^ 16)).1 refl,
)

-- Unpacking a packet that holds a block of at most 1024 bytes, into a buffer that is no smaller,
-- succeeds and writes the block to the front of the buffer, leaving the rest of it alone.
pub unpack_request-packed :
    (rand_id opcode : ℕ) (block buffer : List ℕ)
    → length block ≤ length buffer
    → length block ≤ 1024
    → unpack_request (packed rand_id opcode block) buffer (length buffer)
      ≡ done (pos 0, block ++ drop (length block) buffer)
unfolding unpack_request
unpack_request-packed rand_id opcode block buffer fits h =
    let n = data_length-packed rand_id opcode block h in
    rw (
      verify-packed rand_id opcode block h,
      n,
      le-ltb (length block) (length buffer) fits,
      memcpy-done buffer (packed rand_id opcode block).payload (length block)
          (omega (arith, length-packed rand_id opcode block h)) fits,
      take-append (length block) block (drop (length block) blank_data) refl,
    )

-- A payload that is larger than the receiver's block is refused.
pub unpack_request_too_large :
    (rand_id opcode : ℕ) (block buffer : List ℕ)
    → length buffer < length block
    → length block ≤ 1024
    → unpack_request (packed rand_id opcode block) buffer (length buffer) ≡ done (neg 1, buffer)
unfolding unpack_request
unpack_request_too_large rand_id opcode block buffer big h = rw (
  verify-packed rand_id opcode block h,
  data_length-packed rand_id opcode block h,
  lt-ltb (length buffer) (length block) big,
)
