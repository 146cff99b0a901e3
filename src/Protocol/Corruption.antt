-- ===== src/Protocol/Corruption.antt =====
-- What the checksum notices of a packet that was changed on its way.
use ntut_network_and_system.Base.{
  ne-==, ℕ, ◌+◌, ◌%◌, ◌^◌, ◌≤◌, ◌<◌, ◌≡◌, ◌≢◌, List, arith, length, drop, take-append, set,
  length-set, set-append, get_elem?, get_elem?-lt, some, done,
}
use ntut_network_and_system.Base.Int.{neg}
use ntut_network_and_system.Memory.{ntohs-htons}
use ntut_network_and_system.Crypto.Sum.{sum, calculate_checksum-sum, sum-set}
use ntut_network_and_system.Protocol.{BankingPacket, blank_data, verify_packet_checksum}
use ntut_network_and_system.Protocol.Codec.{packed, data_length-packed, length-packed}

-- One byte of the data becomes another.
abbrev pub corrupted : BankingPacket → ℕ → ℕ → BankingPacket
corrupted p i c = record p { payload = set p.payload i c }

sums_differ : (s t b c : ℕ) → s + b ≡ t + c → b < 256 → c < 256 → b ≢ c → s % 2 ^ 16 ≢ t % 2 ^ 16
sums_differ s t b c e hb hc ne = omega arith

-- A packet that was packed from at most 1024 bytes, and in which one byte of the data was then
-- replaced by a different byte, fails the checksum test.
pub verify-corrupted :
    (rand_id opcode : ℕ) (block : List ℕ) (i b c : ℕ)
    → length block ≤ 1024
    → get_elem? block i ≡ some b
    → b < 256
    → c < 256
    → b ≢ c
    → verify_packet_checksum (corrupted (packed rand_id opcode block) i c) ≡ done (neg 1)
unfolding verify_packet_checksum
verify-corrupted rand_id opcode block i b c h at hb hc ne =
    let p = packed rand_id opcode block in
    let rest = drop (length block) blank_data in
    let lt = get_elem?-lt block i at in
    rw (
      data_length-packed rand_id opcode block h,
      calculate_checksum-sum (set p.payload i c) (length block)
          (omega (arith, length-set p.payload i c, length-packed rand_id opcode block h)),
      set-append block rest i c lt,
      take-append (length block) (set block i c) rest (length-set block i c),
      ntohs-htons (sum block % 2 ^ 16) (omega arith),
      ne-== (sum (set block i c) % 2 ^ 16) (sum block % 2 ^ 16)
          (sums_differ (sum (set block i c)) (sum block) b c (sum-set block i b c at) hb hc ne),
    )
