-- ===== src/Tests/Packets.antt =====
-- Packets and their checksums.
use ntut_network_and_system.Base.{
  ℕ, ◌≡◌, refl, ◌⊎◌, ◌↔◌, ◌<◌, ◌≤◌, List, [], ◌∷◌, ◌++◌, drop, replicate, length, done, fault,
  arith,
}
use ntut_network_and_system.Base.Int.{ℤ, pos, neg}
use ntut_network_and_system.Memory.{ntohl, htonl}
use ntut_network_and_system.Crypto.{calculate_checksum}
use mathlib.Core.List.Perm
use ntut_network_and_system.Crypto.Sum.{calculate_checksum-perm}
use ntut_network_and_system.Protocol.{
  BankingPacket, data_length, op_deposit, verify_packet_checksum, unpack_request,
}
use ntut_network_and_system.Protocol.Codec.{packed, length-packed, unpack_request-packed}
use ntut_network_and_system.Protocol.Bounds.{
  InBounds, verdict, verify-fault_iff, unpack_request_safe,
}
use ntut_network_and_system.Protocol.Corruption.{corrupted, verify-corrupted}

abbrev five_bytes : List ℕ
five_bytes = 10 ∷ 20 ∷ 250 ∷ 0 ∷ 7 ∷ []

abbrev good : BankingPacket
good = packed 99 op_deposit five_bytes

abbrev three : List ℕ
three = replicate 3 0

abbrev eight : List ℕ
eight = replicate 8 1

-- The same packet with a header that announces 4 bytes.
abbrev too_short : BankingPacket
too_short = record good { header = record (good.header) { length_field = htonl 4 } }

good_size : length good.payload ≡ 1024
good_size = length-packed 99 op_deposit five_bytes (omega arith)

good-InBounds : InBounds good
unfolding htonl
good-InBounds = record { at_least = omega arith; at_most = omega arith }

verify-fault_iff_example :
    (verify_packet_checksum too_short ≡ fault)
    ↔ ((ntohl too_short.header.length_field < 12) ⊎ (1036 < ntohl too_short.header.length_field))
verify-fault_iff_example = verify-fault_iff too_short good_size

unpack_request_safe_example :
    (code : ℤ) × (out : List ℕ) × (unpack_request good three (length three) ≡ done (code, out))
    × (length out ≡ length three)
    × (((code ≡ pos 0) × (verdict good ≡ pos 0) × (data_length good ≤ length three))
        ⊎ ((code ≡ neg 1) × (out ≡ three)))
unpack_request_safe_example = unpack_request_safe good good_size three good-InBounds

unpack_request-packed_example :
    unpack_request (packed 99 op_deposit five_bytes) eight (length eight)
    ≡ done (pos 0, five_bytes ++ drop (length five_bytes) eight)
unpack_request-packed_example =
    unpack_request-packed 99 op_deposit five_bytes eight (omega arith) (omega arith)

verify-corrupted_example :
    verify_packet_checksum (corrupted (packed 99 op_deposit five_bytes) 2 251) ≡ done (neg 1)
verify-corrupted_example =
    verify-corrupted 99 op_deposit five_bytes 2 250 251 (omega arith) refl (omega arith)
      (omega arith) (omega arith)

checksum_five_bytes : calculate_checksum five_bytes 5 ≡ done 287
unfolding calculate_checksum
checksum_five_bytes = refl

abbrev three_bytes : List ℕ
three_bytes = 20 ∷ 10 ∷ 250 ∷ []

abbrev three_swapped : List ℕ
three_swapped = 10 ∷ 20 ∷ 250 ∷ []

calculate_checksum-perm_example :
    calculate_checksum three_bytes (length three_bytes)
    ≡ calculate_checksum three_swapped (length three_swapped)
calculate_checksum-perm_example =
    calculate_checksum-perm three_bytes three_swapped (Perm.swap 10 20 (250 ∷ []))
