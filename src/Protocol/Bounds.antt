-- ===== src/Protocol/Bounds.antt =====
-- Which packets make the receiver read outside the packet, and what it does on the others.
use ntut_network_and_system.Base.{
  done-ne-fault, ℕ, ◌%◌, ◌^◌, ◌≤◌, ◌<◌, ◌≡◌, refl, ◌⊎◌, ◌↔◌, inl, inr, sym, ◌++◌, ◌∙◌, Bool-cases,
  List, ◌==◌, arith, length, take, drop, if◌then◌else◌, done, fault, le-ltb, lt-ltb,
}
use native.Mathlib.Decide.{dec_le}
use ntut_network_and_system.Base.Int.{ℤ, pos, neg}
use ntut_network_and_system.Memory.{memcpy-done, length-copy, ntohs, ntohl, htonl-lt}
use ntut_network_and_system.Crypto.Sum.{sum, calculate_checksum-sum, calculate_checksum-fault}
use ntut_network_and_system.Protocol.{
  BankingPacket, data_length, verify_packet_checksum, unpack_request,
}

-- The announced length is that of a header and at most 1024 bytes.
pub record InBounds (p : BankingPacket) : Type 0 where
  pub at_least : 12 ≤ ntohl p.header.length_field
  pub at_most : ntohl p.header.length_field ≤ 1036

-- What the check answers on such a packet.
abbrev pub verdict : BankingPacket → ℤ
verdict p =
    if sum (take (data_length p) p.payload) % 2 ^ 16 == ntohs p.header.checksum
    then pos 0
    else neg 1

module _ (p : BankingPacket) (whole : length p.payload ≡ 1024) where
  pub data_length-le : InBounds p → data_length p ≤ 1024
  data_length-le b = omega (arith, b.at_least, b.at_most)

  data_length-lt : ntohl p.header.length_field < 12 → 1024 < data_length p
  data_length-lt h = omega arith

  data_length-lt_big : 1036 < ntohl p.header.length_field → 1024 < data_length p
  data_length-lt_big h = omega (arith, htonl-lt p.header.length_field)

  pub verify-InBounds : InBounds p → verify_packet_checksum p ≡ done (verdict p)
  unfolding verify_packet_checksum
  verify-InBounds b =
      rw (calculate_checksum-sum p.payload (data_length p) (omega (arith, data_length-le b, whole)))
        refl

  verify_fault : 1024 < data_length p → verify_packet_checksum p ≡ fault
  unfolding verify_packet_checksum
  verify_fault h =
      rw (calculate_checksum-fault p.payload (data_length p) (omega (arith, whole))) refl

  -- On a packet with 1024 data bytes, the checksum test reads outside the packet exactly when
  -- the header announces fewer than 12 bytes or more than 1036.
  pub verify-fault_iff :
      (verify_packet_checksum p ≡ fault)
      ↔ ((ntohl p.header.length_field < 12) ⊎ (1036 < ntohl p.header.length_field))
  verify-fault_iff = (bad, worse)
    where
      bad :
          verify_packet_checksum p ≡ fault
          → (ntohl p.header.length_field < 12) ⊎ (1036 < ntohl p.header.length_field)
      bad e = elim (dec_le 12 (ntohl p.header.length_field)) [
        | no short ↦ inl (omega arith)
        | yes lo ↦ elim (dec_le (ntohl p.header.length_field) 1036) [
          | no long ↦ inr (omega arith)
          | yes hi ↦
              absurd
                (done-ne-fault (sym (verify-InBounds (record { at_least = lo; at_most = hi })) ∙ e))
        ]
      ]

      worse :
          (ntohl p.header.length_field < 12) ⊎ (1036 < ntohl p.header.length_field)
          → verify_packet_checksum p ≡ fault
      worse (inl h) = verify_fault (data_length-lt h)
      worse (inr h) = verify_fault (data_length-lt_big h)

  -- On a packet with 1024 data bytes that announces between 12 and 1036 bytes, unpacking ends
  -- and the caller's block keeps its size. Either the checksum is right and the data fit the
  -- block, and the result is 0, or the result is -1 and the block is as it was.
  pub unpack_request_safe :
      (block : List ℕ)
      → InBounds p
      → (code : ℤ) × (out : List ℕ) × (unpack_request p block (length block) ≡ done (code, out))
        × (length out ≡ length block)
        × (((code ≡ pos 0) × (verdict p ≡ pos 0) × (data_length p ≤ length block))
            ⊎ ((code ≡ neg 1) × (out ≡ block)))
  unfolding unpack_request
  unpack_request_safe block b =
      elim (Bool-cases (sum (take (data_length p) p.payload) % 2 ^ 16 == ntohs p.header.checksum)) [
        | inr bad ↦ (neg 1, block, rw (verify-InBounds b, bad), refl, inr (refl, refl))
        | inl good ↦ elim (dec_le (data_length p) (length block)) [
          | no long ↦ (
            neg 1,
            block,
            rw (verify-InBounds b, good, lt-ltb (length block) (data_length p) (omega arith)),
            refl,
            inr (refl, refl),
          )
          | yes fits ↦ (
            pos 0,
            take (data_length p) p.payload ++ drop (data_length p) block,
            rw (
              verify-InBounds b,
              good,
              le-ltb (data_length p) (length block) fits,
              memcpy-done block p.payload (data_length p) (omega (arith, data_length-le b, whole))
                  fits,
            ),
            length-copy block p.payload (data_length p) (omega (arith, data_length-le b, whole))
                fits,
            inl (refl, rw good, fits),
          )
        ]
      ]
