-- ===== src/Crypto.antt =====
-- common/src/crypto.c: the additive 16-bit checksum of a block of bytes.
pub mod Sum
use ntut_network_and_system.Base.{
  ℕ, zero, suc, ◌+◌, ◌%◌, ◌^◌, ◌≡◌, Bool, List, [], ◌∷◌, ◌==◌, Run, done, fault, ◌>>=◌,
}

-- The loop, with the bytes that are left and the rounds that are left. Past the end of the block
-- a read is undefined.
unfoldable pub checksum_loop : List ℕ → ℕ → ℕ → Run ℕ
checksum_loop bytes zero sum = done sum
checksum_loop [] (suc n) sum = fault
checksum_loop (b ∷ bytes) (suc n) sum = checksum_loop bytes n ((sum + b) % 2 ^ 16)

unfoldable pub calculate_checksum : List ℕ → ℕ → Run ℕ
unfolding checksum_loop
calculate_checksum data_bytes len = checksum_loop data_bytes len 0

unfoldable pub verify_checksum : ℕ → List ℕ → ℕ → Run Bool
unfolding calculate_checksum
verify_checksum received_sum data_bytes len = do
  calculated ← calculate_checksum data_bytes len
  done (received_sum == calculated)
