-- ===== src/Crypto/Sum.antt =====
-- The checksum is the sum of the bytes modulo 2^16; what it notices of a change and what not.
use ntut_network_and_system.Base.{
  ℕ, zero, suc, ◌+◌, ◌%◌, ◌^◌, ◌≤◌, ◌<◌, ◌≡◌, refl, ap, sym, ◌∙◌, List, [], ◌∷◌, ◌++◌, arith,
  length, take, take_all, set, get_elem?, some, done, fault,
}
use mathlib.Core.Logic.{∥∥₁_elim}
use native.Mathlib.Nat.{ℕ_set}
use mathlib.Core.List.{Perm, Permᴰ}
use ntut_network_and_system.Crypto.{checksum_loop, calculate_checksum}

pub sum : List ℕ → ℕ
sum [] = 0
sum (b ∷ bytes) = b + sum bytes

checksum_loop-sum :
    (bytes : List ℕ) (n acc : ℕ)
    → n ≤ length bytes
    → acc < 2 ^ 16
    → checksum_loop bytes n acc ≡ done ((acc + sum (take n bytes)) % 2 ^ 16)
unfolding checksum_loop sum
checksum_loop-sum bytes zero acc h k = ap done (omega arith)
checksum_loop-sum [] (suc n) acc h k = elim h [ ]
checksum_loop-sum (b ∷ bytes) (suc n) acc h k =
    checksum_loop-sum bytes n ((acc + b) % 2 ^ 16) (omega arith) (omega arith)
    ∙ ap done (omega arith)

checksum_loop-fault :
    (bytes : List ℕ) (n acc : ℕ) → length bytes < n → checksum_loop bytes n acc ≡ fault
unfolding checksum_loop
checksum_loop-fault bytes zero acc h = elim h [ ]
checksum_loop-fault [] (suc n) acc h = refl
checksum_loop-fault (b ∷ bytes) (suc n) acc h =
    checksum_loop-fault bytes n ((acc + b) % 2 ^ 16) (omega arith)

-- Inside the block the checksum is the sum of its first `len` bytes, modulo 2^16.
pub calculate_checksum-sum :
    (bytes : List ℕ) (len : ℕ)
    → len ≤ length bytes
    → calculate_checksum bytes len ≡ done (sum (take len bytes) % 2 ^ 16)
unfolding calculate_checksum
calculate_checksum-sum bytes len h =
    checksum_loop-sum bytes len 0 h (omega arith) ∙ ap done (omega arith)

-- A length past the end of the block makes the loop read past it.
pub calculate_checksum-fault :
    (bytes : List ℕ) (len : ℕ) → length bytes < len → calculate_checksum bytes len ≡ fault
unfolding calculate_checksum
calculate_checksum-fault bytes len h = checksum_loop-fault bytes len 0 h

pub sum-append : (xs ys : List ℕ) → sum (xs ++ ys) ≡ sum xs + sum ys
unfolding sum
sum-append [] ys = omega arith
sum-append (x ∷ xs) ys = omega (arith, sum-append xs ys)

-- Replacing one byte moves the sum by the difference of the two.
pub sum-set :
    (xs : List ℕ) (i b c : ℕ) → get_elem? xs i ≡ some b → sum (set xs i c) + b ≡ sum xs + c
unfolding sum
sum-set [] i b c h = cc
sum-set (x ∷ xs) zero b c h = ground arith
sum-set (x ∷ xs) (suc i) b c h = omega (arith, sum-set xs i b c h)

-- The order of the bytes does not matter.
sum-Permᴰ : {xs ys : List ℕ} → Permᴰ xs ys → sum xs ≡ sum ys
unfolding sum
sum-Permᴰ Permᴰ.nil = refl
sum-Permᴰ (Permᴰ.cons e p) = omega (arith, sum-Permᴰ p)
sum-Permᴰ (Permᴰ.swap e e') = omega arith
sum-Permᴰ (Permᴰ.trans p q) = sum-Permᴰ p ∙ sum-Permᴰ q

sum-perm : {xs ys : List ℕ} → Perm xs ys → sum xs ≡ sum ys
sum-perm p = ∥∥₁_elim p (ℕ_set _ _) sum-Permᴰ

-- The checksum of a whole block does not change when its bytes are put in another order.
pub calculate_checksum-perm :
    (xs ys : List ℕ)
    → Perm xs ys
    → calculate_checksum xs (length xs) ≡ calculate_checksum ys (length ys)
calculate_checksum-perm xs ys p =
    calculate_checksum-sum xs (length xs) (omega arith)
    ∙ ap done (
        rw (
          take_all (length xs) xs (omega arith),
          take_all (length ys) ys (omega arith),
          sum-perm p,
        ))
    ∙ sym (calculate_checksum-sum ys (length ys) (omega arith))
