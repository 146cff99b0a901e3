-- ===== src/Float.antt =====
-- What the program uses of C's `double` (balances and amounts): its arithmetic and comparisons,
-- its eight bytes inside a packet, and the text that `%.2f` prints. The operations are a
-- parameter of the model; the laws, where a theorem needs them, are hypotheses that IEEE 754 meets.
pub mod Sample
use ntut_network_and_system.Base.{ℕ, ◌≡◌, Bool, true, false, List, length}

pub record FloatOps (F : Type 0) : Type 0 where
  pub zero_f : F
  pub add : F → F → F
  pub sub : F → F → F
  -- `a < b` and `a <= b`: false where an operand is NaN.
  pub lt : F → F → Bool
  pub le : F → F → Bool
  pub to_bytes : F → List ℕ
  pub of_bytes : List ℕ → F
  -- `%.2f`
  pub format_2f : F → List ℕ

-- A balance that is not below zero stays so when a positive amount is added, or when an amount
-- that is not above it is taken away. Each law holds for NaN and the infinities too.
pub record IsOrdered {F : Type 0} (f : FloatOps F) : Type 0 where
  pub zero_not_below : f.lt f.zero_f f.zero_f ≡ false
  pub add_not_below :
      (a b : F)
      → f.lt a f.zero_f ≡ false
      → f.le b f.zero_f ≡ false
      → f.lt (f.add a b) f.zero_f ≡ false
  pub sub_not_below : (a b : F) → f.lt a b ≡ false → f.lt (f.sub a b) f.zero_f ≡ false

-- `x` is a NaN: every comparison with it fails, and it absorbs sums and differences.
pub record IsNan {F : Type 0} (f : FloatOps F) (x : F) : Type 0 where
  pub not_lt : (a : F) → f.lt x a ≡ false
  pub not_le : (a : F) → f.le x a ≡ false
  pub add_nan : (a : F) → f.add a x ≡ x
  pub sub_nan : (a : F) → f.sub x a ≡ x

-- A double is eight bytes, and reading them back gives it.
pub record IsEncoded {F : Type 0} (f : FloatOps F) : Type 0 where
  pub length_bytes : (x : F) → length (f.to_bytes x) ≡ 8
  pub of_to_bytes : (x : F) → f.of_bytes (f.to_bytes x) ≡ x
