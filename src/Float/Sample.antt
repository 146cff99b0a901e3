-- ===== src/Float/Sample.antt =====
-- A small number system that meets the laws of `Float`: whole numbers and a NaN. It stands for
-- `double` in tests and examples.
use ntut_network_and_system.Base.{
  ℕ, zero, suc, ◌≡◌, refl, Bool, false, List, [], ◌∷◌, ◌++◌, length, arith, codes,
}
use ntut_network_and_system.Base.Int.{ℤ, pos, negsuc, ◌+ℤ◌, ◌-ℤ◌, ltb_ℤ, leb_ℤ}
use ntut_network_and_system.Float.{FloatOps, IsOrdered, IsNan, IsEncoded}

pub data Tiny : Type 0 where
  nan : Tiny
  num : ℤ → Tiny

abbrev lift2 : (ℤ → ℤ → ℤ) → Tiny → Tiny → Tiny
lift2 g (num a) (num b) = num (g a b)
lift2 g (num a) nan = nan
lift2 g nan b = nan

abbrev test2 : (ℤ → ℤ → Bool) → Tiny → Tiny → Bool
test2 g (num a) (num b) = g a b
test2 g (num a) nan = false
test2 g nan b = false

-- A tag and a magnitude in front of six zeros; eight zeros are 0, as for a `double`.
abbrev tiny_bytes : Tiny → List ℕ
tiny_bytes (num (pos n)) = 0 ∷ n ∷ 0 ∷ 0 ∷ 0 ∷ 0 ∷ 0 ∷ 0 ∷ []
tiny_bytes (num (negsuc n)) = 1 ∷ n ∷ 0 ∷ 0 ∷ 0 ∷ 0 ∷ 0 ∷ 0 ∷ []
tiny_bytes nan = 2 ∷ 0 ∷ 0 ∷ 0 ∷ 0 ∷ 0 ∷ 0 ∷ 0 ∷ []

abbrev tiny_tagged : ℕ → ℕ → Tiny
tiny_tagged zero n = num (pos n)
tiny_tagged (suc zero) n = num (negsuc n)
tiny_tagged (suc (suc t)) n = nan

abbrev tiny_of_bytes : List ℕ → Tiny
tiny_of_bytes (t ∷ n ∷ rest) = tiny_tagged t n
tiny_of_bytes (t ∷ []) = nan
tiny_of_bytes [] = nan

abbrev tiny_text : Tiny → List ℕ
tiny_text nan = codes "nan"
tiny_text (num (pos n)) = n ∷ codes ".00"
tiny_text (num (negsuc n)) = codes "-" ++ n ∷ codes ".00"

abbrev pub tiny_ops : FloatOps Tiny
tiny_ops = record {
  zero_f = num (pos 0);
  add = lift2 ◌+ℤ◌;
  sub = lift2 ◌-ℤ◌;
  lt = test2 ltb_ℤ;
  le = test2 leb_ℤ;
  to_bytes = tiny_bytes;
  of_bytes = tiny_of_bytes;
  format_2f = tiny_text;
}

add_not_below :
    (a b : Tiny)
    → test2 ltb_ℤ a (num (pos 0)) ≡ false
    → test2 leb_ℤ b (num (pos 0)) ≡ false
    → test2 ltb_ℤ (lift2 ◌+ℤ◌ a b) (num (pos 0)) ≡ false
unfolding ◌+ℤ◌
add_not_below nan b h k = refl
add_not_below (num a) nan h k = refl
add_not_below (num (pos a)) (num (pos b)) h k = ground arith
add_not_below (num (pos a)) (num (negsuc b)) h k = ground arith
add_not_below (num (negsuc a)) (num b) h k = ground arith

sub_not_below :
    (a b : Tiny) → test2 ltb_ℤ a b ≡ false → test2 ltb_ℤ (lift2 ◌-ℤ◌ a b) (num (pos 0)) ≡ false
unfolding ◌-ℤ◌
sub_not_below nan b h = refl
sub_not_below (num a) nan h = refl
sub_not_below (num a) (num b) h = ground arith

add_nan : (a : Tiny) → lift2 ◌+ℤ◌ a nan ≡ nan
add_nan nan = refl
add_nan (num a) = refl

pub tiny_IsOrdered : IsOrdered tiny_ops
unfolding ◌+ℤ◌ ◌-ℤ◌
tiny_IsOrdered = record {
  zero_not_below = refl;
  add_not_below = add_not_below;
  sub_not_below = sub_not_below;
}

pub nan-IsNan : IsNan tiny_ops nan
unfolding ◌+ℤ◌ ◌-ℤ◌
nan-IsNan = record {
  not_lt = λ a. refl;
  not_le = λ a. refl;
  add_nan = add_nan;
  sub_nan = λ a. refl;
}

length_bytes : (x : Tiny) → length (tiny_bytes x) ≡ 8
length_bytes nan = refl
length_bytes (num (pos n)) = refl
length_bytes (num (negsuc n)) = refl

of_to_bytes : (x : Tiny) → tiny_of_bytes (tiny_bytes x) ≡ x
of_to_bytes nan = refl
of_to_bytes (num (pos n)) = refl
of_to_bytes (num (negsuc n)) = refl

pub tiny_IsEncoded : IsEncoded tiny_ops
tiny_IsEncoded = record { length_bytes = length_bytes; of_to_bytes = of_to_bytes }
