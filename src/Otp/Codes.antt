-- ===== src/Otp/Codes.antt =====
-- The codes that the service makes: six digits, which fit the fields that hold them; and what the
-- search loops find.
use ntut_network_and_system.Base.{
  ℕ, zero, suc, ◌+◌, ◌/◌, ◌%◌, ◌^◌, ◌≤◌, ◌<◌, ◌≡◌, refl, ap, ◌∙◌, inl, inr, Bool, true, false,
  Bool-cases, none, some, List, [], ◌∷◌, arith, ltb, get_elem?, set, length,
}
use native.Mathlib.Nat.{pow-suc}
use ntut_network_and_system.CString.{IsText}
use ntut_network_and_system.Otp.{OtpEntry, decimal_loop, decimal, find_entry}

decimal_loop-IsText : (k n : ℕ) (digits : List ℕ) → IsText digits → IsText (decimal_loop k n digits)
unfolding decimal_loop
decimal_loop-IsText zero n digits h = h
decimal_loop-IsText (suc k) n digits h = elim (Bool-cases (ltb n 10)) [
  | inl last ↦ rw last (omega arith, h)
  | inr more ↦ rw more (decimal_loop-IsText k (n / 10) ((48 + n % 10) ∷ digits) (omega arith, h))
]

length-decimal_loop :
    (j k n : ℕ) (digits : List ℕ)
    → n < 10 ^ j
    → length (decimal_loop k n digits) ≤ length digits + suc j
unfolding decimal_loop
length-decimal_loop j zero n digits h = omega arith
length-decimal_loop zero (suc k) n digits h = ground arith
length-decimal_loop (suc j) (suc k) n digits h = elim (Bool-cases (ltb n 10)) [
  | inl last ↦ rw last (omega arith)
  | inr more ↦ rw more (
      omega (
        arith,
        length-decimal_loop j k (n / 10) ((48 + n % 10) ∷ digits) (omega (arith, pow-suc 10 j)),
      ))
]

pub decimal-IsText : (n : ℕ) → IsText (decimal n)
unfolding decimal
decimal-IsText n = decimal_loop-IsText 10 n [] tt

-- A six-digit number leaves room for a NUL in eight bytes.
pub length-decimal : (n : ℕ) → n < 1000000 → length (decimal n) ≤ 7
unfolding decimal
length-decimal n h = length-decimal_loop 6 10 n [] h

-- The entry that a search stops at passes its test.
pub find_entry-test :
    (test : OtpEntry → Bool) (k : ℕ) (db : List OtpEntry) {i : ℕ}
    → find_entry test k db ≡ some i
    → (j : ℕ) × (e : OtpEntry) × (i ≡ k + j) × (get_elem? db j ≡ some e) × (test e ≡ true)
unfolding find_entry
find_entry-test test k [] h = cc
find_entry-test test k (e ∷ db) {i} h = elim (Bool-cases (test e)) [
  | inl here ↦ (0, e, ground arith, refl, here)
  | inr further ↦
      let (j, e', same, at, t) = find_entry-test test (k + 1) db {i = i} (ground arith) in
      (suc j, e', omega arith, at, t)
]

-- A search by a test that is stricter stops at the same place, once that holds a passing entry.
pub find_entry-set :
    (loose strict : OtpEntry → Bool) (k j : ℕ) (db : List OtpEntry) (e' : OtpEntry)
    → ((e : OtpEntry) → loose e ≡ false → strict e ≡ false)
    → strict e' ≡ true
    → find_entry loose k db ≡ some (k + j)
    → find_entry strict k (set db j e') ≡ some (k + j)
unfolding find_entry
find_entry-set loose strict k j [] e' imp t h = cc
find_entry-set loose strict k zero (e ∷ db) e' imp t h = ground arith
find_entry-set loose strict k (suc j) (e ∷ db) e' imp t h = elim (Bool-cases (loose e)) [
  | inl stop ↦ absurd (ground arith)
  | inr on ↦
      let rest = find_entry-set loose strict (k + 1) j db e' imp t (ground arith) in
      ground (arith, imp e on)
]

-- The same at the start of the table.
pub find_entry-set_start :
    (loose strict : OtpEntry → Bool) (j : ℕ) (db : List OtpEntry) (e' : OtpEntry)
    → ((e : OtpEntry) → loose e ≡ false → strict e ≡ false)
    → strict e' ≡ true
    → find_entry loose 0 db ≡ some j
    → find_entry strict 0 (set db j e') ≡ some j
find_entry-set_start loose strict j db e' imp t h =
    find_entry-set loose strict 0 j db e' imp t (h ∙ ap some (omega arith)) ∙ ap some (omega arith)

-- What a search from the start stops at.
pub find_entry-at :
    (test : OtpEntry → Bool) (db : List OtpEntry) (i : ℕ)
    → find_entry test 0 db ≡ some i
    → (e : OtpEntry) × (get_elem? db i ≡ some e) × (test e ≡ true)
find_entry-at test db i h =
    let (j, e, same, at, t) = find_entry-test test 0 db {i = i} h in
    let eq : j ≡ i = omega arith in (e, rw eq at at, t)

pub find_entry-none :
    (test : OtpEntry → Bool) (k : ℕ) (db : List OtpEntry)
    → ((j : ℕ) (e : OtpEntry) → get_elem? db j ≡ some e → test e ≡ false)
    → find_entry test k db ≡ none
unfolding find_entry
find_entry-none test k [] h = refl
find_entry-none test k (e ∷ db) h =
    ground (arith, h 0 e refl, find_entry-none test (k + 1) db (λ j e' at. h (suc j) e' at))
