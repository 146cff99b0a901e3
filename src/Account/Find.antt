-- ===== src/Account/Find.antt =====
-- `account_find`: which entry it returns, and how writes to the table change its answer.
use ntut_network_and_system.Base.{
  ℕ, zero, suc, ◌+◌, ◌<◌, ◌≡◌, refl, inl, inr, Bool-cases, true, none, some, List, [], ◌∷◌, arith,
  if◌then◌else◌, get_elem?, set, length,
}
use ntut_network_and_system.Account.{Account, AccountDb, matches, find_from, account_find}

module _ {F : Type 0} where
  -- The entry found is active and has the id, and it is one of those looked at.
  pub find_from-matches :
      (id : List ℕ) (n k : ℕ) (xs : List (Account F)) {i : ℕ}
      → find_from id n k xs ≡ some i
      → (j : ℕ) × (a : Account F) × (i ≡ k + j)
        × (j < n)
        × (get_elem? xs j ≡ some a)
        × (matches id a ≡ true)
  unfolding find_from
  find_from-matches id zero k xs h = cc
  find_from-matches id (suc n) k [] h = cc
  find_from-matches id (suc n) k (a ∷ xs) {i} h = elim (Bool-cases (matches id a)) [
    | inl here ↦ (0, a, ground arith, omega arith, refl, here)
    | inr further ↦
        let (j, b, e, lt, at, m) = find_from-matches id n (k + 1) xs {i = i} (ground arith) in
        (suc j, b, omega arith, omega arith, at, m)
  ]

  -- Writing an entry that answers a search as the old one did changes no answer of it.
  pub find_from-set :
      (id : List ℕ) (n k : ℕ) (xs : List (Account F)) (i : ℕ) (a b : Account F)
      → get_elem? xs i ≡ some a
      → matches id b ≡ matches id a
      → find_from id n k (set xs i b) ≡ find_from id n k xs
  unfolding find_from
  find_from-set id zero k xs i a b h m = refl
  find_from-set id (suc n) k [] i a b h m = refl
  find_from-set id (suc n) k (x ∷ xs) zero a b h m = ground arith
  find_from-set id (suc n) k (x ∷ xs) (suc i) a b h m =
      ground (arith, find_from-set id n (k + 1) xs i a b h m)

  -- A new last entry is found by its own id where no earlier entry is.
  pub find_from-set_end :
      (id : List ℕ) (n k : ℕ) (xs : List (Account F)) (b : Account F)
      → n < length xs
      → find_from id (suc n) k (set xs n b) ≡ elim (find_from id n k xs) [
        | some i ↦ some i
        | none ↦ if matches id b then some (k + n) else none
      ]
  unfolding find_from
  find_from-set_end id zero k [] b h = elim h [ ]
  find_from-set_end id zero k (x ∷ xs) b h = ground arith
  find_from-set_end id (suc n) k [] b h = elim h [ ]
  find_from-set_end id (suc n) k (x ∷ xs) b h = ground (arith, find_from-set_end id n (k + 1) xs b)

  pub account_find-matches :
      (db : AccountDb F) (id : List ℕ) {i : ℕ}
      → account_find db id ≡ some i
      → (a : Account F) × (i < db.account_count)
        × (get_elem? db.accounts i ≡ some a)
        × (matches id a ≡ true)
  unfolding account_find
  account_find-matches db id {i} h =
      let (j, a, e, lt, at, m) = find_from-matches id db.account_count 0 db.accounts h in
      let same : j ≡ i = omega arith in (a, rw same at lt, rw same at at, m)
