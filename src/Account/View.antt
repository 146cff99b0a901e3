-- ===== src/Account/View.antt =====
-- The balance that the table gives each id, and how it changes when an entry is written.
use ntut_network_and_system.Base.{
  ℕ, zero, suc, ◌+◌, ◌≤◌, ◌<◌, ◌≡◌, refl, true, Option, none, some, List, [], ◌∷◌, arith,
  if◌then◌else◌, get_elem?, length, get_elem?-set, get_elem?-lt, inl, inr, Option-cases,
}
use ntut_network_and_system.CString.{
  str_eq-terminated, str_eq, str_eq_trans, str_eq_sym, c_str, terminated, str_eq-copy,
}
use ntut_network_and_system.Float.{FloatOps}
use ntut_network_and_system.Account.{
  Account, AccountDb, matches, find_from, account_find, put_account, new_account,
}
use ntut_network_and_system.Account.Find.{find_from-set, find_from-set_end, account_find-matches}

module _ {F : Type 0} where
  -- The balance that a search for `id` leads to.
  unfoldable pub balance_of : AccountDb F → List ℕ → Option F
  balance_of db id = elim (account_find db id) [
    | none ↦ none
    | some i ↦ elim (get_elem? db.accounts i) [ none ↦ none | some a ↦ some a.balance ]
  ]

  pub balance_of-found :
      (db : AccountDb F) (id : List ℕ) (i : ℕ) (a : Account F)
      → account_find db id ≡ some i
      → get_elem? db.accounts i ≡ some a
      → balance_of db id ≡ some a.balance
  unfolding balance_of
  balance_of-found db id i a h at = ground arith

  pub balance_of-none :
      (db : AccountDb F) (id : List ℕ) → account_find db id ≡ none → balance_of db id ≡ none
  unfolding balance_of
  balance_of-none db id h = ground arith

  -- Ids that `strcmp` finds equal lead to the same entry.
  matches_congr :
      (id other : List ℕ) (a : Account F) → str_eq id other ≡ true → matches id a ≡ matches other a
  matches_congr id other a h = ground (
    arith,
    str_eq_trans id other a.account_id h,
    str_eq_sym id a.account_id,
    str_eq_sym other a.account_id,
  )

  find_from_congr :
      (id other : List ℕ)
      → str_eq id other ≡ true
      → (n k : ℕ) (xs : List (Account F)) → find_from id n k xs ≡ find_from other n k xs
  unfolding find_from
  find_from_congr id other h zero k xs = refl
  find_from_congr id other h (suc n) k [] = refl
  find_from_congr id other h (suc n) k (a ∷ xs) =
      ground (arith, matches_congr id other a h, find_from_congr id other h n (k + 1) xs)

  pub account_find_congr :
      (db : AccountDb F) (id other : List ℕ)
      → str_eq id other ≡ true
      → account_find db id ≡ account_find db other
  unfolding account_find
  account_find_congr db id other h = find_from_congr id other h db.account_count 0 db.accounts

  -- Ids that lead to the same entry are equal for `strcmp`.
  pub account_find_inj :
      (db : AccountDb F) (id other : List ℕ) (i : ℕ)
      → account_find db id ≡ some i
      → account_find db other ≡ some i
      → str_eq id other ≡ true
  account_find_inj db id other i h k =
      let (a, lt, at, m) = account_find-matches db id h in
      let (b, lt', at', m') = account_find-matches db other k in
      ground (arith, str_eq_trans a.account_id id other)

  -- A search after a write that keeps the entry's id.
  module _ (db : AccountDb F) (id : List ℕ) (i : ℕ) (a b : Account F)
      (found : account_find db id ≡ some i) (at : get_elem? db.accounts i ≡ some a)
      (act : b.active ≡ a.active) (same : b.account_id ≡ a.account_id) where
    account_find-put_account :
        (other : List ℕ) → account_find (put_account db i b) other ≡ account_find db other
    unfolding account_find put_account
    account_find-put_account other =
        find_from-set other db.account_count 0 db.accounts i a b at (rw (act, same) refl)

    -- It changes the balance under this id and under no other.
    pub balance_of-put_account :
        (other : List ℕ)
        → balance_of (put_account db i b) other
          ≡ (if str_eq id other then some b.balance else balance_of db other)
    unfolding balance_of put_account
    balance_of-put_account other = elim (Option-cases (account_find db other)) [
      | inl absent ↦ ground (arith, account_find-put_account other, account_find_congr db id other)
      | inr (j, there) ↦ ground (
        arith,
        account_find-put_account other,
        get_elem?-set db.accounts i j b (get_elem?-lt db.accounts i at),
        account_find_congr db id other,
        account_find_inj db id other i found,
      )
    ]

  -- A search after an entry is added.
  pub balance_of-new :
      (f : FloatOps F) (db : AccountDb F) (id : List ℕ) (initial : F) (slot : Account F)
      → db.account_count < length db.accounts
      → account_find db id ≡ none
      → terminated id ≡ true
      → length (c_str id) ≤ 19
      → (other : List ℕ)
      → balance_of
          (record (put_account db db.account_count (new_account f id initial slot)) {
            account_count = db.account_count + 1;
          })
          other
        ≡ (if str_eq id other then some initial else balance_of db other)
  unfolding balance_of put_account account_find
  balance_of-new f db id initial slot lt fresh t short other =
      let b = new_account f id initial slot in
      elim (Option-cases (account_find db other)) [
        | inl absent ↦ ground (
          arith,
          find_from-set_end other db.account_count 0 db.accounts b lt,
          get_elem?-set db.accounts db.account_count db.account_count b lt,
          str_eq-copy 19 id other t short,
        )
        | inr (j, there) ↦
            let (a, below, at, m) = account_find-matches db other there in
            ground (
              arith,
              find_from-set_end other db.account_count 0 db.accounts b lt,
              get_elem?-set db.accounts db.account_count j b lt,
              account_find_congr db id other,
            )
      ]

  -- Only a C string has an account.
  pub balance_of-terminated :
      (db : AccountDb F) (id : List ℕ) {b : F} → balance_of db id ≡ some b → terminated id ≡ true
  unfolding balance_of
  balance_of-terminated db id h = elim (Option-cases (account_find db id)) [
    | inl absent ↦ absurd (ground arith)
    | inr (i, found) ↦
        let (a, lt, at, m) = account_find-matches db id found in
        str_eq-terminated a.account_id id (ground arith)
  ]
