-- ===== src/Account/Locks.antt =====
-- What each operation of the table does from a state with every mutex free, in closed form: it
-- never waits, leaves no access undefined, and every mutex is free again.
use ntut_network_and_system.Base.{
  ℕ, ◌<◌, ◌≡◌, refl, inl, inr, Bool-cases, none, some, List, arith, if◌then◌else◌, get_elem?,
  length, set-set, get_elem?-set_self, done,
}
use ntut_network_and_system.Base.Int.{pos, neg}
use ntut_network_and_system.Float.{FloatOps}
use ntut_network_and_system.Account.{
  free, held, Account, AccountDb, account_find, account_at, put_account, unlock_account, lock_found,
  deposit_at, withdraw_at, balance_at,
}

-- Writes to the table, and reads of what was written.
module _ {F : Type 0} (db : AccountDb F) (i : ℕ) where
  account_at-put_account :
      (b : Account F) → i < length db.accounts → account_at (put_account db i b) i ≡ done b
  unfolding account_at put_account
  account_at-put_account b lt = rw (get_elem?-set_self db.accounts i b lt, account_at)

  put_account-put_account :
      (a b : Account F) → put_account (put_account db i a) i b ≡ put_account db i b
  unfolding put_account
  put_account-put_account a b = rw (set-set db.accounts i a b)

  unlock_account-put_account :
      (b : Account F)
      → i < length db.accounts
      → b.lock ≡ held
      → unlock_account (put_account db i b) i ≡ done (put_account db i (record b { lock = free }))
  unfolding unlock_account put_account
  unlock_account-put_account b lt h = ground (
    arith,
    get_elem?-set_self db.accounts i b lt,
    set-set db.accounts i b (record b { lock = free }),
  )

module _ {F : Type 0} where
  -- The table with the lock of entry `i` held.
  abbrev pub locked : AccountDb F → ℕ → Account F → AccountDb F
  locked db i a = put_account db i (record a { lock = held })

  pub lock_found-none :
      (db : AccountDb F) (id : List ℕ)
      → db.db_lock ≡ free
      → account_find db id ≡ none
      → lock_found db id ≡ done (none, db)
  unfolding lock_found account_find
  lock_found-none db id q h = ground arith

  pub lock_found-some :
      (db : AccountDb F) (id : List ℕ) (i : ℕ) (a : Account F)
      → db.db_lock ≡ free
      → account_find db id ≡ some i
      → get_elem? db.accounts i ≡ some a
      → a.lock ≡ free
      → lock_found db id ≡ done (some i, locked db i a)
  unfolding lock_found account_find put_account
  lock_found-some db id i a q h at l = ground arith

  -- The table with a new balance in entry `i`, unlocked.
  abbrev pub with_balance : AccountDb F → ℕ → Account F → F → AccountDb F
  with_balance db i a b = put_account db i (record a { balance = b; lock = free })

-- The transactions on an entry that has been locked.
module _ {F : Type 0} (f : FloatOps F) (db : AccountDb F) (i : ℕ) (a : Account F)
    (lt : i < length db.accounts) where
  pub deposit_at-locked :
      (amount : F)
      → let b = f.add a.balance amount in
        deposit_at f (locked db i a) i amount
        ≡ done (record { code = pos 0; written = some b; db = with_balance db i a b })
  unfolding deposit_at
  deposit_at-locked amount = rw (
    account_at-put_account db i (record a { lock = held }) lt,
    put_account-put_account db i (record a { lock = held })
        (record a { lock = held; balance = f.add a.balance amount }),
    unlock_account-put_account db i (record a { lock = held; balance = f.add a.balance amount }) lt
        refl,
  )

  pub withdraw_at-locked :
      (amount : F)
      → let b = f.sub a.balance amount in
        withdraw_at f (locked db i a) i amount
        ≡ done (
            if f.lt a.balance amount
            then record { code = neg 3; written = none; db = with_balance db i a a.balance }
            else record { code = pos 0; written = some b; db = with_balance db i a b })
  unfolding withdraw_at
  withdraw_at-locked amount = elim (Bool-cases (f.lt a.balance amount)) [
    | inl short ↦ rw (
      account_at-put_account db i (record a { lock = held }) lt,
      short,
      unlock_account-put_account db i (record a { lock = held }) lt refl,
    )
    | inr covered ↦ rw (
      account_at-put_account db i (record a { lock = held }) lt,
      covered,
      put_account-put_account db i (record a { lock = held })
          (record a { lock = held; balance = f.sub a.balance amount }),
      unlock_account-put_account db i (record a { lock = held; balance = f.sub a.balance amount })
          lt refl,
    )
  ]

  pub balance_at-locked :
      balance_at (locked db i a) i
      ≡ done (record { code = pos 0; written = some a.balance; db = with_balance db i a a.balance })
  unfolding balance_at
  balance_at-locked = rw (
    account_at-put_account db i (record a { lock = held }) lt,
    unlock_account-put_account db i (record a { lock = held }) lt refl,
  )
