-- ===== src/Account.antt =====
-- The account table: common/include/account.h and common/src/account.c. A `double` is a value of
-- a parameter `F`; a `char[20]` is the list of its bytes; the functions' pointer arguments are
-- the objects themselves, so never NULL. A mutex is part of the state: what the code would do on
-- one that is held, or was destroyed, is a result of its own (`Run`). The log lines are left out.
pub mod Find
pub mod Locks
pub mod Invariant
pub mod View
pub mod Ledger
pub mod Closed
pub mod Refine
pub mod Total
pub mod Faults
pub mod Cleanup
use ntut_network_and_system.Base.{
  ℕ, zero, suc, ◌+◌, ◌-◌, ◌≡◌, Bool, true, false, ◌&&◌, Option, none, some, List, [], ◌∷◌, ◌++◌,
  if◌then◌else◌, leb, get_elem?, set, replicate, Run, done, blocked, fault, ◌>>=◌,
}
use ntut_network_and_system.Base.Int.{ℤ, pos, neg}
use ntut_network_and_system.CString.{str_eq, strncpy}
use ntut_network_and_system.Float.{FloatOps}

-- MAX_ACCOUNTS and ACCOUNT_ID_LEN
abbrev pub max_accounts : ℕ
max_accounts = 100

abbrev pub account_id_len : ℕ
account_id_len = 20

-- `pthread_mutex_t`
pub data Mutex : Type 0 where
  free held destroyed : Mutex

-- `pthread_mutex_lock` waits for ever on a mutex that its own process holds.
abbrev pub mutex_lock : Mutex → Run Mutex
mutex_lock free = done held
mutex_lock held = blocked
mutex_lock destroyed = fault

abbrev pub mutex_unlock : Mutex → Run Mutex
mutex_unlock held = done free
mutex_unlock free = fault
mutex_unlock destroyed = fault

abbrev pub mutex_destroy : Mutex → Run Mutex
mutex_destroy free = done destroyed
mutex_destroy held = fault
mutex_destroy destroyed = fault

pub record Account (F : Type 0) : Type 0 where
  pub account_id : List ℕ
  pub balance : F
  pub active : Bool
  pub lock : Mutex

pub record AccountDb (F : Type 0) : Type 0 where
  pub accounts : List (Account F)
  pub account_count : ℕ
  pub db_lock : Mutex

-- What a call returns, what it writes through its `double *` if it does, and the table after it.
pub record Outcome (F : Type 0) : Type 0 where
  pub code : ℤ
  pub written : Option F
  pub db : AccountDb F

module _ {F : Type 0} where
  -- The test of one entry in `account_find`.
  abbrev pub matches : List ℕ → Account F → Bool
  matches account_id a = a.active && str_eq a.account_id account_id

  -- The loop of `account_find`: `n` rounds from index `i`, at the entries that are left.
  unfoldable pub find_from : List ℕ → ℕ → ℕ → List (Account F) → Option ℕ
  find_from account_id zero i as_left = none
  find_from account_id (suc n) i [] = none
  find_from account_id (suc n) i (a ∷ as_left) =
      let rest = find_from account_id n (i + 1) as_left in
      if matches account_id a then some i else rest

  -- A pointer into the table is an index.
  unfoldable pub account_find : AccountDb F → List ℕ → Option ℕ
  account_find db account_id = find_from account_id db.account_count 0 db.accounts

  unfoldable pub lock_db : AccountDb F → Run (AccountDb F)
  lock_db db = do m ← mutex_lock db.db_lock; done (record db { db_lock = m })

  unfoldable pub unlock_db : AccountDb F → Run (AccountDb F)
  unlock_db db = do m ← mutex_unlock db.db_lock; done (record db { db_lock = m })

  -- Read and write through an `Account *`.
  unfoldable pub account_at : AccountDb F → ℕ → Run (Account F)
  account_at db i = elim (get_elem? db.accounts i) [ none ↦ fault | some a ↦ done a ]

  unfoldable pub put_account : AccountDb F → ℕ → Account F → AccountDb F
  put_account db i a = record db { accounts = set db.accounts i a }

  unfoldable pub lock_account : AccountDb F → ℕ → Run (AccountDb F)
  unfolding account_at put_account
  lock_account db i = do
    a ← account_at db i
    m ← mutex_lock a.lock
    done (put_account db i (record a { lock = m }))

  unfoldable pub unlock_account : AccountDb F → ℕ → Run (AccountDb F)
  unfolding account_at put_account
  unlock_account db i = do
    a ← account_at db i
    m ← mutex_unlock a.lock
    done (put_account db i (record a { lock = m }))

  -- What a deposit, a withdrawal and a query begin with: find the account under the table's
  -- lock, take the account's own lock, then let the table go.
  unfoldable pub lock_found : AccountDb F → List ℕ → Run (Option ℕ × AccountDb F)
  unfolding lock_db unlock_db lock_account account_find
  lock_found db account_id = do
    db1 ← lock_db db
    elim (account_find db1 account_id) [
      | none ↦ do db2 ← unlock_db db1; done (none, db2)
      | some i ↦ do db2 ← lock_account db1 i; db3 ← unlock_db db2; done (some i, db3)
    ]

module _ {F : Type 0} (f : FloatOps F) where
  -- A table after `memset` and the initialisation of its locks.
  abbrev pub blank_account : Account F
  blank_account = record {
    account_id = replicate account_id_len 0;
    balance = f.zero_f;
    active = false;
    lock = free;
  }

  unfoldable pub account_init : AccountDb F
  account_init = record {
    accounts = replicate max_accounts blank_account;
    account_count = 0;
    db_lock = free;
  }

  -- The entry that `account_create` fills in; the slot keeps its lock.
  abbrev pub new_account : List ℕ → F → Account F → Account F
  new_account account_id initial_balance slot = record slot {
    account_id = strncpy (account_id_len - 1) account_id ++ 0 ∷ [];
    balance = initial_balance;
    active = true;
  }

  unfoldable pub create_at_end : AccountDb F → List ℕ → F → Run (Outcome F)
  create_at_end db account_id initial_balance = do
    slot ← account_at db db.account_count
    let db1 = put_account db db.account_count (new_account account_id initial_balance slot)
    db2 ← unlock_db (record db1 { account_count = db1.account_count + 1 })
    done (record { code = pos 0; written = none; db = db2 })

  unfoldable pub account_create : AccountDb F → List ℕ → F → Run (Outcome F)
  unfolding lock_db unlock_db account_find create_at_end
  account_create db account_id initial_balance =
      if f.lt initial_balance f.zero_f
      then done (record { code = neg 1; written = none; db = db })
      else do
        db1 ← lock_db db
        elim (account_find db1 account_id) [
          | some i ↦ do
            db2 ← unlock_db db1
            done (record { code = neg 2; written = none; db = db2 })
          | none ↦
              if leb max_accounts db1.account_count
              then (do
                db2 ← unlock_db db1
                done (record { code = neg 3; written = none; db = db2 }))
              else create_at_end db1 account_id initial_balance
        ]

  -- The transaction of `account_deposit` on the locked account.
  unfoldable pub deposit_at : AccountDb F → ℕ → F → Run (Outcome F)
  deposit_at db i amount = do
    a ← account_at db i
    let b = f.add a.balance amount
    db1 ← unlock_account (put_account db i (record a { balance = b })) i
    done (record { code = pos 0; written = some b; db = db1 })

  unfoldable pub account_deposit : AccountDb F → List ℕ → F → Run (Outcome F)
  unfolding lock_found deposit_at
  account_deposit db account_id amount =
      if f.le amount f.zero_f then done (record { code = neg 1; written = none; db = db }) else do
        (acc, db1) ← lock_found db account_id
        elim acc [
          | none ↦ done (record { code = neg 2; written = none; db = db1 })
          | some i ↦ deposit_at db1 i amount
        ]

  -- The transaction of `account_withdraw` on the locked account.
  unfoldable pub withdraw_at : AccountDb F → ℕ → F → Run (Outcome F)
  withdraw_at db i amount = do
    a ← account_at db i
    if f.lt a.balance amount
        then (do
          db1 ← unlock_account db i
          done (record { code = neg 3; written = none; db = db1 }))
        else (do
          let b = f.sub a.balance amount
          db1 ← unlock_account (put_account db i (record a { balance = b })) i
          done (record { code = pos 0; written = some b; db = db1 }))

  unfoldable pub account_withdraw : AccountDb F → List ℕ → F → Run (Outcome F)
  unfolding lock_found withdraw_at
  account_withdraw db account_id amount =
      if f.le amount f.zero_f then done (record { code = neg 1; written = none; db = db }) else do
        (acc, db1) ← lock_found db account_id
        elim acc [
          | none ↦ done (record { code = neg 2; written = none; db = db1 })
          | some i ↦ withdraw_at db1 i amount
        ]

module _ {F : Type 0} where
  unfoldable pub balance_at : AccountDb F → ℕ → Run (Outcome F)
  balance_at db i = do
    a ← account_at db i
    db1 ← unlock_account db i
    done (record { code = pos 0; written = some a.balance; db = db1 })

  unfoldable pub account_get_balance : AccountDb F → List ℕ → Run (Outcome F)
  unfolding lock_found balance_at
  account_get_balance db account_id = do
    (acc, db1) ← lock_found db account_id
    elim acc [
      | none ↦ done (record { code = neg 2; written = none; db = db1 })
      | some i ↦ balance_at db1 i
    ]

  -- The loop of `account_cleanup`.
  unfoldable pub destroy_locks : List (Account F) → Run (List (Account F))
  destroy_locks [] = done []
  destroy_locks (a ∷ as_left) = do
    m ← mutex_destroy a.lock
    rest ← destroy_locks as_left
    done (record a { lock = m } ∷ rest)

  unfoldable pub account_cleanup : AccountDb F → Run (AccountDb F)
  unfolding destroy_locks
  account_cleanup db = do
    m ← mutex_destroy db.db_lock
    cleaned ← destroy_locks db.accounts
    done (record db { accounts = cleaned; db_lock = m })
