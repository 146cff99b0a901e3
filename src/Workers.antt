-- ===== src/Workers.antt =====
-- Workers that use the account table at the same time, common/src/account.c: each call as the
-- steps between which another worker may run. A step is a mutex call, a load or a store of a
-- balance, or what is done under the table's lock on the ids, the flags and the count, which only
-- its holder reads or writes. A worker that has to wait for a mutex has no step.
pub mod Moves
pub mod Guards
pub mod Invariant
pub mod Locking
pub mod Locals
pub mod Preserve
pub mod Atomic
pub mod Views
pub mod Effects
pub mod Linear
pub mod Progress
pub mod Finish
pub mod Quiet
pub mod Alone
pub mod Solo
pub mod Killed
use ntut_network_and_system.Base.{
  ℕ, ◌+◌, ◌≡◌, Bool, true, false, ◌||◌, Option, none, some, List, if◌then◌else◌, leb, ◌==◌, Run,
  done, ◌>>=◌,
}
use ntut_network_and_system.Base.Int.{ℤ, pos, neg}
use ntut_network_and_system.Float.{FloatOps}
use ntut_network_and_system.Account.{
  AccountDb, max_accounts, account_find, lock_db, unlock_db, lock_account, unlock_account,
  account_at, put_account, new_account,
}
use ntut_network_and_system.Account.Ledger.{Op, create, deposit, withdraw, query, Fits}

-- What a call does with the account that it has found.
pub data Action (F : Type 0) : Type 0 where
  add : F → Action F
  take : F → Action F
  look : Action F

-- Where a worker stands.
pub data Pc (F : Type 0) : Type 0 where
  idle : Pc F
  begun : Op F → Pc F  -- before the test of the arguments and the table's lock
  searching : Op F → Pc F  -- before `account_find`, with the table's lock
  creating : List ℕ → F → Pc F  -- before the writes of `account_create`, with the table's lock
  returning : ℤ → Pc F  -- before the table's lock is given back and the code returned
  locking : List ℕ → Action F → ℕ → Pc F  -- before the account's lock, with the table's
  locked : List ℕ → Action F → ℕ → Pc F  -- with both locks, before the table's is given back
  reading : List ℕ → Action F → ℕ → Pc F  -- before the balance is read, with the account's lock
  writing : List ℕ → Action F → ℕ → F → Pc F  -- before the new balance is stored
  leaving : ℕ → ℤ → Option F → Pc F  -- before the account's lock is given back
  finished : ℤ → Option F → Pc F  -- the code, and what was written through the pointer

module _ {F : Type 0} where
  abbrev pub op_of : List ℕ → Action F → Op F
  op_of id (add x) = deposit id x
  op_of id (take x) = withdraw id x
  op_of id look = query id

  abbrev pub account_of : Op F → List ℕ
  account_of (create id b) = id
  account_of (deposit id x) = id
  account_of (withdraw id x) = id
  account_of (query id) = id

  -- After a search that finds an entry, and after one that does not.
  abbrev pub present : Op F → ℕ → Pc F
  present (create id b) k = returning (neg 2)
  present (deposit id x) k = locking id (add x) k
  present (withdraw id x) k = locking id (take x) k
  present (query id) k = locking id look k

  abbrev pub absent : AccountDb F → Op F → Pc F
  absent db (create id b) =
      if leb max_accounts db.account_count then returning (neg 3) else creating id b
  absent db (deposit id x) = returning (neg 2)
  absent db (withdraw id x) = returning (neg 2)
  absent db (query id) = returning (neg 2)

module _ {F : Type 0} (f : FloatOps F) where
  -- The test of the arguments.
  abbrev pub improper : Op F → Bool
  improper (create id b) = f.lt b f.zero_f
  improper (deposit id x) = f.le x f.zero_f
  improper (withdraw id x) = f.le x f.zero_f
  improper (query id) = false

  -- After the balance has been read.
  abbrev pub loaded : List ℕ → Action F → ℕ → F → Pc F
  loaded id (add x) k b = writing id (add x) k (f.add b x)
  loaded id (take x) k b =
      if f.lt b x then leaving k (neg 3) none else writing id (take x) k (f.sub b x)
  loaded id look k b = leaving k (pos 0) (some b)

  -- The table with a new last account.
  unfoldable pub append_account : AccountDb F → List ℕ → F → Run (AccountDb F)
  append_account db id b = do
    slot ← account_at db db.account_count
    let db1 = put_account db db.account_count (new_account f id b slot)
    done (record db1 { account_count = db1.account_count + 1 })

  -- One step of one worker.
  unfoldable pub advance : AccountDb F → Pc F → Run (AccountDb F × Pc F)
  unfolding append_account
  advance db idle = done (db, idle)
  advance db (begun op) =
      if improper op
      then done (db, finished (neg 1) none)
      else (do db' ← lock_db db; done (db', searching op))
  advance db (searching op) = elim (account_find db (account_of op)) [
    | none ↦ done (db, absent db op)
    | some k ↦ done (db, present op k)
  ]
  advance db (creating id b) = do db' ← append_account db id b; done (db', returning (pos 0))
  advance db (returning c) = do db' ← unlock_db db; done (db', finished c none)
  advance db (locking id act k) = do db' ← lock_account db k; done (db', locked id act k)
  advance db (locked id act k) = do db' ← unlock_db db; done (db', reading id act k)
  advance db (reading id act k) = do a ← account_at db k; done (db, loaded id act k a.balance)
  advance db (writing id act k b) = do
    a ← account_at db k
    done (put_account db k (record a { balance = b }), leaving k (pos 0) (some b))
  advance db (leaving k c r) = do db' ← unlock_account db k; done (db', finished c r)
  advance db (finished c r) = done (db, finished c r)

-- The table, and where each worker stands.
pub record System (F : Type 0) : Type 0 where
  pub db : AccountDb F
  pub pc : ℕ → Pc F

abbrev pub update : {F : Type 0} → (ℕ → Pc F) → ℕ → Pc F → ℕ → Pc F
update pc i p j = if j == i then p else pc j

-- Between two calls.
abbrev pub ready : {F : Type 0} → Pc F → Bool
ready idle = true
ready (begun op) = false
ready (searching op) = false
ready (creating id b) = false
ready (returning c) = false
ready (locking id act k) = false
ready (locked id act k) = false
ready (reading id act k) = false
ready (writing id act k b) = false
ready (leaving k c r) = false
ready (finished c r) = true

-- A worker begins a call, where the id of a new account fits, or makes a step of the one it is in.
pub data Step {F : Type 0} (f : FloatOps F) (s : System F) : System F → Type 0 where
  calls :
      (i : ℕ) (op : Op F)
      → ready (s.pc i) ≡ true
      → Fits op
      → Step f s (record s { pc = update s.pc i (begun op) })
  moves :
      (i : ℕ) {db : AccountDb F} {p : Pc F}
      → ready (s.pc i) ≡ false
      → advance f s.db (s.pc i) ≡ done (db, p)
      → Step f s (record { db = db; pc = update s.pc i p })

-- From a table that no worker is using.
pub data Reach {F : Type 0} (f : FloatOps F) (db : AccountDb F) : System F → Type 0 where
  start : Reach f db (record { db = db; pc = λ i. idle })
  later : {s t : System F} → Reach f db s → Step f s t → Reach f db t
