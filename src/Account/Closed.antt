-- ===== src/Account/Closed.antt =====
-- The account operations in closed form, from a well-formed table: what each call returns on each
-- path, and the table after it.
use ntut_network_and_system.Base.{
  ℕ, ◌+◌, ◌<◌, ◌≡◌, refl, true, false, none, some, List, arith, if◌then◌else◌, leb, get_elem?,
  length, get_elem?-lt, set_same, done, leb-lt,
}
use mathlib.Core.Path.{fun_ext}
use ntut_network_and_system.Base.Int.{pos, neg}
use ntut_network_and_system.Float.{FloatOps}
use ntut_network_and_system.Account.{
  free, Account, AccountDb, account_find, put_account, new_account, account_at, account_create,
  account_deposit, account_withdraw, account_get_balance, max_accounts,
}
use ntut_network_and_system.Account.Find.{account_find-matches}
use ntut_network_and_system.Account.Locks.{
  lock_found-some, deposit_at-locked, withdraw_at-locked, balance_at-locked, with_balance,
}
use ntut_network_and_system.Account.Invariant.{
  IsEntry, IsValid, put_account-IsValid, new_account-IsEntry,
}
use ntut_network_and_system.Account.View.{
  balance_of, balance_of-found, balance_of-put_account, balance_of-new,
}
use ntut_network_and_system.Account.Ledger.{create, credit, view, Fits}

module _ {F : Type 0} (f : FloatOps F) where
  module _ (db : AccountDb F) (v : IsValid f db) (id : List ℕ) where
    -- Where a search leads in a well-formed table.
    pub found-IsEntry :
        (i : ℕ)
        → account_find db id ≡ some i
        → (a : Account F) × (get_elem? db.accounts i ≡ some a)
          × (a.lock ≡ free)
          × (balance_of db id ≡ some a.balance)
          × IsEntry f a
    found-IsEntry i h =
        let (a, lt, at, m) = account_find-matches db id h in
        let e = v.entries i a at in (a, at, e.lock_free, balance_of-found db id i a h at, e)

    -- The table after a transaction on the account found.
    module _ (i : ℕ) (a : Account F) (h : account_find db id ≡ some i)
        (at : get_elem? db.accounts i ≡ some a) (b : F) (nb : f.lt b f.zero_f ≡ false) where
      pub with_balance-IsValid : IsValid f (with_balance db i a b)
      with_balance-IsValid =
          let e = v.entries i a at in
          put_account-IsValid f db i (record a { balance = b; lock = free })
            (get_elem?-lt db.accounts i at) v
            (record {
              lock_free = refl;
              id_length = e.id_length;
              id_terminated = e.id_terminated;
              not_below = nb;
            })

      pub view-with_balance : view (with_balance db i a b) ≡ credit (view db) id b
      unfolding put_account credit
      view-with_balance = λ j. record {
        opened = db.account_count;
        funds =
            fun_ext
              (λ other.
                balance_of-put_account db id i a (record a { balance = b; lock = free }) h at refl
                  refl other)
              j;
      }

    -- Each operation in closed form, where the account is found.
    module _ (i : ℕ) (a : Account F) (h : account_find db id ≡ some i)
        (at : get_elem? db.accounts i ≡ some a) where
      a_free : a.lock ≡ free
      a_free = (v.entries i a at).lock_free

      in_range : i < length db.accounts
      in_range = get_elem?-lt db.accounts i at

      with_balance_same : with_balance db i a a.balance ≡ db
      unfolding put_account
      with_balance_same = ground (arith, set_same db.accounts i a at, a_free)

      pub deposit_found :
          (x : F)
          → f.le x f.zero_f ≡ false
          → account_deposit f db id x
            ≡ done (record {
              code = pos 0;
              written = some (f.add a.balance x);
              db = with_balance db i a (f.add a.balance x);
            })
      unfolding account_deposit
      deposit_found x ok = rw (
        ok,
        lock_found-some db id i a v.db_free h at a_free,
        deposit_at-locked f db i a in_range x,
      )

      pub withdraw_found :
          (x : F)
          → f.le x f.zero_f ≡ false
          → account_withdraw f db id x
            ≡ done (
                if f.lt a.balance x
                then record { code = neg 3; written = none; db = db }
                else record {
                  code = pos 0;
                  written = some (f.sub a.balance x);
                  db = with_balance db i a (f.sub a.balance x);
                })
      unfolding account_withdraw
      withdraw_found x ok = rw (
        ok,
        lock_found-some db id i a v.db_free h at a_free,
        withdraw_at-locked f db i a in_range x,
        with_balance_same,
      )

      pub query_found :
          account_get_balance db id
          ≡ done (record { code = pos 0; written = some a.balance; db = db })
      unfolding account_get_balance
      query_found = rw (
        lock_found-some db id i a v.db_free h at a_free,
        balance_at-locked f db i a in_range,
        with_balance_same,
      )

    -- The table with a new last account.
    abbrev pub created : F → Account F → AccountDb F
    created b slot = record (put_account db db.account_count (new_account f id b slot)) {
      account_count = db.account_count + 1;
    }

    pub create_room :
        (b : F) (slot : Account F)
        → f.lt b f.zero_f ≡ false
        → account_find db id ≡ none
        → leb max_accounts db.account_count ≡ false
        → get_elem? db.accounts db.account_count ≡ some slot
        → account_create f db id b
          ≡ done (record { code = pos 0; written = none; db = created b slot })
    unfolding account_create account_at put_account account_find
    create_room b slot nb absent room at = ground (arith, v.db_free)

    -- The refusals of `account_create`, which leave the table alone.
    pub create_refused :
        (b : F)
        → f.lt b f.zero_f ≡ false
        → (i : ℕ) → account_find db id ≡ some i
        → account_create f db id b ≡ done (record { code = neg 2; written = none; db = db })
    unfolding account_create account_find
    create_refused b nb i h = ground (arith, v.db_free)

    pub create_full :
        (b : F)
        → f.lt b f.zero_f ≡ false
        → account_find db id ≡ none
        → leb max_accounts db.account_count ≡ true
        → account_create f db id b ≡ done (record { code = neg 3; written = none; db = db })
    unfolding account_create account_find
    create_full b nb absent full = ground (arith, v.db_free)

    pub created-IsValid :
        (b : F) (slot : Account F)
        → f.lt b f.zero_f ≡ false
        → leb max_accounts db.account_count ≡ false
        → get_elem? db.accounts db.account_count ≡ some slot
        → IsValid f (created b slot)
    unfolding put_account
    created-IsValid b slot nb room at =
        let e = v.entries db.account_count slot at in
        let w =
          put_account-IsValid f db db.account_count (new_account f id b slot)
            (get_elem?-lt db.accounts db.account_count at) v
            (new_account-IsEntry f id b slot e.lock_free nb) in
        record {
          size = w.size;
          count_le = omega (arith, leb-lt max_accounts db.account_count room);
          db_free = v.db_free;
          entries = w.entries;
        }

    pub view-created :
        (b : F) (slot : Account F)
        → Fits (create id b)
        → account_find db id ≡ none
        → get_elem? db.accounts db.account_count ≡ some slot
        → view (created b slot) ≡ record (credit (view db) id b) { opened = db.account_count + 1 }
    unfolding credit
    view-created b slot fits absent at = λ j. record {
      opened = db.account_count + 1;
      funds =
          fun_ext
            (balance_of-new f db id b slot (get_elem?-lt db.accounts db.account_count at) absent
              fits.0 fits.1)
            j;
    }
