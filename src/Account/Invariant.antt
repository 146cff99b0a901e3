-- ===== src/Account/Invariant.antt =====
-- The well-formed account tables, and the writes that keep them so.
use ntut_network_and_system.Base.{
  ℕ, some_eq, zero, suc, ◌≤◌, ◌<◌, ◌≡◌, refl, true, false, some, List, [], ◌∷◌, arith, get_elem?,
  length, replicate, length-append, length-set, get_elem?-set, ◌∙◌,
}
use mathlib.Core.Path.{subst}
use ntut_network_and_system.CString.{terminated, strncpy, length-strncpy, terminated-append}
use ntut_network_and_system.Float.{FloatOps, IsOrdered}
use ntut_network_and_system.Account.{
  free, Account, AccountDb, put_account, new_account, max_accounts, account_id_len, account_init,
  blank_account,
}

-- An entry between two calls: its lock is free, its id is a C string that fits the array, and
-- its balance is not below zero.
pub record IsEntry {F : Type 0} (f : FloatOps F) (a : Account F) : Type 0 where
  pub lock_free : a.lock ≡ free
  pub id_length : length a.account_id ≡ account_id_len
  pub id_terminated : terminated a.account_id ≡ true
  pub not_below : f.lt a.balance f.zero_f ≡ false

pub record IsValid {F : Type 0} (f : FloatOps F) (db : AccountDb F) : Type 0 where
  pub size : length db.accounts ≡ max_accounts
  pub count_le : db.account_count ≤ max_accounts
  pub db_free : db.db_lock ≡ free
  pub entries : (i : ℕ) (a : Account F) → get_elem? db.accounts i ≡ some a → IsEntry f a

module _ {F : Type 0} (f : FloatOps F) where
  pub put_account-IsValid :
      (db : AccountDb F) (i : ℕ) (b : Account F)
      → i < length db.accounts
      → IsValid f db
      → IsEntry f b
      → IsValid f (put_account db i b)
  unfolding put_account
  put_account-IsValid db i b lt v e = record {
    size = length-set db.accounts i b ∙ v.size;
    count_le = v.count_le;
    db_free = v.db_free;
    entries = λ j a h. ground (arith, get_elem?-set db.accounts i j b lt, v.entries j a);
  }

  -- The entry that `account_create` writes is well formed.
  pub new_account-IsEntry :
      (id : List ℕ) (b : F) (slot : Account F)
      → slot.lock ≡ free
      → f.lt b f.zero_f ≡ false
      → IsEntry f (new_account f id b slot)
  new_account-IsEntry id b slot l nb = record {
    lock_free = l;
    id_length = length-append (strncpy 19 id) (0 ∷ []) ∙ omega (arith, length-strncpy 19 id);
    id_terminated = terminated-append (strncpy 19 id);
    not_below = nb;
  }

  blank_entries :
      (n : ℕ)
      → IsOrdered f
      → (i : ℕ) (a : Account F) → get_elem? (replicate n (blank_account f)) i ≡ some a
      → IsEntry f a
  unfolding terminated
  blank_entries zero o i a h = cc
  blank_entries (suc n) o zero a h = subst (IsEntry f) (some_eq h) (record {
    lock_free = refl;
    id_length = refl;
    id_terminated = refl;
    not_below = o.zero_not_below;
  })
  blank_entries (suc n) o (suc i) a h = blank_entries n o i a h

  -- A new table is well formed.
  pub account_init-IsValid : IsOrdered f → IsValid f (account_init f)
  unfolding account_init
  account_init-IsValid o = record {
    size = refl;
    count_le = omega arith;
    db_free = refl;
    entries = blank_entries 100 o;
  }
