-- ===== src/Account/Cleanup.antt =====
-- Destroying the locks of a table that no call is using.
use ntut_network_and_system.Base.{
  ℕ, suc, ◌≡◌, refl, ap, length, some, List, [], ◌∷◌, All, get_elem?, done,
}
use ntut_network_and_system.Float.{FloatOps}
use ntut_network_and_system.Account.{
  free, destroyed, Account, AccountDb, destroy_locks, account_cleanup,
}
use ntut_network_and_system.Account.Invariant.{IsValid}

abbrev pub IsDestroyed : {F : Type 0} → Account F → Type 0
IsDestroyed a = a.lock ≡ destroyed

destroy_locks-done :
    {F : Type 0} (as_left : List (Account F))
    → ((i : ℕ) (a : Account F) → get_elem? as_left i ≡ some a → a.lock ≡ free)
    → (cleaned : List (Account F)) × (destroy_locks as_left ≡ done cleaned)
      × (length cleaned ≡ length as_left)
      × All IsDestroyed cleaned
unfolding destroy_locks
destroy_locks-done [] free_locks = ([], refl, refl, tt)
destroy_locks-done (a ∷ as_left) free_locks =
    let (cleaned, run, long, all) = destroy_locks-done as_left (λ i b h. free_locks (suc i) b h) in
    (
      record a { lock = destroyed } ∷ cleaned,
      rw (free_locks 0 a refl, run),
      ap suc long,
      (refl, all),
    )

-- A well-formed table can be cleaned up: every lock is free, so none is destroyed in use.
pub account_cleanup-done :
    {F : Type 0} (f : FloatOps F) (db : AccountDb F)
    → IsValid f db
    → (db' : AccountDb F) × (account_cleanup db ≡ done db')
      × (db'.db_lock ≡ destroyed)
      × (length db'.accounts ≡ length db.accounts)
      × All IsDestroyed db'.accounts
unfolding account_cleanup
account_cleanup-done f db v =
    let (cleaned, run, long, all) =
      destroy_locks-done db.accounts (λ i a h. (v.entries i a h).lock_free) in
    (record db { accounts = cleaned; db_lock = destroyed }, rw (v.db_free, run), refl, long, all)
