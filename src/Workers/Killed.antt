-- ===== src/Workers/Killed.antt =====
-- What becomes of the table where a worker is killed in a call, server/banking_server.c: its
-- handler of SIGTERM ends the process wherever it stands.
use ntut_network_and_system.Base.{
  ==_iff, some_eq, ap, ◌∙◌, arith, ◌<◌, ℕ, zero, suc, ◌≡◌, refl, ◌⊎◌, inl, inr, Bool, true, false,
  some, List, [], ◌∷◌, get_elem?, fault,
}
use ntut_network_and_system.Float.{FloatOps, IsOrdered}
use ntut_network_and_system.Account.{
  held, Account, AccountDb, account_find, destroy_locks, account_cleanup,
}
use ntut_network_and_system.Account.Invariant.{IsValid}
use ntut_network_and_system.Ipc.{ipc_cleanup, detach_db}
use mathlib.Core.Path.{subst}
use ntut_network_and_system.Account.Find.{account_find-matches}
use ntut_network_and_system.Server.Master.{Master, shut_down_server}
use ntut_network_and_system.Workers.Moves.{Mutex-cases}
use ntut_network_and_system.Workers.{
  idle, begun, searching, creating, returning, locking, locked, reading, writing, leaving, finished,
  Pc, System, Reach,
}
use ntut_network_and_system.Workers.Invariant.{holds_table, holds_account, Fresh, Inv}
use ntut_network_and_system.Workers.Preserve.{Reach-Inv}
use ntut_network_and_system.Workers.Progress.{Guards-held, slot_at}

-- From its first lock to the end of its last.
abbrev pub holds_lock : {F : Type 0} → Pc F → Bool
holds_lock idle = false
holds_lock (begun op) = false
holds_lock (searching op) = true
holds_lock (creating id b) = true
holds_lock (returning c) = true
holds_lock (locking id act k) = true
holds_lock (locked id act k) = true
holds_lock (reading id act k) = true
holds_lock (writing id act k b) = true
holds_lock (leaving k c r) = true
holds_lock (finished c r) = false

module _ {F : Type 0} where
  destroy_locks-later :
      (b : Account F) (as_left : List (Account F))
      → destroy_locks as_left ≡ fault
      → destroy_locks (b ∷ as_left) ≡ fault
  unfolding destroy_locks
  destroy_locks-later b as_left e = elim (Mutex-cases b.lock) [
    | inl m ↦ rw (m, e) refl
    | inr (inl m) ↦ rw m refl
    | inr (inr m) ↦ rw m refl
  ]

  destroy_locks-held :
      (as_left : List (Account F)) (k : ℕ) (a : Account F)
      → get_elem? as_left k ≡ some a
      → a.lock ≡ held
      → destroy_locks as_left ≡ fault
  unfolding destroy_locks
  destroy_locks-held [] k a at h = cc
  destroy_locks-held (b ∷ as_left) zero a at h = rw (ap (λ x. x.lock) (some_eq at) ∙ h) refl
  destroy_locks-held (b ∷ as_left) (suc k) a at h =
      destroy_locks-later b as_left (destroy_locks-held as_left k a at h)

  cleanup-held :
      (db : AccountDb F) (k : ℕ) (a : Account F)
      → (db.db_lock ≡ held) ⊎ (get_elem? db.accounts k ≡ some a) × (a.lock ≡ held)
      → account_cleanup db ≡ fault
  unfolding account_cleanup
  cleanup-held db k a (inl m) = rw m refl
  cleanup-held db k a (inr (at, h)) = elim (Mutex-cases db.db_lock) [
    | inl m ↦ rw (m, destroy_locks-held db.accounts k a at h) refl
    | inr (inl m) ↦ rw m refl
    | inr (inr m) ↦ rw m refl
  ]

module _ {F : Type 0} (f : FloatOps F) (s : System F) (v : Inv f s) where
  table_in_use : (i : ℕ) → holds_table (s.pc i) ≡ true → account_cleanup s.db ≡ fault
  unfolding account_cleanup
  table_in_use i h = rw (Guards-held s.db.db_lock (λ j. holds_table (s.pc j)) i v.table h) refl

  account_in_use :
      (i k : ℕ)
      → holds_account k (s.pc i) ≡ true
      → k < s.db.account_count
      → account_cleanup s.db ≡ fault
  account_in_use i k h lt =
      let (a, at) = slot_at f s v k (omega (arith, v.count_le)) in
      cleanup-held s.db k a
        (inr (at, Guards-held a.lock (λ j. holds_account k (s.pc j)) i (v.each k a at) h))

  found_lt : (id : List ℕ) (k : ℕ) → account_find s.db id ≡ some k → k < s.db.account_count
  found_lt id k h = let (a, lt, at, m) = account_find-matches s.db id h in lt

  in_use : (i : ℕ) (p : Pc F) → s.pc i ≡ p → holds_lock p ≡ true → account_cleanup s.db ≡ fault
  in_use i (searching op) at h = table_in_use i (ap holds_table at)
  in_use i (creating id b) at h = table_in_use i (ap holds_table at)
  in_use i (returning c) at h = table_in_use i (ap holds_table at)
  in_use i (locking id act k) at h = table_in_use i (ap holds_table at)
  in_use i (locked id act k) at h = table_in_use i (ap holds_table at)
  in_use i (reading id act k) at h =
      account_in_use i k (ap (holds_account k) at ∙ (==_iff k k).1 refl)
        (found_lt id k (subst (λ y. Fresh f s.db y) at (v.fresh i)).1)
  in_use i (writing id act k b) at h =
      account_in_use i k (ap (holds_account k) at ∙ (==_iff k k).1 refl)
        (found_lt id k (subst (λ y. Fresh f s.db y) at (v.fresh i)).1)
  in_use i (leaving k c r) at h =
      account_in_use i k (ap (holds_account k) at ∙ (==_iff k k).1 refl)
        (subst (λ y. Fresh f s.db y) at (v.fresh i))
  in_use i idle at h = cc
  in_use i (begun op) at h = cc
  in_use i (finished c r) at h = cc

module _ {F : Type 0} (f : FloatOps F) where
  -- Let any number of workers call the table at the same time, from a well-formed table that
  -- none of them is using, where the ids of new accounts fit and the order of the numbers is as
  -- the hypotheses on `double` say. In any state that they reach, if one of them stands between
  -- taking its first lock and giving back its last one, then the end of the master on the table
  -- as it stands is a fault: it destroys a mutex that is locked.
  pub killed-cleanup :
      (db : AccountDb F) (s : System F) (i : ℕ) (m : Master F)
      → IsOrdered f
      → IsValid f db
      → Reach f db s
      → holds_lock (s.pc i) ≡ true
      → shut_down_server m s.db ≡ fault
  unfolding shut_down_server ipc_cleanup detach_db
  killed-cleanup db s i m ord v r h = rw (in_use f s (Reach-Inv f ord v r) i (s.pc i) refl h) refl
