-- ===== src/Workers/Progress.antt =====
-- Which workers can make a step: none is stuck in a fault, and one that waits, waits for another.
use ntut_network_and_system.Base.{
  ==_iff, ap, get_elem?_total, Bool, ℕ, ◌<◌, ◌≡◌, refl, sym, ◌∙◌, ◌≢◌, ◌⊎◌, inl, inr, true, false,
  some, none, List, get_elem?, arith, done, blocked, fault, leb-lt, Bool-cases, Option-cases,
}
use mathlib.Core.Path.{subst}
use ntut_network_and_system.Float.{FloatOps, IsOrdered}
use ntut_network_and_system.Account.{
  Mutex, free, held, destroyed, Account, AccountDb, account_find, max_accounts, account_at, lock_db,
  unlock_db, lock_account, unlock_account, put_account,
}
use ntut_network_and_system.Account.Find.{account_find-matches}
use ntut_network_and_system.Account.Invariant.{IsValid}
use ntut_network_and_system.Workers.{
  Op, pos, neg, Pc, idle, begun, searching, creating, returning, locking, locked, reading, writing,
  leaving, finished, System, Reach, account_of, absent, present, loaded, improper, append_account,
  advance, ready,
}
use ntut_network_and_system.Workers.Guards.{Guards}
use ntut_network_and_system.Workers.Invariant.{holds_table, holds_account, Fresh, Inv}
use ntut_network_and_system.Workers.Moves.{appended}
use ntut_network_and_system.Workers.Preserve.{Reach-Inv}

module _ {F : Type 0} (f : FloatOps F) where
  -- Worker `i` is in a call and can make a step of it.
  abbrev pub CanMove : System F → ℕ → Type 0
  CanMove s i =
      (ready (s.pc i) ≡ false) × (r : AccountDb F × Pc F) × (advance f s.db (s.pc i) ≡ done r)

  -- A worker in a call can make a step, or waits for a mutex that is held.
  pub data Turn (s : System F) (p : Pc F) : Type 0 where
    moves_on : (r : AccountDb F × Pc F) → advance f s.db p ≡ done r → Turn s p
    wants_table :
        (op : Op F) → p ≡ begun op → advance f s.db p ≡ blocked → s.db.db_lock ≡ held → Turn s p
    wants_account :
        (k : ℕ) (a : Account F)
        → ((j : ℕ) → holds_account j p ≡ false)
        → advance f s.db p ≡ blocked
        → get_elem? s.db.accounts k ≡ some a
        → a.lock ≡ held
        → Turn s p

-- A mutex with a holder is held, and one that is guarded is not destroyed.
pub Guards-held :
    (m : Mutex) (holds : ℕ → Bool) (i : ℕ) → Guards m holds → holds i ≡ true → m ≡ held
Guards-held free holds i g h = cc (g i)
Guards-held held holds i g h = refl
Guards-held destroyed holds i g h = absurd g

Guards-cases : (m : Mutex) (holds : ℕ → Bool) → Guards m holds → (m ≡ free) ⊎ (m ≡ held)
Guards-cases free holds g = inl refl
Guards-cases held holds g = inr refl
Guards-cases destroyed holds g = absurd g

Guards-holder :
    (m : Mutex) (holds : ℕ → Bool) → Guards m holds → m ≡ held → (i : ℕ) × (holds i ≡ true)
Guards-holder free holds g h = cc
Guards-holder held holds (i, own, only) h = (i, own)
Guards-holder destroyed holds g h = absurd g

ready-no_fault :
    {F : Type 0} (f : FloatOps F) (db : AccountDb F) (p : Pc F)
    → ready p ≡ true
    → advance f db p ≢ fault
unfolding advance
ready-no_fault f db idle h bad = cc
ready-no_fault f db (finished c r) h bad = cc
ready-no_fault f db p h bad = absurd (ground arith)

module _ {F : Type 0} (f : FloatOps F) (s : System F) (v : Inv f s) where
  pub slot_at : (k : ℕ) → k < max_accounts → (a : Account F) × (get_elem? s.db.accounts k ≡ some a)
  slot_at k lt = get_elem?_total s.db.accounts k (subst (λ n. k < n) (sym v.size) lt)

  found_at :
      (id : List ℕ) (k : ℕ)
      → account_find s.db id ≡ some k
      → (a : Account F) × (get_elem? s.db.accounts k ≡ some a)
  found_at id k h = let (a, lt, at, m) = account_find-matches s.db id h in (a, at)

  -- The lock of the table while a worker holds it, and of an account.
  table_held : (i : ℕ) (p : Pc F) → s.pc i ≡ p → holds_table p ≡ true → s.db.db_lock ≡ held
  table_held i p at h =
      Guards-held s.db.db_lock (λ j. holds_table (s.pc j)) i v.table (ap holds_table at ∙ h)

  account_held :
      (i : ℕ) (p : Pc F) (k : ℕ) (a : Account F)
      → s.pc i ≡ p
      → get_elem? s.db.accounts k ≡ some a
      → holds_account k p ≡ true
      → a.lock ≡ held
  account_held i p k a at there h =
      Guards-held a.lock (λ j. holds_account k (s.pc j)) i (v.each k a there)
        (ap (holds_account k) at ∙ h)

  pub worker-Turn : (i : ℕ) (p : Pc F) → s.pc i ≡ p → ready p ≡ false → Turn f s p
  unfolding advance lock_db unlock_db lock_account unlock_account account_at put_account
      append_account
  worker-Turn i idle at busy = cc
  worker-Turn i (begun op) at busy = elim (Bool-cases (improper f op)) [
    | inl bad ↦ moves_on (s.db, finished (neg 1) none) (rw bad)
    | inr good ↦ elim (Guards-cases s.db.db_lock _ v.table) [
      | inl m ↦ moves_on (record s.db { db_lock = held }, searching op) (rw (good, m) refl)
      | inr m ↦ wants_table op refl (rw (good, m) refl) m
    ]
  ]
  worker-Turn i (searching op) at busy = elim (Option-cases (account_find s.db (account_of op))) [
    | inl e ↦ moves_on (s.db, absent s.db op) (rw (e, advance) refl)
    | inr (k, e) ↦ moves_on (s.db, present op k) (rw (e, advance) refl)
  ]
  worker-Turn i (creating id b) at busy =
      let (t, good, none_yet, room) = subst (λ y. Fresh f s.db y) at (v.fresh i) in
      let (slot, e) = slot_at s.db.account_count (leb-lt max_accounts s.db.account_count room) in
      moves_on (appended f s.db id b slot, returning (pos 0)) (ground arith)
  worker-Turn i (returning c) at busy =
      moves_on (record s.db { db_lock = free }, finished c none)
        (rw (table_held i (returning c) at refl) refl)
  worker-Turn i (locking id act k) at busy =
      let (a, e) = found_at id k (subst (λ y. Fresh f s.db y) at (v.fresh i)).1 in
      elim (Guards-cases a.lock _ (v.each k a e)) [
        | inl m ↦
            moves_on (put_account s.db k (record a { lock = held }), locked id act k) (ground arith)
        | inr m ↦ wants_account k a (λ j. refl) (ground arith) e m
      ]
  worker-Turn i (locked id act k) at busy =
      moves_on (record s.db { db_lock = free }, reading id act k)
        (rw (table_held i (locked id act k) at refl) refl)
  worker-Turn i (reading id act k) at busy =
      let (a, e) = found_at id k (subst (λ y. Fresh f s.db y) at (v.fresh i)).1 in
      moves_on (s.db, loaded f id act k a.balance) (ground arith)
  worker-Turn i (writing id act k b) at busy =
      let (a, e) = found_at id k (subst (λ y. Fresh f s.db y) at (v.fresh i)).1 in
      moves_on (put_account s.db k (record a { balance = b }), leaving k (pos 0) (some b))
        (ground arith)
  worker-Turn i (leaving k c x) at busy =
      let (a, e) =
        slot_at k (omega (arith, v.count_le, subst (λ y. Fresh f s.db y) at (v.fresh i))) in
      let m = account_held i (leaving k c x) k a at e ((==_iff k k).1 refl) in
      moves_on (put_account s.db k (record a { lock = free }), finished c x) (ground arith)
  worker-Turn i (finished c x) at busy = cc

  -- A worker that holds an account, or the table, is in a call.
  holder_busy : (p : Pc F) (k : ℕ) → holds_account k p ≡ true → ready p ≡ false
  holder_busy p k h = ground arith

  table_busy : (p : Pc F) → holds_table p ≡ true → ready p ≡ false
  table_busy p h = ground arith

  -- Who holds an account moves.
  account-CanMove : (j k : ℕ) → holds_account k (s.pc j) ≡ true → CanMove f s j
  account-CanMove j k h =
      let busy = holder_busy (s.pc j) k h in
      elim (worker-Turn j (s.pc j) refl busy) [
        | moves_on r e ↦ (busy, r, e)
        | wants_table op at e m ↦ cc (sym (ap (holds_account k) at) ∙ h)
        | wants_account n a apart e at m ↦ cc (apart k)
      ]

  -- Whom a worker waits for, if it waits for an account, moves.
  awaited-CanMove :
      (k : ℕ) (a : Account F)
      → get_elem? s.db.accounts k ≡ some a
      → a.lock ≡ held
      → (j : ℕ) × CanMove f s j
  awaited-CanMove k a at m =
      let (j, h) = Guards-holder a.lock (λ n. holds_account k (s.pc n)) (v.each k a at) m in
      (j, account-CanMove j k h)

  table-CanMove : (j : ℕ) → holds_table (s.pc j) ≡ true → (i : ℕ) × CanMove f s i
  table-CanMove j h =
      let busy = table_busy (s.pc j) h in
      elim (worker-Turn j (s.pc j) refl busy) [
        | moves_on r e ↦ (j, (busy, r, e))
        | wants_table op at e m ↦ cc (sym (ap holds_table at) ∙ h)
        | wants_account n a apart e at m ↦ awaited-CanMove n a at m
      ]

  pub busy-CanMove : (i : ℕ) → ready (s.pc i) ≡ false → (j : ℕ) × CanMove f s j
  busy-CanMove i busy = elim (worker-Turn i (s.pc i) refl busy) [
    | moves_on r e ↦ (i, (busy, r, e))
    | wants_table op at e m ↦
        let (j, h) = Guards-holder s.db.db_lock (λ n. holds_table (s.pc n)) v.table m in
        table-CanMove j h
    | wants_account n a apart e at m ↦ awaited-CanMove n a at m
  ]

module _ {F : Type 0} (f : FloatOps F) where
  -- Let any number of workers call the table at the same time, from a well-formed table that
  -- none of them is using, where the ids of new accounts fit and the order of the numbers is as
  -- the hypotheses on `double` say. Then no step of any worker is a fault: none reads or writes
  -- outside the table, and none unlocks a mutex that is not locked.
  pub Reach-no_fault :
      (db : AccountDb F) (s : System F) (i : ℕ)
      → IsOrdered f
      → IsValid f db
      → Reach f db s
      → advance f s.db (s.pc i) ≢ fault
  Reach-no_fault db s i ord v r bad = elim (Bool-cases (ready (s.pc i))) [
    | inl rest ↦ ready-no_fault f s.db (s.pc i) rest bad
    | inr busy ↦ elim (worker-Turn f s (Reach-Inv f ord v r) i (s.pc i) refl busy) [
      | moves_on x e ↦ cc
      | wants_table op at e m ↦ cc
      | wants_account k a apart e at m ↦ cc
    ]
  ]

  -- While a worker is in a call, some worker can make a step of its own call.
  pub Reach-CanMove :
      (db : AccountDb F) (s : System F) (i : ℕ)
      → IsOrdered f
      → IsValid f db
      → Reach f db s
      → ready (s.pc i) ≡ false
      → (j : ℕ) × CanMove f s j
  Reach-CanMove db s i ord v r busy = busy-CanMove f s (Reach-Inv f ord v r) i busy
