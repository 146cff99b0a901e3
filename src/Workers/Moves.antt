-- ===== src/Workers/Moves.antt =====
-- The steps of a worker as a relation, with what each needs of the table and does to it.
use ntut_network_and_system.Base.{
  ℕ, ◌+◌, ◌≡◌, refl, true, false, Option, none, some, List, get_elem?, Option-cases, inl, inr,
  arith, Bool-cases, done,
}
use mathlib.Core.Path.{subst, sym, ◌∙◌}
use mathlib.Core.Logic.{◌⊎◌}
use ntut_network_and_system.Base.Int.{ℤ, pos, neg}
use ntut_network_and_system.Float.{FloatOps}
use ntut_network_and_system.Account.{
  Mutex, free, held, destroyed, Account, AccountDb, account_find, lock_db, unlock_db, lock_account,
  unlock_account, account_at, put_account, new_account,
}
use ntut_network_and_system.Account.Ledger.{Op}
use ntut_network_and_system.Workers.{
  Action, Pc, idle, begun, searching, creating, returning, locking, locked, reading, writing,
  leaving, finished, account_of, present, absent, improper, loaded, append_account, advance, ready,
}

-- The table with an account in its next slot.
abbrev pub appended : {F : Type 0} → FloatOps F → AccountDb F → List ℕ → F → Account F → AccountDb F
appended f db id b slot = record (put_account db db.account_count (new_account f id b slot)) {
  account_count = db.account_count + 1;
}

pub data Move {F : Type 0} (f : FloatOps F) (db : AccountDb F)
    : Pc F → AccountDb F → Pc F → Type 0 where
  refuse : {op : Op F} → improper f op ≡ true → Move f db (begun op) db (finished (neg 1) none)
  lock_table :
      {op : Op F}
      → improper f op ≡ false
      → db.db_lock ≡ free
      → Move f db (begun op) (record db { db_lock = held }) (searching op)
  miss :
      {op : Op F}
      → account_find db (account_of op) ≡ none
      → Move f db (searching op) db (absent db op)
  hit :
      {op : Op F} {k : ℕ}
      → account_find db (account_of op) ≡ some k
      → Move f db (searching op) db (present op k)
  append :
      {id : List ℕ} {b : F} {slot : Account F}
      → get_elem? db.accounts db.account_count ≡ some slot
      → Move f db (creating id b) (appended f db id b slot) (returning (pos 0))
  give_back :
      {c : ℤ}
      → db.db_lock ≡ held
      → Move f db (returning c) (record db { db_lock = free }) (finished c none)
  lock_one :
      {id : List ℕ} {act : Action F} {k : ℕ} {a : Account F}
      → get_elem? db.accounts k ≡ some a
      → a.lock ≡ free
      → Move f db (locking id act k) (put_account db k (record a { lock = held })) (locked id act k)
  let_go :
      {id : List ℕ} {act : Action F} {k : ℕ}
      → db.db_lock ≡ held
      → Move f db (locked id act k) (record db { db_lock = free }) (reading id act k)
  load :
      {id : List ℕ} {act : Action F} {k : ℕ} {a : Account F}
      → get_elem? db.accounts k ≡ some a
      → Move f db (reading id act k) db (loaded f id act k a.balance)
  store :
      {id : List ℕ} {act : Action F} {k : ℕ} {b : F} {a : Account F}
      → get_elem? db.accounts k ≡ some a
      → Move f db
          (writing id act k b)
          (put_account db k (record a { balance = b }))
          (leaving k (pos 0) (some b))
  unlock_one :
      {k : ℕ} {c : ℤ} {r : Option F} {a : Account F}
      → get_elem? db.accounts k ≡ some a
      → a.lock ≡ held
      → Move f db (leaving k c r) (put_account db k (record a { lock = free })) (finished c r)

pub Mutex-cases : (m : Mutex) → (m ≡ free) ⊎ (m ≡ held) ⊎ (m ≡ destroyed)
Mutex-cases free = inl refl
Mutex-cases held = inr (inl refl)
Mutex-cases destroyed = inr (inr refl)

done_inj {ℓ} : {A : Type ℓ} {a b : A} → done a ≡ done b → a ≡ b
done_inj h = cc

module _ {F : Type 0} (f : FloatOps F) (db : AccountDb F) where
  -- What a step that ends in `x` makes of its equation.
  moved :
      {p : Pc F} {x r : AccountDb F × Pc F}
      → advance f db p ≡ done r
      → advance f db p ≡ done x
      → Move f db p x.0 x.1
      → Move f db p r.0 r.1
  moved {p} h e mv = subst (λ y. Move f db p y.0 y.1) (done_inj (sym e ∙ h)) mv

  -- Every step is a move.
  pub advance-Move :
      (p : Pc F) (r : AccountDb F × Pc F)
      → ready p ≡ false
      → advance f db p ≡ done r
      → Move f db p r.0 r.1
  unfolding advance lock_db unlock_db lock_account unlock_account account_at put_account
      append_account
  advance-Move idle r busy h = cc
  advance-Move (begun op) r busy h = elim (Bool-cases (improper f op)) [
    | inl bad ↦ moved h (rw bad) (refuse bad)
    | inr good ↦ elim (Mutex-cases db.db_lock) [
      | inl m ↦ moved h (rw (good, m)) (lock_table good m)
      | inr (inl m) ↦ absurd (ground arith)
      | inr (inr m) ↦ absurd (ground arith)
    ]
  ]
  advance-Move (searching op) r busy h = elim (Option-cases (account_find db (account_of op))) [
    | inl e ↦ moved h (rw (e, advance)) (miss e)
    | inr (k, e) ↦ moved h (rw (e, advance)) (hit e)
  ]
  advance-Move (creating id b) r busy h =
      elim (Option-cases (get_elem? db.accounts db.account_count)) [
        | inl e ↦ absurd (ground arith)
        | inr (slot, e) ↦ moved h (ground arith) (append e)
      ]
  advance-Move (returning c) r busy h = elim (Mutex-cases db.db_lock) [
    | inl m ↦ absurd (ground arith)
    | inr (inl m) ↦ moved h (rw m) (give_back m)
    | inr (inr m) ↦ absurd (ground arith)
  ]
  advance-Move (locking id act k) r busy h = elim (Option-cases (get_elem? db.accounts k)) [
    | inl e ↦ absurd (ground arith)
    | inr (a, e) ↦ elim (Mutex-cases a.lock) [
      | inl m ↦ moved h (ground arith) (lock_one e m)
      | inr (inl m) ↦ absurd (ground arith)
      | inr (inr m) ↦ absurd (ground arith)
    ]
  ]
  advance-Move (locked id act k) r busy h = elim (Mutex-cases db.db_lock) [
    | inl m ↦ absurd (ground arith)
    | inr (inl m) ↦ moved h (rw m) (let_go m)
    | inr (inr m) ↦ absurd (ground arith)
  ]
  advance-Move (reading id act k) r busy h = elim (Option-cases (get_elem? db.accounts k)) [
    | inl e ↦ absurd (ground arith)
    | inr (a, e) ↦ moved h (ground arith) (load e)
  ]
  advance-Move (writing id act k b) r busy h = elim (Option-cases (get_elem? db.accounts k)) [
    | inl e ↦ absurd (ground arith)
    | inr (a, e) ↦ moved h (ground arith) (store e)
  ]
  advance-Move (leaving k c x) r busy h = elim (Option-cases (get_elem? db.accounts k)) [
    | inl e ↦ absurd (ground arith)
    | inr (a, e) ↦ elim (Mutex-cases a.lock) [
      | inl m ↦ absurd (ground arith)
      | inr (inl m) ↦ moved h (ground arith) (unlock_one e m)
      | inr (inr m) ↦ absurd (ground arith)
    ]
  ]
  advance-Move (finished c x) r busy h = cc
