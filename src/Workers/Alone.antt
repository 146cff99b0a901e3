-- ===== src/Workers/Alone.antt =====
-- The steps of a worker that runs alone, from the account's lock to the end of its call.
use ntut_network_and_system.Base.{
  ap, ◌⊎◌, ◌∙◌, Option, ℕ, zero, suc, ◌≡◌, refl, inl, inr, none, some, List, get_elem?, arith, Run,
  done, blocked, fault, ◌>>=◌, Bool-cases, Option-cases,
}
use mathlib.Core.Path.{fun_ext}
use ntut_network_and_system.Base.Int.{ℤ, pos, neg}
use ntut_network_and_system.Float.{FloatOps}
use ntut_network_and_system.Account.{
  Account, AccountDb, Outcome, account_at, unlock_db, lock_account, unlock_account, put_account,
  deposit_at, withdraw_at, balance_at,
}
use ntut_network_and_system.Workers.{
  Action, add, take, look, Pc, idle, begun, searching, creating, returning, locking, locked,
  reading, writing, leaving, finished, advance,
}

-- What a call has come to, where it has ended.
abbrev pub outcome_of : {F : Type 0} → AccountDb F → Pc F → Run (Outcome F)
outcome_of db idle = blocked
outcome_of db (begun op) = blocked
outcome_of db (searching op) = blocked
outcome_of db (creating id b) = blocked
outcome_of db (returning c) = blocked
outcome_of db (locking id act k) = blocked
outcome_of db (locked id act k) = blocked
outcome_of db (reading id act k) = blocked
outcome_of db (writing id act k b) = blocked
outcome_of db (leaving k c r) = blocked
outcome_of db (finished c r) = done (record { code = c; written = r; db = db })

pub account_at-cases :
    {F : Type 0} (db : AccountDb F) (k : ℕ)
    → (account_at db k ≡ fault) ⊎ (a : Account F) × (account_at db k ≡ done a)
unfolding account_at
account_at-cases db k = elim (Option-cases (get_elem? db.accounts k)) [
  | inl e ↦ inl (ground arith)
  | inr (a, e) ↦ inr (a, ground arith)
]

pub >>=-same {ℓ κ} :
    {A : Type ℓ} {B : Type κ} (m : Run A) (j k : A → Run B)
    → ((a : A) → j a ≡ k a)
    → (m >>= j) ≡ (m >>= k)
>>=-same m j k same = ap (λ h. m >>= h) (fun_ext same)

module _ {F : Type 0} (f : FloatOps F) where
  -- `n` steps of one worker.
  unfoldable pub run_alone : ℕ → AccountDb F → Pc F → Run (Outcome F)
  run_alone zero db p = outcome_of db p
  run_alone (suc n) db p = do (db', q) ← advance f db p; run_alone n db' q

  pub run_alone-finished :
      (n : ℕ) (db : AccountDb F) (c : ℤ) (r : Option F)
      → run_alone n db (finished c r) ≡ done (record { code = c; written = r; db = db })
  unfolding run_alone advance
  run_alone-finished zero db c r = refl
  run_alone-finished (suc n) db c r = run_alone-finished n db c r

  -- The last step of a call.
  pub last_step :
      (n : ℕ) (m : Run (AccountDb F)) (c : ℤ) (r : Option F)
      → (do (db, q) ← (do db ← m; done (db, finished c r)); run_alone n db q)
        ≡ (do db ← m; done (record { code = c; written = r; db = db }))
  last_step n (done db) c r = run_alone-finished n db c r
  last_step n blocked c r = refl
  last_step n fault c r = refl

  pub run_alone-leaving :
      (n : ℕ) (db : AccountDb F) (k : ℕ) (c : ℤ) (r : Option F)
      → run_alone (suc n) db (leaving k c r)
        ≡ (do db' ← unlock_account db k; done (record { code = c; written = r; db = db' }))
  unfolding run_alone advance
  run_alone-leaving n db k c r = last_step n (unlock_account db k) c r

  pub run_alone-returning :
      (n : ℕ) (db : AccountDb F) (c : ℤ)
      → run_alone (suc n) db (returning c)
        ≡ (do db' ← unlock_db db; done (record { code = c; written = none; db = db' }))
  unfolding run_alone advance
  run_alone-returning n db c = last_step n (unlock_db db) c none

  pub run_alone-step :
      (n : ℕ) (db : AccountDb F) (p : Pc F) {db' : AccountDb F} {q : Pc F}
      → advance f db p ≡ done (db', q)
      → run_alone (suc n) db p ≡ run_alone n db' q
  unfolding run_alone
  run_alone-step n db p e = rw e

  pub run_alone-fault :
      (n : ℕ) (db : AccountDb F) (p : Pc F)
      → advance f db p ≡ fault
      → run_alone (suc n) db p ≡ fault
  unfolding run_alone
  run_alone-fault n db p e = rw e

  -- A step that is one call of a mutex.
  pub run_alone-bind :
      (n : ℕ) (db : AccountDb F) (p q : Pc F) (m : Run (AccountDb F))
      → advance f db p ≡ (do db' ← m; done (db', q))
      → run_alone (suc n) db p ≡ (do db' ← m; run_alone n db' q)
  unfolding run_alone
  run_alone-bind n db p q (done x) e = rw e
  run_alone-bind n db p q blocked e = rw e
  run_alone-bind n db p q fault e = rw e

  pub run_alone-withdraw_at :
      (db : AccountDb F) (id : List ℕ) (k : ℕ) (x : F)
      → run_alone 3 db (reading id (take x) k) ≡ withdraw_at f db k x
  unfolding withdraw_at advance
  run_alone-withdraw_at db id k x = elim (account_at-cases db k) [
    | inl e ↦ run_alone-fault 2 db (reading id (take x) k) (rw e refl) ∙ rw e refl
    | inr (a, e) ↦ elim (Bool-cases (f.lt a.balance x)) [
      | inl short ↦
          run_alone-step 2 db (reading id (take x) k) (rw (e, short) refl)
          ∙ run_alone-leaving 1 db k (neg 3) none
          ∙ rw (e, short) refl
      | inr covered ↦
          run_alone-step 2 db (reading id (take x) k) (rw (e, covered) refl)
          ∙ run_alone-step 1 db (writing id (take x) k (f.sub a.balance x)) (rw e refl)
          ∙ run_alone-leaving 0 (put_account db k (record a { balance = f.sub a.balance x })) k
              (pos 0) (some (f.sub a.balance x))
          ∙ rw (e, covered) refl
    ]
  ]

  pub run_alone-deposit_at :
      (db : AccountDb F) (id : List ℕ) (k : ℕ) (x : F)
      → run_alone 3 db (reading id (add x) k) ≡ deposit_at f db k x
  unfolding deposit_at advance
  run_alone-deposit_at db id k x = elim (account_at-cases db k) [
    | inl e ↦ run_alone-fault 2 db (reading id (add x) k) (rw e refl) ∙ rw e refl
    | inr (a, e) ↦
        run_alone-step 2 db (reading id (add x) k) (rw e refl)
        ∙ run_alone-step 1 db (writing id (add x) k (f.add a.balance x)) (rw e refl)
        ∙ run_alone-leaving 0 (put_account db k (record a { balance = f.add a.balance x })) k
            (pos 0) (some (f.add a.balance x))
        ∙ rw e refl
  ]

  pub run_alone-balance_at :
      (db : AccountDb F) (id : List ℕ) (k : ℕ)
      → run_alone 3 db (reading id look k) ≡ balance_at db k
  unfolding balance_at advance
  run_alone-balance_at db id k = elim (account_at-cases db k) [
    | inl e ↦ run_alone-fault 2 db (reading id look k) (rw e refl) ∙ rw e refl
    | inr (a, e) ↦
        run_alone-step 2 db (reading id look k) (rw e refl)
        ∙ run_alone-leaving 1 db k (pos 0) (some a.balance)
        ∙ rw e refl
  ]

  -- From the search to the end, for a call that uses one account.
  abbrev pub found_at_end : Action F → AccountDb F → ℕ → Run (Outcome F)
  found_at_end (add x) db k = deposit_at f db k x
  found_at_end (take x) db k = withdraw_at f db k x
  found_at_end look db k = balance_at db k

  pub run_alone-found :
      (db : AccountDb F) (id : List ℕ) (act : Action F) (k : ℕ)
      → run_alone 3 db (reading id act k) ≡ found_at_end act db k
  run_alone-found db id (add x) k = run_alone-deposit_at db id k x
  run_alone-found db id (take x) k = run_alone-withdraw_at db id k x
  run_alone-found db id look k = run_alone-balance_at db id k

  pub run_alone-locking :
      (db : AccountDb F) (id : List ℕ) (act : Action F) (k : ℕ)
      → run_alone 5 db (locking id act k)
        ≡ (do db1 ← lock_account db k; db2 ← unlock_db db1; found_at_end act db2 k)
  unfolding advance
  run_alone-locking db id act k =
      run_alone-bind 4 db (locking id act k) (locked id act k) (lock_account db k) refl
      ∙ >>=-same (lock_account db k) _ _ (λ db1.
        run_alone-bind 3 db1 (locked id act k) (reading id act k) (unlock_db db1) refl
        ∙ >>=-same (unlock_db db1) _ _ (λ db2. run_alone-found db2 id act k))
