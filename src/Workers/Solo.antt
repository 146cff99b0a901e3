-- ===== src/Workers/Solo.antt =====
-- A worker that runs alone does what the call does.
use ntut_network_and_system.Base.{
  if◌then◌else◌, >>=_assoc, sym, ◌∙◌, Option, ℕ, ◌≡◌, refl, inl, inr, true, false, none, some, List,
  Run, done, ◌>>=◌, Bool-cases, Option-cases, leb,
}
use ntut_network_and_system.Base.Int.{pos, neg}
use ntut_network_and_system.Float.{FloatOps}
use ntut_network_and_system.Account.{
  AccountDb, Outcome, max_accounts, account_find, lock_db, unlock_db, lock_account, put_account,
  account_create, account_deposit, account_withdraw, account_get_balance, lock_found, create_at_end,
}
use ntut_network_and_system.Account.Ledger.{Op, create, deposit, withdraw, query, call}
use ntut_network_and_system.Workers.{
  op_of, Action, add, take, look, begun, searching, creating, returning, advance, append_account,
  improper,
}
use ntut_network_and_system.Workers.Moves.{appended}
use ntut_network_and_system.Workers.Alone.{
  account_at-cases, >>=-same, run_alone, run_alone-finished, run_alone-returning, run_alone-step,
  run_alone-fault, run_alone-bind, found_at_end, run_alone-locking,
}

module _ {F : Type 0} (f : FloatOps F) where
  -- After the account was looked for.
  abbrev settle : Action F → Option ℕ × AccountDb F → Run (Outcome F)
  settle act (none, db) = done (record { code = neg 2; written = none; db = db })
  settle act (some i, db) = found_at_end f act db i

  run_alone-hit :
      (db : AccountDb F) (id : List ℕ) (act : Action F) (k : ℕ)
      → account_find db id ≡ some k
      → run_alone f 6 db (searching (op_of id act))
        ≡ (do db1 ← lock_account db k; db2 ← unlock_db db1; found_at_end f act db2 k)
  unfolding advance
  run_alone-hit db id (add x) k e =
      run_alone-step f 5 db _ (rw (e, advance) refl) ∙ run_alone-locking f db id (add x) k
  run_alone-hit db id (take x) k e =
      run_alone-step f 5 db _ (rw (e, advance) refl) ∙ run_alone-locking f db id (take x) k
  run_alone-hit db id look k e =
      run_alone-step f 5 db _ (rw (e, advance) refl) ∙ run_alone-locking f db id look k

  run_alone-miss :
      (db : AccountDb F) (id : List ℕ) (act : Action F)
      → account_find db id ≡ none
      → run_alone f 6 db (searching (op_of id act))
        ≡ (do db1 ← unlock_db db; done (record { code = neg 2; written = none; db = db1 }))
  unfolding advance
  run_alone-miss db id (add x) e =
      run_alone-step f 5 db _ (rw (e, advance) refl) ∙ run_alone-returning f 4 db (neg 2)
  run_alone-miss db id (take x) e =
      run_alone-step f 5 db _ (rw (e, advance) refl) ∙ run_alone-returning f 4 db (neg 2)
  run_alone-miss db id look e =
      run_alone-step f 5 db _ (rw (e, advance) refl) ∙ run_alone-returning f 4 db (neg 2)

  -- From the beginning to the end.
  run_alone-act :
      (db : AccountDb F) (id : List ℕ) (act : Action F)
      → improper f (op_of id act) ≡ false
      → run_alone f 7 db (begun (op_of id act)) ≡ (lock_found db id >>= settle act)
  unfolding advance lock_found
  run_alone-act db id act good =
      run_alone-bind f 6 db (begun (op_of id act)) (searching (op_of id act)) (lock_db db)
        (rw good refl)
      ∙ >>=-same (lock_db db) _ _ (λ db1. elim (Option-cases (account_find db1 id)) [
        | inl e ↦
            run_alone-miss db1 id act e ∙ rw e (sym (>>=_assoc (unlock_db db1) _ (settle act)))
        | inr (k, e) ↦
            run_alone-hit db1 id act k e
            ∙ rw e (
                sym (
                  >>=_assoc (lock_account db1 k) _ (settle act)
                  ∙ >>=-same (lock_account db1 k) _ _
                      (λ db2. >>=_assoc (unlock_db db2) _ (settle act))))
      ])
      ∙ sym (>>=_assoc (lock_db db) _ (settle act))

  run_alone-absent :
      (db : AccountDb F) (id : List ℕ) (b : F)
      → account_find db id ≡ none
      → run_alone f 6 db (searching (create id b)) ≡ (
          if leb max_accounts db.account_count
          then (do db1 ← unlock_db db; done (record { code = neg 3; written = none; db = db1 }))
          else create_at_end f db id b)
  unfolding advance append_account create_at_end put_account
  run_alone-absent db id b e = elim (Bool-cases (leb max_accounts db.account_count)) [
    | inl full ↦
        run_alone-step f 5 db _ {db' = db} {q = returning (neg 3)} (rw (e, full, advance) refl)
        ∙ run_alone-returning f 4 db (neg 3)
        ∙ rw full refl
    | inr room ↦
        run_alone-step f 5 db _ {db' = db} {q = creating id b} (rw (e, room, advance) refl)
        ∙ elim (account_at-cases db db.account_count) [
          | inl out ↦ run_alone-fault f 4 db (creating id b) (rw out refl) ∙ rw (room, out) refl
          | inr (slot, at) ↦
              let db1 = appended f db id b slot in
              run_alone-step f 4 db (creating id b) {db' = db1} {q = returning (pos 0)} (rw at refl)
              ∙ run_alone-returning f 3 db1 (pos 0)
              ∙ rw (room, at) refl
        ]
  ]

  -- What `account_create` does with the table's lock.
  abbrev create_locked : List ℕ → F → AccountDb F → Run (Outcome F)
  create_locked id b db = elim (account_find db id) [
    | some i ↦ do db1 ← unlock_db db; done (record { code = neg 2; written = none; db = db1 })
    | none ↦
        if leb max_accounts db.account_count
        then (do db1 ← unlock_db db; done (record { code = neg 3; written = none; db = db1 }))
        else create_at_end f db id b
  ]

  run_alone-create :
      (db : AccountDb F) (id : List ℕ) (b : F)
      → f.lt b f.zero_f ≡ false
      → run_alone f 7 db (begun (create id b)) ≡ account_create f db id b
  unfolding advance account_create
  run_alone-create db id b good =
      run_alone-bind f 6 db (begun (create id b)) (searching (create id b)) (lock_db db)
        (rw good refl)
      ∙ >>=-same (lock_db db) _ (create_locked id b) (λ db1.
        elim (Option-cases (account_find db1 id)) [
          | inl e ↦ run_alone-absent db1 id b e ∙ rw (e, create_locked) refl
          | inr (k, e) ↦
              run_alone-step f 5 db1 _ {db' = db1} {q = returning (neg 2)} (rw (e, advance) refl)
              ∙ run_alone-returning f 4 db1 (neg 2)
              ∙ rw (e, create_locked) refl
        ])
      ∙ rw good refl

  -- A call whose arguments are refused.
  run_alone-improper :
      (db : AccountDb F) (op : Op F)
      → improper f op ≡ true
      → run_alone f 7 db (begun op) ≡ done (record { code = neg 1; written = none; db = db })
  unfolding advance
  run_alone-improper db op bad =
      run_alone-step f 6 db (begun op) (rw bad refl) ∙ run_alone-finished f 6 db (neg 1) none

  settled :
      (act : Action F) (x : Option ℕ × AccountDb F)
      → settle act x ≡ elim x.0 [
        | none ↦ done (record { code = neg 2; written = none; db = x.1 })
        | some i ↦ found_at_end f act x.1 i
      ]
  settled act (none, db) = refl
  settled act (some i, db) = refl

  -- On any table, seven steps of a worker that begins a call and runs alone have the result of
  -- the call in one piece: the same code, balance and table, or the same wait or fault.
  pub run_alone-call : (op : Op F) (db : AccountDb F) → run_alone f 7 db (begun op) ≡ call f op db
  unfolding call account_create account_deposit account_withdraw account_get_balance
  run_alone-call (create id b) db = elim (Bool-cases (f.lt b f.zero_f)) [
    | inl bad ↦ run_alone-improper db (create id b) bad ∙ rw bad refl
    | inr good ↦ run_alone-create db id b good
  ]
  run_alone-call (deposit id x) db = elim (Bool-cases (f.le x f.zero_f)) [
    | inl bad ↦ run_alone-improper db (deposit id x) bad ∙ rw bad refl
    | inr good ↦
        run_alone-act db id (add x) good
        ∙ rw good (>>=-same (lock_found db id) _ _ (settled (add x)))
  ]
  run_alone-call (withdraw id x) db = elim (Bool-cases (f.le x f.zero_f)) [
    | inl bad ↦ run_alone-improper db (withdraw id x) bad ∙ rw bad refl
    | inr good ↦
        run_alone-act db id (take x) good
        ∙ rw good (>>=-same (lock_found db id) _ _ (settled (take x)))
  ]
  run_alone-call (query id) db =
      run_alone-act db id look refl ∙ >>=-same (lock_found db id) _ _ (settled look)
