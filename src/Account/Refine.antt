-- ===== src/Account/Refine.antt =====
-- The account operations implement the ledger: from a well-formed table each call ends, answers
-- what the ledger answers, and leaves a well-formed table that stands for the ledger's new state.
use ntut_network_and_system.Base.{
  ℕ, ◌≡◌, refl, ◌∙◌, none, some, List, [], ◌∷◌, arith, leb, get_elem?_total, inl, inr, Bool-cases,
  Option-cases, Run, done, leb-lt, All,
}
use ntut_network_and_system.Base.Int.{pos, neg}
use ntut_network_and_system.Float.{FloatOps, IsOrdered}
use ntut_network_and_system.Account.{
  AccountDb, Outcome, account_find, account_create, account_deposit, account_withdraw,
  account_get_balance, max_accounts,
}
use ntut_network_and_system.Account.Locks.{lock_found-none, with_balance}
use ntut_network_and_system.Account.Invariant.{IsValid}
use ntut_network_and_system.Account.View.{balance_of-none}
use ntut_network_and_system.Account.Ledger.{
  Entry, Op, create, deposit, withdraw, query, view, Fits, post, call, calls, posts,
}
use ntut_network_and_system.Account.Closed.{
  found-IsEntry, with_balance-IsValid, view-with_balance, deposit_found, withdraw_found,
  query_found, create_room, create_refused, create_full, created-IsValid, view-created, created,
}

module _ {F : Type 0} (f : FloatOps F) where
  -- The call has ended, and agrees with the ledger's entry.
  abbrev pub Implements : Run (Outcome F) → Entry F → Type 0
  Implements r e =
      (o : Outcome F) × (r ≡ done o)
      × (o.code ≡ e.code)
      × (o.written ≡ e.reported)
      × IsValid f o.db
      × (view o.db ≡ e.ledger)

  module _ (db : AccountDb F) (v : IsValid f db) (id : List ℕ) where
    -- Each of the three operations on an account that the search finds, or does not find.
    deposit-Implements :
        (x : F)
        → IsOrdered f
        → Implements (account_deposit f db id x) (post f (deposit id x) (view db))
    unfolding account_deposit post
    deposit-Implements x ord = elim (Bool-cases (f.le x f.zero_f)) [
      | inl low ↦
          (record { code = neg 1; written = none; db = db }, rw low, rw low, rw low, v, rw low)
      | inr ok ↦ elim (Option-cases (account_find db id)) [
        | inl absent ↦ (
          record { code = neg 2; written = none; db = db },
          rw (ok, lock_found-none db id v.db_free absent),
          rw (ok, balance_of-none db id absent),
          rw (ok, balance_of-none db id absent),
          v,
          rw (ok, balance_of-none db id absent),
        )
        | inr (i, h) ↦
            let (a, at, l, b, e) = found-IsEntry f db v id i h in
            let nb = ord.add_not_below a.balance x e.not_below ok in
            (
              _,
              deposit_found f db v id i a h at x ok,
              rw (ok, b),
              rw (ok, b),
              with_balance-IsValid f db v id i a h at _ nb,
              rw (ok, b) (view-with_balance f db v id i a h at _ nb),
            )
      ]
    ]

    withdraw-Implements :
        (x : F)
        → IsOrdered f
        → Implements (account_withdraw f db id x) (post f (withdraw id x) (view db))
    unfolding account_withdraw post
    withdraw-Implements x ord = elim (Bool-cases (f.le x f.zero_f)) [
      | inl low ↦
          (record { code = neg 1; written = none; db = db }, rw low, rw low, rw low, v, rw low)
      | inr ok ↦ elim (Option-cases (account_find db id)) [
        | inl absent ↦ (
          record { code = neg 2; written = none; db = db },
          rw (ok, lock_found-none db id v.db_free absent),
          rw (ok, balance_of-none db id absent),
          rw (ok, balance_of-none db id absent),
          v,
          rw (ok, balance_of-none db id absent),
        )
        | inr (i, h) ↦
            let (a, at, l, b, e) = found-IsEntry f db v id i h in
            elim (Bool-cases (f.lt a.balance x)) [
              | inl short ↦ (
                record { code = neg 3; written = none; db = db },
                withdraw_found f db v id i a h at x ok ∙ rw short refl,
                rw (ok, b, short),
                rw (ok, b, short),
                v,
                rw (ok, b, short),
              )
              | inr covered ↦
                  let nb = ord.sub_not_below a.balance x covered in
                  (
                    record {
                      code = pos 0;
                      written = some (f.sub a.balance x);
                      db = with_balance db i a (f.sub a.balance x);
                    },
                    withdraw_found f db v id i a h at x ok ∙ rw covered refl,
                    rw (ok, b, covered),
                    rw (ok, b, covered),
                    with_balance-IsValid f db v id i a h at _ nb,
                    rw (ok, b, covered) (view-with_balance f db v id i a h at _ nb),
                  )
            ]
      ]
    ]

    query-Implements : Implements (account_get_balance db id) (post f (query id) (view db))
    unfolding account_get_balance post
    query-Implements = elim (Option-cases (account_find db id)) [
      | inl absent ↦ (
        record { code = neg 2; written = none; db = db },
        rw (lock_found-none db id v.db_free absent),
        rw (balance_of-none db id absent, post),
        rw (balance_of-none db id absent, post),
        v,
        rw (balance_of-none db id absent, post),
      )
      | inr (i, h) ↦
          let (a, at, l, b, e) = found-IsEntry f db v id i h in
          (
            record { code = pos 0; written = some a.balance; db = db },
            query_found f db v id i a h at,
            rw (b, post),
            rw (b, post),
            v,
            rw (b, post),
          )
    ]

    create-Implements :
        (b : F)
        → Fits (create id b)
        → Implements (account_create f db id b) (post f (create id b) (view db))
    unfolding post account_create
    create-Implements b fits = elim (Bool-cases (f.lt b f.zero_f)) [
      | inl low ↦ (
        record { code = neg 1; written = none; db = db },
        rw (low, account_create),
        rw low,
        rw low,
        v,
        rw low,
      )
      | inr nb ↦ elim (Option-cases (account_find db id)) [
        | inr (i, h) ↦
            let (a, at, l, bal, e) = found-IsEntry f db v id i h in
            (
              record { code = neg 2; written = none; db = db },
              create_refused f db v id b nb i h,
              rw (nb, bal),
              rw (nb, bal),
              v,
              rw (nb, bal),
            )
        | inl absent ↦ elim (Bool-cases (leb max_accounts db.account_count)) [
          | inl full ↦ (
            record { code = neg 3; written = none; db = db },
            create_full f db v id b nb absent full,
            rw (nb, balance_of-none db id absent, full),
            rw (nb, balance_of-none db id absent, full),
            v,
            rw (nb, balance_of-none db id absent, full),
          )
          | inr room ↦
              let (slot, at) =
                get_elem?_total db.accounts db.account_count
                  (omega (arith, leb-lt max_accounts db.account_count room, v.size)) in
              (
                record { code = pos 0; written = none; db = created f db v id b slot },
                create_room f db v id b slot nb absent room at,
                rw (nb, balance_of-none db id absent, room),
                rw (nb, balance_of-none db id absent, room),
                created-IsValid f db v id b slot nb room at,
                rw (nb, balance_of-none db id absent, room)
                    (view-created f db v id b slot fits absent at),
              )
        ]
      ]
    ]

  -- One call, whichever it is.
  pub call-Implements :
      (db : AccountDb F) (op : Op F)
      → IsOrdered f
      → IsValid f db
      → Fits op
      → Implements (call f op db) (post f op (view db))
  unfolding call
  call-Implements db (create id b) ord v fits = create-Implements db v id b fits
  call-Implements db (deposit id x) ord v fits = deposit-Implements db v id x ord
  call-Implements db (withdraw id x) ord v fits = withdraw-Implements db v id x ord
  call-Implements db (query id) ord v fits = query-Implements db v id

  -- On a well-formed table, any sequence of creations, deposits, withdrawals and queries runs to
  -- its end and gives the codes and balances that the ledger gives for the same sequence; the
  -- table afterwards is well formed and stands for the ledger's state. The ids of the accounts
  -- created are C strings of at most 19 characters.
  pub calls-Implements :
      (db : AccountDb F) (ops : List (Op F))
      → IsOrdered f
      → IsValid f db
      → All Fits ops
      → (db' : AccountDb F) × (calls f ops db ≡ done ((posts f ops (view db)).0, db'))
        × IsValid f db'
        × (view db' ≡ (posts f ops (view db)).1)
  unfolding calls posts
  calls-Implements db [] ord v fits = (db, refl, v, refl)
  calls-Implements db (op ∷ ops) ord v fits =
      let (o, run, code, written, v', same) = call-Implements db op ord v fits.0 in
      let (db', runs, w, sames) = calls-Implements o.db ops ord v' fits.1 in
      (db', rw (run, runs, code, written, same), w, sames ∙ rw same refl)
