-- ===== src/Account/Total.antt =====
-- Every call on a well-formed table ends, with a status code that the code names, and leaves a
-- well-formed table, whatever bytes the id is made of.
use ntut_network_and_system.Base.{
  ℕ, ◌≡◌, refl, ◌⊎◌, inl, inr, Bool-cases, Option-cases, none, List, arith, leb, leb-lt,
  get_elem?_total, Run, done,
}
use ntut_network_and_system.Base.Int.{ℤ, pos, neg}
use ntut_network_and_system.Float.{FloatOps, IsOrdered}
use ntut_network_and_system.Account.{AccountDb, Outcome, account_find, max_accounts, account_create}
use ntut_network_and_system.Account.Invariant.{IsValid}
use ntut_network_and_system.Account.Closed.{
  create_room, create_refused, create_full, created-IsValid,
}
use ntut_network_and_system.Account.Ledger.{
  Op, create, deposit, withdraw, query, Ledger, view, post, call,
}
use ntut_network_and_system.Account.Refine.{Implements, call-Implements}

-- 0, -1, -2 or -3
abbrev pub IsCode : ℤ → Type 0
IsCode c = (c ≡ pos 0) ⊎ ((c ≡ neg 1) ⊎ ((c ≡ neg 2) ⊎ (c ≡ neg 3)))

module _ {F : Type 0} (f : FloatOps F) where
  abbrev pub Settles : Run (Outcome F) → Type 0
  Settles r = (o : Outcome F) × (r ≡ done o) × IsCode o.code × IsValid f o.db

  pub post-IsCode : (op : Op F) (l : Ledger F) → IsCode (post f op l).code
  unfolding post
  post-IsCode (create id b) l = ground arith
  post-IsCode (deposit id x) l = ground arith
  post-IsCode (withdraw id x) l = ground arith
  post-IsCode (query id) l = ground arith

  Implements-Settles :
      (op : Op F) (l : Ledger F) (r : Run (Outcome F)) → Implements f r (post f op l) → Settles r
  Implements-Settles op l r (o, run, code, written, v, same) =
      (o, run, rw code (post-IsCode op l), v)

  create-Settles :
      (db : AccountDb F) (id : List ℕ) (b : F) → IsValid f db → Settles (account_create f db id b)
  unfolding account_create
  create-Settles db id b v = elim (Bool-cases (f.lt b f.zero_f)) [
    | inl low ↦ (record { code = neg 1; written = none; db = db }, rw low, inr (inl refl), v)
    | inr nb ↦ elim (Option-cases (account_find db id)) [
      | inr (i, h) ↦ (_, create_refused f db v id b nb i h, inr (inr (inl refl)), v)
      | inl absent ↦ elim (Bool-cases (leb max_accounts db.account_count)) [
        | inl full ↦ (_, create_full f db v id b nb absent full, inr (inr (inr refl)), v)
        | inr room ↦
            let (slot, at) =
              get_elem?_total db.accounts db.account_count
                (omega (arith, leb-lt max_accounts db.account_count room, v.size)) in
            (
              _,
              create_room f db v id b slot nb absent room at,
              inl refl,
              created-IsValid f db v id b slot nb room at,
            )
      ]
    ]
  ]

  -- On a well-formed table every creation, deposit, withdrawal and query, whatever its id and
  -- its amount, ends without a fault or a deadlock, returns 0, -1, -2 or -3, and leaves a
  -- well-formed table: every lock free, every id terminated and no balance below zero.
  pub call-Settles :
      (db : AccountDb F) (op : Op F) → IsOrdered f → IsValid f db → Settles (call f op db)
  unfolding call
  call-Settles db (create id b) ord v = create-Settles db id b v
  call-Settles db (deposit id x) ord v =
      Implements-Settles (deposit id x) (view db) _ (call-Implements f db (deposit id x) ord v tt)
  call-Settles db (withdraw id x) ord v =
      Implements-Settles (withdraw id x) (view db) _ (call-Implements f db (withdraw id x) ord v tt)
  call-Settles db (query id) ord v =
      Implements-Settles (query id) (view db) _ (call-Implements f db (query id) ord v tt)
