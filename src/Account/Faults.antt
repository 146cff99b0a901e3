-- ===== src/Account/Faults.antt =====
-- Inputs on which the table does not do what it is meant to: a deposit of NaN, and an id with no
-- NUL in its 20 bytes.
use ntut_network_and_system.Base.{
  ℕ, ◌+◌, ◌<◌, ◌≡◌, refl, ◌∙◌, inl, inr, false, Option-cases, none, some, List, arith, lt-leb, ap,
  get_elem?_total, done,
}
use ntut_network_and_system.Base.Int.{pos}
use ntut_network_and_system.CString.{str_eq-terminated, c_str-str_eq, terminated}
use ntut_network_and_system.Float.{FloatOps, IsOrdered, IsNan}
use ntut_network_and_system.Account.{
  AccountDb, Outcome, account_find, account_create, account_deposit, account_withdraw, max_accounts,
}
use ntut_network_and_system.Account.Find.{account_find-matches}
use ntut_network_and_system.Account.Invariant.{IsValid}
use ntut_network_and_system.Account.View.{balance_of, balance_of-none, balance_of-terminated}
use ntut_network_and_system.Account.Closed.{create_room, created-IsValid}
use ntut_network_and_system.Account.Ledger.{
  credit, deposit, withdraw, view, post-deposit, post-withdraw, call,
}
use ntut_network_and_system.Account.Refine.{call-Implements}

module _ {F : Type 0} (f : FloatOps F) (ord : IsOrdered f) (db : AccountDb F) (v : IsValid f db)
    (id : List ℕ) where
  -- A deposit that is accepted, and the balance after it.
  deposit_accepted :
      (x b : F)
      → f.le x f.zero_f ≡ false
      → balance_of db id ≡ some b
      → (o : Outcome F) × (account_deposit f db id x ≡ done o)
        × (o.code ≡ pos 0)
        × IsValid f o.db
        × (balance_of o.db id ≡ some (f.add b x))
  unfolding call credit
  deposit_accepted x b h have =
      let t = balance_of-terminated db id have in
      let (o, run, code, written, v', same) = call-Implements f db (deposit id x) ord v tt in
      let p = post-deposit f (view db) id x b h have in
      (
        o,
        run,
        code ∙ ap (λ e. e.code) p,
        v',
        ap (λ l. l.funds id) (same ∙ ap (λ e. e.ledger) p) ∙ rw (c_str-str_eq id id t t refl) refl,
      )

  withdraw_accepted :
      (x b : F)
      → f.le x f.zero_f ≡ false
      → balance_of db id ≡ some b
      → f.lt b x ≡ false
      → (o : Outcome F) × (account_withdraw f db id x ≡ done o)
        × (o.code ≡ pos 0)
        × (o.written ≡ some (f.sub b x))
  unfolding call
  withdraw_accepted x b h have covered =
      let (o, run, code, written, v', same) = call-Implements f db (withdraw id x) ord v tt in
      let p = post-withdraw f (view db) id x b h have covered in
      (o, run, code ∙ ap (λ e. e.code) p, written ∙ ap (λ e. e.reported) p)

-- On a well-formed table in which the account has a balance, a deposit of NaN is accepted, and
-- after it a withdrawal of any positive amount succeeds and reports NaN.
pub nan_deposit_lifts_limit :
    {F : Type 0} (f : FloatOps F) (db : AccountDb F) (id : List ℕ) (x b : F)
    → IsOrdered f
    → IsValid f db
    → IsNan f x
    → balance_of db id ≡ some b
    → (y : F) → f.le y f.zero_f ≡ false
    → (o o' : Outcome F) × (account_deposit f db id x ≡ done o)
      × (o.code ≡ pos 0)
      × (account_withdraw f o.db id y ≡ done o')
      × (o'.code ≡ pos 0)
      × (o'.written ≡ some x)
nan_deposit_lifts_limit f db id x b ord v nan have y pos_y =
    let (o, run, code, v', have') = deposit_accepted f ord db v id x b (nan.not_le f.zero_f) have in
    let (o', run', code', written') =
      withdraw_accepted f ord o.db v' id y x pos_y (have' ∙ ap some (nan.add_nan b))
        (nan.not_lt y) in
    (o, o', run, code, run', code', written' ∙ ap some (nan.sub_nan y))

module _ {F : Type 0} (f : FloatOps F) where
  -- No search finds an id with no NUL.
  account_find-unterminated :
      (db : AccountDb F) (id : List ℕ) → terminated id ≡ false → account_find db id ≡ none
  account_find-unterminated db id h = elim (Option-cases (account_find db id)) [
    | inl absent ↦ absent
    | inr (i, found) ↦
        let (a, lt, at, m) = account_find-matches db id found in
        absurd (ground (arith, str_eq-terminated a.account_id id))
  ]

  create_unterminated :
      (db : AccountDb F) (id : List ℕ) (b : F)
      → IsValid f db
      → terminated id ≡ false
      → f.lt b f.zero_f ≡ false
      → db.account_count < max_accounts
      → (o : Outcome F) × (account_create f db id b ≡ done o)
        × (o.code ≡ pos 0)
        × IsValid f o.db
        × (o.db.account_count ≡ db.account_count + 1)
  create_unterminated db id b v t nb room =
      let absent = account_find-unterminated db id t in
      let full = lt-leb db.account_count max_accounts room in
      let (slot, at) = get_elem?_total db.accounts db.account_count (omega (arith, v.size)) in
      (
        _,
        create_room f db v id b slot nb absent full at,
        refl,
        created-IsValid f db v id b slot nb full at,
        refl,
      )

  -- On a well-formed table with room for two accounts, an id with no NUL is accepted twice, with
  -- a balance that is not below zero, and after the first creation no account is found under it.
  pub create_unterminated_twice :
      (db : AccountDb F) (id : List ℕ) (b : F)
      → IsValid f db
      → terminated id ≡ false
      → f.lt b f.zero_f ≡ false
      → db.account_count + 1 < max_accounts
      → (o o' : Outcome F) × (account_create f db id b ≡ done o)
        × (o.code ≡ pos 0)
        × (balance_of o.db id ≡ none)
        × (account_create f o.db id b ≡ done o')
        × (o'.code ≡ pos 0)
        × (o'.db.account_count ≡ db.account_count + 2)
  create_unterminated_twice db id b v t nb room =
      let (o, run, code, v', count) = create_unterminated db id b v t nb (omega arith) in
      let (o', run', code', w, count') =
        create_unterminated o.db id b v' t nb (omega (arith, count)) in
      (
        o,
        o',
        run,
        code,
        balance_of-none o.db id (account_find-unterminated o.db id t),
        run',
        code',
        omega (arith, count, count'),
      )
