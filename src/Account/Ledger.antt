-- ===== src/Account/Ledger.antt =====
-- The contract of the account table, with no array and no lock: a ledger gives each id a
-- balance or none, and knows how many accounts it has opened.
use ntut_network_and_system.Base.{
  false, ℕ, ◌+◌, ◌≤◌, ◌≡◌, true, Option, none, some, List, [], ◌∷◌, if◌then◌else◌, leb, length, Run,
  done, ◌>>=◌,
}
use ntut_network_and_system.Base.Int.{ℤ, pos, neg}
use ntut_network_and_system.CString.{str_eq, terminated, c_str}
use ntut_network_and_system.Float.{FloatOps}
use ntut_network_and_system.Account.{
  AccountDb, Outcome, max_accounts, account_create, account_deposit, account_withdraw,
  account_get_balance,
}
use ntut_network_and_system.Account.View.{balance_of}

pub record Ledger (F : Type 0) : Type 0 where
  pub opened : ℕ
  pub funds : List ℕ → Option F

-- A status code, the balance that is reported, and the ledger afterwards.
pub record Entry (F : Type 0) : Type 0 where
  pub code : ℤ
  pub reported : Option F
  pub ledger : Ledger F

-- A call of one of the operations on the table.
pub data Op (F : Type 0) : Type 0 where
  create : List ℕ → F → Op F
  deposit : List ℕ → F → Op F
  withdraw : List ℕ → F → Op F
  query : List ℕ → Op F

module _ {F : Type 0} where
  -- The ledger in which the account `id` has the balance `b`.
  unfoldable pub credit : Ledger F → List ℕ → F → Ledger F
  credit l id b = record l { funds = λ other. if str_eq id other then some b else l.funds other }

  -- The ledger that a table stands for.
  abbrev pub view : AccountDb F → Ledger F
  view db = record { opened = db.account_count; funds = balance_of db }

  -- The id of a new account is a C string of at most 19 characters; the other operations take
  -- any id.
  abbrev pub Fits : Op F → Type 0
  Fits (create id b) = (terminated id ≡ true) × (length (c_str id) ≤ 19)
  Fits (deposit id x) = Unit
  Fits (withdraw id x) = Unit
  Fits (query id) = Unit

module _ {F : Type 0} (f : FloatOps F) where
  unfoldable pub post : Op F → Ledger F → Entry F
  post (create id b) l =
      if f.lt b f.zero_f
      then record { code = neg 1; reported = none; ledger = l }
      else elim (l.funds id) [
        | some old ↦ record { code = neg 2; reported = none; ledger = l }
        | none ↦
            if leb max_accounts l.opened
            then record { code = neg 3; reported = none; ledger = l }
            else record {
              code = pos 0;
              reported = none;
              ledger = record (credit l id b) { opened = l.opened + 1 };
            }
      ]
  post (deposit id x) l =
      if f.le x f.zero_f
      then record { code = neg 1; reported = none; ledger = l }
      else elim (l.funds id) [
        | none ↦ record { code = neg 2; reported = none; ledger = l }
        | some b ↦ record {
          code = pos 0;
          reported = some (f.add b x);
          ledger = credit l id (f.add b x);
        }
      ]
  post (withdraw id x) l =
      if f.le x f.zero_f
      then record { code = neg 1; reported = none; ledger = l }
      else elim (l.funds id) [
        | none ↦ record { code = neg 2; reported = none; ledger = l }
        | some b ↦
            if f.lt b x then record { code = neg 3; reported = none; ledger = l } else record {
              code = pos 0;
              reported = some (f.sub b x);
              ledger = credit l id (f.sub b x);
            }
      ]
  post (query id) l = elim (l.funds id) [
    | none ↦ record { code = neg 2; reported = none; ledger = l }
    | some b ↦ record { code = pos 0; reported = some b; ledger = l }
  ]

  -- The same call on the table.
  unfoldable pub call : Op F → AccountDb F → Run (Outcome F)
  call (create id b) db = account_create f db id b
  call (deposit id x) db = account_deposit f db id x
  call (withdraw id x) db = account_withdraw f db id x
  call (query id) db = account_get_balance db id

  -- A sequence of calls, with what they answer.
  unfoldable pub calls : List (Op F) → AccountDb F → Run (List (ℤ × Option F) × AccountDb F)
  calls [] db = done ([], db)
  calls (op ∷ ops) db = do
    o ← call op db
    (rest, db') ← calls ops o.db
    done ((o.code, o.written) ∷ rest, db')

  unfoldable pub posts : List (Op F) → Ledger F → List (ℤ × Option F) × Ledger F
  posts [] l = ([], l)
  posts (op ∷ ops) l =
      let e = post op l in let (rest, l') = posts ops e.ledger in ((e.code, e.reported) ∷ rest, l')

  -- The accepted postings.
  pub post-deposit :
      (l : Ledger F) (id : List ℕ) (x b : F)
      → f.le x f.zero_f ≡ false
      → l.funds id ≡ some b
      → post (deposit id x) l
        ≡ record { code = pos 0; reported = some (f.add b x); ledger = credit l id (f.add b x) }
  unfolding post
  post-deposit l id x b h k = rw (h, k)

  pub post-withdraw :
      (l : Ledger F) (id : List ℕ) (x b : F)
      → f.le x f.zero_f ≡ false
      → l.funds id ≡ some b
      → f.lt b x ≡ false
      → post (withdraw id x) l
        ≡ record { code = pos 0; reported = some (f.sub b x); ledger = credit l id (f.sub b x) }
  unfolding post
  post-withdraw l id x b h k c = rw (h, k, c)
