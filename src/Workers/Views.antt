-- ===== src/Workers/Views.antt =====
-- What the contract sees of a worker, and of a table that a step has changed.
use ntut_network_and_system.Base.{
  ℕ, ◌≡◌, refl, inl, inr, none, some, List, get_elem?, get_elem?-set, get_elem?-lt, arith,
  Option-cases,
}
use mathlib.Core.Path.{fun_ext}
use ntut_network_and_system.Account.{Account, AccountDb, account_find, find_from, put_account}
use ntut_network_and_system.Account.Find.{find_from-set}
use ntut_network_and_system.Account.View.{balance_of, balance_of-put_account}
use ntut_network_and_system.Account.Ledger.{create, credit, view}
use ntut_network_and_system.Workers.{
  Pc, idle, begun, searching, creating, returning, locking, locked, reading, writing, leaving,
  finished, op_of,
}
use ntut_network_and_system.Workers.Atomic.{Progress, no_call, pending, answered}

module _ {F : Type 0} where
  abbrev pub progress : Pc F → Progress F
  progress idle = no_call
  progress (begun op) = pending op
  progress (searching op) = pending op
  progress (creating id b) = pending (create id b)
  progress (returning c) = answered c none
  progress (locking id act k) = pending (op_of id act)
  progress (locked id act k) = pending (op_of id act)
  progress (reading id act k) = pending (op_of id act)
  progress (writing id act k b) = pending (op_of id act)
  progress (leaving k c r) = answered c r
  progress (finished c r) = answered c r

  pub view-table :
      (db db' : AccountDb F)
      → db'.accounts ≡ db.accounts
      → db'.account_count ≡ db.account_count
      → view db' ≡ view db
  unfolding balance_of account_find
  view-table db db' same count = λ i. record {
    opened = count i;
    funds = fun_ext {f = balance_of db'} {g = balance_of db} (λ other. rw (same, count) refl) i;
  }

  -- A write that changes a lock alone.
  pub balance_of-lock :
      (db : AccountDb F) (n : ℕ) (a b : Account F)
      → get_elem? db.accounts n ≡ some a
      → b.account_id ≡ a.account_id
      → b.active ≡ a.active
      → b.balance ≡ a.balance
      → (other : List ℕ) → balance_of (put_account db n b) other ≡ balance_of db other
  unfolding balance_of account_find put_account
  balance_of-lock db n a b at same act bal other =
      let kept =
        find_from-set other db.account_count 0 db.accounts n a b at (rw (act, same) refl) in
      elim (Option-cases (find_from other db.account_count 0 db.accounts)) [
        | inl e ↦ ground (arith, kept)
        | inr (k, e) ↦
            ground (arith, kept, get_elem?-set db.accounts n k b (get_elem?-lt db.accounts n at))
      ]

  pub view-lock :
      (db : AccountDb F) (n : ℕ) (a b : Account F)
      → get_elem? db.accounts n ≡ some a
      → b.account_id ≡ a.account_id
      → b.active ≡ a.active
      → b.balance ≡ a.balance
      → view (put_account db n b) ≡ view db
  unfolding put_account
  view-lock db n a b at same act bal = λ i. record {
    opened = db.account_count;
    funds = fun_ext (balance_of-lock db n a b at same act bal) i;
  }

  pub view-credit :
      (db : AccountDb F) (id : List ℕ) (k : ℕ) (a : Account F) (b : F)
      → account_find db id ≡ some k
      → get_elem? db.accounts k ≡ some a
      → view (put_account db k (record a { balance = b })) ≡ credit (view db) id b
  unfolding put_account credit
  view-credit db id k a b found at = λ i. record {
    opened = db.account_count;
    funds =
        fun_ext (balance_of-put_account db id k a (record a { balance = b }) found at refl refl) i;
  }
