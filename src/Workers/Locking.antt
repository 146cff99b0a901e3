-- ===== src/Workers/Locking.antt =====
-- Each step keeps every mutex in step with the workers that hold it.
use ntut_network_and_system.Base.{
  List, ℕ, ◌≡◌, refl, sym, ◌∙◌, ap, inl, inr, Bool, true, false, ◌==◌, ==_iff, some, get_elem?, set,
  get_elem?-set, get_elem?-lt, arith, Bool-cases,
}
use mathlib.Core.Path.{subst}
use ntut_network_and_system.Base.Int.{pos}
use ntut_network_and_system.Float.{FloatOps}
use ntut_network_and_system.Account.{Mutex, free, held, Account, AccountDb, put_account}
use ntut_network_and_system.Account.Ledger.{Op, create, deposit, withdraw, query}
use ntut_network_and_system.Workers.{
  Action, add, take, look, Pc, returning, locked, leaving, finished, absent, present, loaded,
  update,
}
use ntut_network_and_system.Workers.Guards.{Guards, Guards-keep, Guards-take, Guards-release}
use ntut_network_and_system.Workers.Invariant.{
  holds_table, holds_account, update-Switches, update_keeps,
}
use ntut_network_and_system.Workers.Moves.{
  Move, refuse, lock_table, miss, hit, append, give_back, lock_one, let_go, load, store, unlock_one,
}

module _ {F : Type 0} (f : FloatOps F) where
  holds_table-absent : (db : AccountDb F) (op : Op F) → holds_table (absent db op) ≡ true
  holds_table-absent db (create id b) = ground arith
  holds_table-absent db (deposit id x) = refl
  holds_table-absent db (withdraw id x) = refl
  holds_table-absent db (query id) = refl

  holds_table-present : (op : Op F) (k : ℕ) → holds_table (present op k) ≡ true
  holds_table-present (create id b) k = refl
  holds_table-present (deposit id x) k = refl
  holds_table-present (withdraw id x) k = refl
  holds_table-present (query id) k = refl

  holds_table-loaded :
      (id : List ℕ) (act : Action F) (k : ℕ) (b : F) → holds_table (loaded f id act k b) ≡ false
  holds_table-loaded id (add x) k b = refl
  holds_table-loaded id (take x) k b = ground arith
  holds_table-loaded id look k b = refl

  holds_account-absent :
      (j : ℕ) (db : AccountDb F) (op : Op F) → holds_account j (absent db op) ≡ false
  holds_account-absent j db (create id b) = ground arith
  holds_account-absent j db (deposit id x) = refl
  holds_account-absent j db (withdraw id x) = refl
  holds_account-absent j db (query id) = refl

  holds_account-present : (j : ℕ) (op : Op F) (k : ℕ) → holds_account j (present op k) ≡ false
  holds_account-present j (create id b) k = refl
  holds_account-present j (deposit id x) k = refl
  holds_account-present j (withdraw id x) k = refl
  holds_account-present j (query id) k = refl

  holds_account-loaded :
      (j : ℕ) (id : List ℕ) (act : Action F) (k : ℕ) (b : F)
      → holds_account j (loaded f id act k b) ≡ (k == j)
  holds_account-loaded j id (add x) k b = refl
  holds_account-loaded j id (take x) k b = ground arith
  holds_account-loaded j id look k b = refl

-- What a step of worker `i` from `p` to `q` does to a mutex that is held at some of the places.
module _ {F : Type 0} (pc : ℕ → Pc F) (i : ℕ) {p q : Pc F} (m : Mutex) (holds : Pc F → Bool)
    (e : pc i ≡ p) where
  keeps : holds q ≡ holds p → Guards m (λ j. holds (pc j)) → Guards m (λ j. holds (update pc i q j))
  keeps h g = Guards-keep m _ _ (update_keeps pc i q holds e h) g

  takes :
      holds q ≡ true
      → m ≡ free
      → Guards m (λ j. holds (pc j))
      → Guards held (λ j. holds (update pc i q j))
  takes h is g =
      Guards-take _ _ i (update-Switches pc i q holds true h)
        (subst (λ x. Guards x (λ j. holds (pc j))) is g)

  releases :
      holds q ≡ false
      → holds p ≡ true
      → m ≡ held
      → Guards m (λ j. holds (pc j))
      → Guards free (λ j. holds (update pc i q j))
  releases h own is g =
      Guards-release _ _ i (update-Switches pc i q holds false h) (ap holds e ∙ own)
        (subst (λ x. Guards x (λ j. holds (pc j))) is g)

module _ {F : Type 0} where
  abbrev pub Each : AccountDb F → (ℕ → Pc F) → Type 0
  Each t places =
      (k : ℕ) (a : Account F)
      → get_elem? t.accounts k ≡ some a
      → Guards a.lock (λ j. holds_account k (places j))

  -- An entry that is written: the one at `n`, or another.
  pub written :
      (xs : List (Account F)) (n k : ℕ) {old new a : Account F} (P : Account F → Type 0)
      → get_elem? xs n ≡ some old
      → get_elem? (set xs n new) k ≡ some a
      → (n ≡ k → P new)
      → ((n == k) ≡ false → get_elem? xs k ≡ some a → P a)
      → P a
  written xs n k {new} {a} P at h here there = elim (Bool-cases (n == k)) [
    | inl is ↦
        subst P (ground (arith, get_elem?-set xs n k new (get_elem?-lt xs n at)))
          (here ((==_iff n k).0 is))
    | inr not_k ↦ there not_k (ground (arith, get_elem?-set xs n k new (get_elem?-lt xs n at)))
  ]

module _ {F : Type 0} (f : FloatOps F) {db : AccountDb F} (pc : ℕ → Pc F) (i : ℕ) where
  -- The table's lock.
  pub Move-table :
      {p q : Pc F} {db' : AccountDb F}
      → Move f db p db' q
      → pc i ≡ p
      → Guards db.db_lock (λ j. holds_table (pc j))
      → Guards db'.db_lock (λ j. holds_table (update pc i q j))
  unfolding put_account
  Move-table (refuse bad) e g = keeps pc i db.db_lock holds_table e refl g
  Move-table (lock_table good m) e g = takes pc i db.db_lock holds_table e refl m g
  Move-table (miss {op} h) e g = keeps pc i db.db_lock holds_table e (holds_table-absent f db op) g
  Move-table (hit {op} {k} h) e g =
      keeps pc i db.db_lock holds_table e (holds_table-present f op k) g
  Move-table (append at) e g = keeps pc i db.db_lock holds_table e refl g
  Move-table (give_back m) e g = releases pc i db.db_lock holds_table e refl refl m g
  Move-table (lock_one at m) e g = keeps pc i db.db_lock holds_table e refl g
  Move-table (let_go m) e g = releases pc i db.db_lock holds_table e refl refl m g
  Move-table (load {id} {act} {k} {a} at) e g =
      keeps pc i db.db_lock holds_table e (holds_table-loaded f id act k a.balance) g
  Move-table (store at) e g = keeps pc i db.db_lock holds_table e refl g
  Move-table (unlock_one at m) e g = keeps pc i db.db_lock holds_table e refl g

  -- The accounts' locks.
  pub Move-Each :
      {p q : Pc F} {db' : AccountDb F}
      → Move f db p db' q
      → pc i ≡ p
      → Each db pc
      → Each db' (update pc i q)
  unfolding put_account
  Move-Each (refuse bad) e g k a at = keeps pc i a.lock (holds_account k) e refl (g k a at)
  Move-Each (lock_table good m) e g k a at = keeps pc i a.lock (holds_account k) e refl (g k a at)
  Move-Each (miss {op} h) e g k a at =
      keeps pc i a.lock (holds_account k) e (holds_account-absent f k db op) (g k a at)
  Move-Each (hit {op} {k = n} h) e g k a at =
      keeps pc i a.lock (holds_account k) e (holds_account-present f k op n) (g k a at)
  Move-Each (append {slot} was) e g k a at =
      written db.accounts db.account_count k
        (λ x. Guards x.lock (λ j. holds_account k (update pc i (returning (pos 0)) j))) was at
        (λ is.
          keeps pc i {q = (returning (pos 0))} slot.lock (holds_account k) e refl
            (g k slot (rw (sym is) was)))
        (λ ne there.
          keeps pc i {q = (returning (pos 0))} a.lock (holds_account k) e refl (g k a there))
  Move-Each (give_back m) e g k a at = keeps pc i a.lock (holds_account k) e refl (g k a at)
  Move-Each (lock_one {id} {act} {k = n} {a = old} was m) e g k a at =
      written db.accounts n k
        (λ x. Guards x.lock (λ j. holds_account k (update pc i (locked id act n) j))) was at
        (λ is.
          takes pc i {q = (locked id act n)} old.lock (holds_account k) e ((==_iff n k).1 is) m
            (g k old (rw (sym is) was)))
        (λ ne there. keeps pc i {q = (locked id act n)} a.lock (holds_account k) e ne (g k a there))
  Move-Each (let_go m) e g k a at = keeps pc i a.lock (holds_account k) e refl (g k a at)
  Move-Each (load {id} {act} {k = n} {a = b} was) e g k a at =
      keeps pc i a.lock (holds_account k) e (holds_account-loaded f k id act n b.balance) (g k a at)
  Move-Each (store {k = n} {b} {a = old} was) e g k a at =
      written db.accounts n k
        (λ x. Guards x.lock (λ j. holds_account k (update pc i (leaving n (pos 0) (some b)) j))) was
        at
        (λ is.
          keeps pc i {q = (leaving n (pos 0) (some b))} old.lock (holds_account k) e refl
            (g k old (rw (sym is) was)))
        (λ ne there.
          keeps pc i {q = (leaving n (pos 0) (some b))} a.lock (holds_account k) e refl
            (g k a there))
  Move-Each (unlock_one {k = n} {c} {r} {a = old} was m) e g k a at =
      written db.accounts n k
        (λ x. Guards x.lock (λ j. holds_account k (update pc i (finished c r) j))) was at
        (λ is.
          releases pc i {q = (finished c r)} old.lock (holds_account k) e refl ((==_iff n k).1 is) m
            (g k old (rw (sym is) was)))
        (λ ne there.
          keeps pc i {q = (finished c r)} a.lock (holds_account k) e (sym ne) (g k a there))
