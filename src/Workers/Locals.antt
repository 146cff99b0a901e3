-- ===== src/Workers/Locals.antt =====
-- What the locals of the workers say about the table stays true, whichever worker moves.
use ntut_network_and_system.Base.{
  some_eq, ℕ, ◌≤◌, ◌<◌, ◌≡◌, refl, sym, ◌∙◌, ap, inl, inr, true, false, ◌==◌, ==_iff, none, some,
  List, get_elem?, set, get_elem?-set, get_elem?-set_ne, get_elem?-lt, leb, arith, Bool-cases,
}
use mathlib.Core.Path.{subst}
use ntut_network_and_system.Float.{FloatOps}
use ntut_network_and_system.Account.{
  Account, AccountDb, account_find, find_from, max_accounts, put_account, new_account,
}
use ntut_network_and_system.Account.Find.{find_from-set, find_from-set_end, account_find-matches}
use ntut_network_and_system.Account.Ledger.{Op, create, deposit, withdraw, query}
use ntut_network_and_system.Workers.{
  absent, present, account_of, loaded, Action, add, take, look, Pc, idle, begun, searching,
  creating, returning, locking, locked, reading, writing, leaving, finished,
}
use ntut_network_and_system.Workers.Invariant.{holds_table, holds_account, Found, Fresh}
use ntut_network_and_system.Workers.Moves.{
  Move, refuse, lock_table, miss, hit, append, give_back, lock_one, let_go, load, store, unlock_one,
  appended,
}

-- What the table keeps when a worker moves from `p`.
pub record Keeps {F : Type 0} (db db' : AccountDb F) (p : Pc F) : Type 0 where
  pub finds : (id : List ℕ) (k : ℕ) → account_find db id ≡ some k → account_find db' id ≡ some k
  pub grows : db.account_count ≤ db'.account_count
  pub quiet_finds : holds_table p ≡ false → (id : List ℕ) → account_find db' id ≡ account_find db id
  pub quiet_count : holds_table p ≡ false → db'.account_count ≡ db.account_count
  pub balances :
      (k : ℕ) (a : Account F)
      → k < db.account_count
      → get_elem? db.accounts k ≡ some a
      → holds_account k p ≡ false
      → (a' : Account F) × (get_elem? db'.accounts k ≡ some a') × (a'.balance ≡ a.balance)

module _ {F : Type 0} where
  Keeps-same : (db : AccountDb F) (p : Pc F) → Keeps db db p
  Keeps-same db p = record {
    finds = λ id k h. h;
    grows = omega arith;
    quiet_finds = λ q id. refl;
    quiet_count = λ q. refl;
    balances = λ k a lt at q. (a, at, refl);
  }

  Keeps-table :
      (db db' : AccountDb F) (p : Pc F)
      → db'.accounts ≡ db.accounts
      → db'.account_count ≡ db.account_count
      → Keeps db db' p
  unfolding account_find
  Keeps-table db db' p same count = record {
    finds = λ id k h. rw (same, count) h;
    grows = omega arith;
    quiet_finds = λ q id. rw (same, count) refl;
    quiet_count = λ q. count;
    balances = λ k a lt at q. (a, rw same at, refl);
  }

  -- An entry is written, and its id and its flag stay.
  Keeps-put :
      (db : AccountDb F) (p : Pc F) (n : ℕ) (a b : Account F)
      → get_elem? db.accounts n ≡ some a
      → b.account_id ≡ a.account_id
      → b.active ≡ a.active
      → (holds_account n p ≡ false → b.balance ≡ a.balance)
      → Keeps db (put_account db n b) p
  unfolding account_find put_account
  Keeps-put db p n a b at same act kept = record {
    finds = λ id k h. found id ∙ h;
    grows = omega arith;
    quiet_finds = λ q id. found id;
    quiet_count = λ q. refl;
    balances = λ k x lt there q. elim (Bool-cases (n == k)) [
      | inl is ↦
          let e = (==_iff n k).0 is in
          (
            b,
            ground (arith, get_elem?-set db.accounts n k b (get_elem?-lt db.accounts n at)),
            kept (subst (λ j. holds_account j p ≡ false) (sym e) q)
                ∙ ap (λ y. y.balance)
                    (some_eq
                      (sym at ∙ subst (λ j. get_elem? db.accounts j ≡ some x) (sym e) there)),
          )
      | inr not_k ↦
          (x, ground (arith, get_elem?-set db.accounts n k b (get_elem?-lt db.accounts n at)), refl)
    ];
  }
    where
      found :
          (id : List ℕ)
          → find_from id db.account_count 0 (set db.accounts n b)
            ≡ find_from id db.account_count 0 db.accounts
      found id = find_from-set id db.account_count 0 db.accounts n a b at (rw (same, act) refl)

  Keeps-append :
      (f : FloatOps F) (db : AccountDb F) (id : List ℕ) (b : F) (slot : Account F)
      → get_elem? db.accounts db.account_count ≡ some slot
      → Keeps db (appended f db id b slot) (creating id b)
  unfolding account_find put_account
  Keeps-append f db id b slot at =
      let x = new_account f id b slot in
      record {
        finds = λ other k h. ground (
          arith,
          find_from-set_end other db.account_count 0 db.accounts x
              (get_elem?-lt db.accounts db.account_count at),
        );
        grows = omega arith;
        quiet_finds = λ q. cc;
        quiet_count = λ q. cc;
        balances = λ k a lt there q.
            (a, get_elem?-set_ne db.accounts db.account_count k x (λ e. omega arith) ∙ there, refl);
      }

  pub Move-Keeps :
      (f : FloatOps F) (db : AccountDb F) {db' : AccountDb F} {p q : Pc F}
      → Move f db p db' q
      → Keeps db db' p
  Move-Keeps f db {p} (refuse bad) = Keeps-same db p
  Move-Keeps f db {p} (lock_table good m) = Keeps-table db _ p refl refl
  Move-Keeps f db {p} (miss h) = Keeps-same db p
  Move-Keeps f db {p} (hit h) = Keeps-same db p
  Move-Keeps f db (append {id} {b} {slot} at) = Keeps-append f db id b slot at
  Move-Keeps f db {p} (give_back m) = Keeps-table db _ p refl refl
  Move-Keeps f db {p} (lock_one {k} {a} at m) = Keeps-put db p k a _ at refl refl (λ h. refl)
  Move-Keeps f db {p} (let_go m) = Keeps-table db _ p refl refl
  Move-Keeps f db {p} (load at) = Keeps-same db p
  Move-Keeps f db {p} (store {k} {a} at) =
      Keeps-put db p k a _ at refl refl (λ h. cc ((==_iff k k).1 refl))
  Move-Keeps f db {p} (unlock_one {k} {a} at m) = Keeps-put db p k a _ at refl refl (λ h. refl)

module _ {F : Type 0} (f : FloatOps F) {db db' : AccountDb F} where
  -- For the other workers, which hold no mutex that the mover holds.
  pub Keeps-Fresh :
      (p q : Pc F)
      → Keeps db db' p
      → (holds_table q ≡ true → holds_table p ≡ false)
      → ((k : ℕ) (a : Account F)
          → get_elem? db.accounts k ≡ some a
          → holds_account k q ≡ true
          → holds_account k p ≡ false)
      → Fresh f db q
      → Fresh f db' q
  Keeps-Fresh p idle keep t e h = h
  Keeps-Fresh p (begun op) keep t e h = h
  Keeps-Fresh p (searching op) keep t e h = h
  Keeps-Fresh p (creating id b) keep t e (fits, good, none_found, room) =
      (fits, good, keep.quiet_finds (t refl) id ∙ none_found, rw (keep.quiet_count (t refl)) room)
  Keeps-Fresh p (returning c) keep t e h = h
  Keeps-Fresh p (locking id act k) keep t e (good, found) = (good, keep.finds id k found)
  Keeps-Fresh p (locked id act k) keep t e (good, found) = (good, keep.finds id k found)
  Keeps-Fresh p (reading id act k) keep t e (good, found) = (good, keep.finds id k found)
  Keeps-Fresh p (writing id act k b) keep t e (good, found, a, at, st) =
      let (x, lt, there, m) = account_find-matches db id found in
      let (a', at', same) = keep.balances k a lt at (e k a at ((==_iff k k).1 refl)) in
      (good, keep.finds id k found, a', at', rw same st)
  Keeps-Fresh p (leaving k c r) keep t e h = omega (arith, keep.grows)
  Keeps-Fresh p (finished c r) keep t e h = h

module _ {F : Type 0} (f : FloatOps F) (db : AccountDb F) where
  absent-Fresh :
      (op : Op F)
      → Fresh f db (searching op)
      → account_find db (account_of op) ≡ none
      → Fresh f db (absent db op)
  absent-Fresh (create id b) (fits, good) h =
      elim (Bool-cases (leb max_accounts db.account_count)) [
        | inl full ↦ rw full tt
        | inr room ↦ rw room (fits, good, h, room)
      ]
  absent-Fresh (deposit id x) fresh h = tt
  absent-Fresh (withdraw id x) fresh h = tt
  absent-Fresh (query id) fresh h = tt

  present-Fresh :
      (op : Op F) (k : ℕ)
      → Fresh f db (searching op)
      → account_find db (account_of op) ≡ some k
      → Fresh f db (present op k)
  present-Fresh (create id b) k fresh h = tt
  present-Fresh (deposit id x) k (fits, good) h = (good, h)
  present-Fresh (withdraw id x) k (fits, good) h = (good, h)
  present-Fresh (query id) k (fits, good) h = (good, h)

  below : (id : List ℕ) (k : ℕ) → account_find db id ≡ some k → k < db.account_count
  below id k h = let (a, lt, at, m) = account_find-matches db id h in lt

  loaded-Fresh :
      (id : List ℕ) (act : Action F) (k : ℕ) (a : Account F)
      → Found f db id act k
      → get_elem? db.accounts k ≡ some a
      → Fresh f db (loaded f id act k a.balance)
  loaded-Fresh id (add x) k a (good, found) at = (good, found, a, at, refl)
  loaded-Fresh id (take x) k a (good, found) at = elim (Bool-cases (f.lt a.balance x)) [
    | inl short ↦ rw short (below id k found)
    | inr covered ↦ rw covered (good, found, a, at, rw covered refl)
  ]
  loaded-Fresh id look k a (good, found) at = below id k found

  -- For the mover.
  pub Move-Fresh :
      {db' : AccountDb F} {p q : Pc F} → Move f db p db' q → Fresh f db p → Fresh f db' q
  unfolding put_account
  Move-Fresh (refuse bad) fresh = tt
  Move-Fresh (lock_table good m) fresh = (fresh, good)
  Move-Fresh (miss {op} h) fresh = absent-Fresh op fresh h
  Move-Fresh (hit {op} {k} h) fresh = present-Fresh op k fresh h
  Move-Fresh (append at) fresh = tt
  Move-Fresh (give_back m) fresh = tt
  Move-Fresh (lock_one {id} {act} {k} at m) (good, found) =
      (good, (Move-Keeps f db (lock_one {id = id} {act = act} at m)).finds id k found)
  Move-Fresh (let_go {id} {act} {k} m) (good, found) =
      (good, (Move-Keeps f db (let_go {id = id} {act = act} {k = k} m)).finds id k found)
  Move-Fresh (load {id} {act} {k} {a} at) fresh = loaded-Fresh id act k a fresh at
  Move-Fresh (store {id} {k} at) fresh = below id k fresh.1
  Move-Fresh (unlock_one at m) fresh = tt
