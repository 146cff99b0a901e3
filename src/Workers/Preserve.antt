-- ===== src/Workers/Preserve.antt =====
-- Every step of every worker preserves the invariant, and no step is a fault.
use ntut_network_and_system.Base.{
  some_eq, ℕ, ◌≤◌, ◌≡◌, refl, sym, ◌∙◌, ap, inl, inr, Bool, true, false, ◌==◌, ==_iff, some, List,
  get_elem?, length, length-set, leb-lt, arith, Bool-cases,
}
use mathlib.Core.Path.{subst}
use ntut_network_and_system.Float.{FloatOps, IsOrdered}
use ntut_network_and_system.Account.{
  free, Account, AccountDb, max_accounts, put_account, new_account,
}
use ntut_network_and_system.Account.Invariant.{IsValid, new_account-IsEntry}
use ntut_network_and_system.Account.Ledger.{Op, Fits}
use ntut_network_and_system.Workers.{
  Action, add, take, look, Pc, idle, begun, finished, improper, op_of, System, Step, calls, moves,
  Reach, start, later, update, ready,
}
use ntut_network_and_system.Workers.Guards.{Guards-keep, Guards-unique}
use ntut_network_and_system.Workers.Invariant.{
  holds_table, holds_account, IsCell, Fresh, stored, Inv, update_keeps,
}
use ntut_network_and_system.Workers.Locking.{written, Move-table, Move-Each}
use ntut_network_and_system.Workers.Locals.{Move-Keeps, Keeps-Fresh, Move-Fresh}
use ntut_network_and_system.Workers.Moves.{
  Move, refuse, lock_table, miss, hit, append, give_back, lock_one, let_go, load, store, unlock_one,
  advance-Move,
}

-- A worker between two calls holds nothing.
module _ {F : Type 0} where
  pub ready-table : (p : Pc F) → ready p ≡ true → holds_table p ≡ false
  ready-table idle h = refl
  ready-table (finished c r) h = refl
  ready-table p h = ground arith

  pub ready-account : (k : ℕ) (p : Pc F) → ready p ≡ true → holds_account k p ≡ false
  ready-account k idle h = refl
  ready-account k (finished c r) h = refl
  ready-account k p h = ground arith

module _ {F : Type 0} (f : FloatOps F) (ord : IsOrdered f) where
  stored-not_below :
      (id : List ℕ) (act : Action F) (a b : F)
      → improper f (op_of id act) ≡ false
      → f.lt a f.zero_f ≡ false
      → stored f act a ≡ some b
      → f.lt b f.zero_f ≡ false
  stored-not_below id (add x) a b good h st =
      subst (λ y. f.lt y f.zero_f ≡ false) (some_eq st) (ord.add_not_below a x h good)
  stored-not_below id (take x) a b good h st = elim (Bool-cases (f.lt a x)) [
    | inl short ↦ cc
    | inr covered ↦
        subst (λ y. f.lt y f.zero_f ≡ false) (some_eq (rw covered at st))
          (ord.sub_not_below a x covered)
  ]
  stored-not_below id look a b good h st = cc

  abbrev Cells : AccountDb F → Type 0
  Cells t = (k : ℕ) (a : Account F) → get_elem? t.accounts k ≡ some a → IsCell f a

  new_account-IsCell :
      (id : List ℕ) (b : F) (slot : Account F)
      → f.lt b f.zero_f ≡ false
      → IsCell f (new_account f id b slot)
  new_account-IsCell id b slot nb =
      let e = new_account-IsEntry f id b (record slot { lock = free }) refl nb in
      record { id_length = e.id_length; id_terminated = e.id_terminated; not_below = e.not_below }

  module _ {db : AccountDb F} where
    Move-Cells :
        {db' : AccountDb F} {p q : Pc F} → Move f db p db' q → Fresh f db p → Cells db → Cells db'
    unfolding put_account
    Move-Cells (refuse bad) fresh c = c
    Move-Cells (lock_table good m) fresh c = c
    Move-Cells (miss h) fresh c = c
    Move-Cells (hit h) fresh c = c
    Move-Cells (append {id} {b} {slot} was) fresh c = λ k a at.
        written db.accounts db.account_count k (IsCell f) was at
          (λ is. new_account-IsCell id b slot fresh.1) (λ ne there. c k a there)
    Move-Cells (give_back m) fresh c = c
    Move-Cells (lock_one {k = n} {a = old} was m) fresh c = λ k a at.
        let o = c n old was in
        written db.accounts n k (IsCell f) was at
          (λ is. record {
            id_length = o.id_length;
            id_terminated = o.id_terminated;
            not_below = o.not_below;
          })
          (λ ne there. c k a there)
    Move-Cells (let_go m) fresh c = c
    Move-Cells (load at) fresh c = c
    Move-Cells (store {id} {act} {k = n} {b} {a = old} was) (good, found, x, at', st) c = λ k a at.
        let o = c n old was in
        let e : x.balance ≡ old.balance = ap (λ y. y.balance) (some_eq (sym at' ∙ was)) in
        written db.accounts n k (IsCell f) was at
          (λ is. record {
            id_length = o.id_length;
            id_terminated = o.id_terminated;
            not_below = stored-not_below id act old.balance b good o.not_below (rw e at st);
          })
          (λ ne there. c k a there)
    Move-Cells (unlock_one {k = n} {a = old} was m) fresh c = λ k a at.
        let o = c n old was in
        written db.accounts n k (IsCell f) was at
          (λ is. record {
            id_length = o.id_length;
            id_terminated = o.id_terminated;
            not_below = o.not_below;
          })
          (λ ne there. c k a there)

    Move-size :
        {db' : AccountDb F} {p q : Pc F}
        → Move f db p db' q
        → length db'.accounts ≡ length db.accounts
    unfolding put_account
    Move-size (refuse bad) = refl
    Move-size (lock_table good m) = refl
    Move-size (miss h) = refl
    Move-size (hit h) = refl
    Move-size (append at) = length-set db.accounts db.account_count _
    Move-size (give_back m) = refl
    Move-size (lock_one {k} at m) = length-set db.accounts k _
    Move-size (let_go m) = refl
    Move-size (load at) = refl
    Move-size (store {k} at) = length-set db.accounts k _
    Move-size (unlock_one {k} at m) = length-set db.accounts k _

    Move-count :
        {db' : AccountDb F} {p q : Pc F}
        → Move f db p db' q
        → Fresh f db p
        → db.account_count ≤ max_accounts
        → db'.account_count ≤ max_accounts
    unfolding put_account
    Move-count (refuse bad) fresh h = h
    Move-count (lock_table good m) fresh h = h
    Move-count (miss e) fresh h = h
    Move-count (hit e) fresh h = h
    Move-count (append at) fresh h = omega (arith, leb-lt max_accounts db.account_count fresh.3)
    Move-count (give_back m) fresh h = h
    Move-count (lock_one at m) fresh h = h
    Move-count (let_go m) fresh h = h
    Move-count (load at) fresh h = h
    Move-count (store at) fresh h = h
    Move-count (unlock_one at m) fresh h = h

  -- Worker `i` moves.
  Move-Inv :
      (s : System F) (i : ℕ) {db' : AccountDb F} {q : Pc F}
      → Move f s.db (s.pc i) db' q
      → Inv f s
      → Inv f (record { db = db'; pc = update s.pc i q })
  Move-Inv s i {db'} {q} mv v = record {
    size = Move-size mv ∙ v.size;
    count_le = Move-count mv (v.fresh i) v.count_le;
    table = Move-table f s.pc i mv refl v.table;
    each = Move-Each f s.pc i mv refl v.each;
    cells = Move-Cells mv (v.fresh i) v.cells;
    fresh = λ j. elim (Bool-cases (j == i)) [
      | inl is ↦ rw is (Move-Fresh f s.db mv (v.fresh i))
      | inr not_i ↦ rw not_i (
          Keeps-Fresh f (s.pc i) (s.pc j) (Move-Keeps f s.db mv)
            (λ h.
              apart j not_i holds_table
                (λ k. Guards-unique s.db.db_lock (λ n. holds_table (s.pc n)) i j v.table k h))
            (λ k a at h.
              apart j not_i (holds_account k)
                (λ g. Guards-unique a.lock (λ n. holds_account k (s.pc n)) i j (v.each k a at) g h))
            (v.fresh j))
    ];
  }
    where
      apart :
          (j : ℕ)
          → (j == i) ≡ false
          → (holds : Pc F → Bool) → (holds (s.pc i) ≡ true → i ≡ j)
          → holds (s.pc i) ≡ false
      apart j ne holds same = elim (Bool-cases (holds (s.pc i))) [
        | inl h ↦ cc (sym ne ∙ (==_iff j i).1 (sym (same h)))
        | inr h ↦ h
      ]

  -- Worker `i` begins a call.
  call-Inv :
      (s : System F) (i : ℕ) (op : Op F)
      → ready (s.pc i) ≡ true
      → Fits op
      → Inv f s
      → Inv f (record s { pc = update s.pc i (begun op) })
  call-Inv s i op free_now fits v = record {
    size = v.size;
    count_le = v.count_le;
    table =
        Guards-keep s.db.db_lock _ _
          (update_keeps s.pc i (begun op) holds_table refl (sym (ready-table (s.pc i) free_now)))
          v.table;
    each = λ k a at.
        Guards-keep a.lock _ _
          (update_keeps s.pc i (begun op) (holds_account k) refl
            (sym (ready-account k (s.pc i) free_now)))
          (v.each k a at);
    cells = v.cells;
    fresh =
        λ j. elim (Bool-cases (j == i)) [ inl is ↦ rw is fits | inr not_i ↦ rw not_i (v.fresh j) ];
  }

  pub step-Inv : {s t : System F} → Step f s t → Inv f s → Inv f t
  step-Inv {s} (calls i op free_now fits) v = call-Inv s i op free_now fits v
  step-Inv {s} (moves i {db} {p} busy h) v =
      Move-Inv s i (advance-Move f s.db (s.pc i) (db, p) busy h) v

  start-Inv : (db : AccountDb F) → IsValid f db → Inv f (record { db = db; pc = λ i. idle })
  start-Inv db v = record {
    size = v.size;
    count_le = v.count_le;
    table = rw v.db_free (λ i. refl);
    each = λ k a at. rw (v.entries k a at).lock_free (λ i. refl);
    cells = λ k a at.
        let e = v.entries k a at in
        record {
          id_length = e.id_length;
          id_terminated = e.id_terminated;
          not_below = e.not_below;
        };
    fresh = λ i. tt;
  }

  pub Reach-Inv : {db : AccountDb F} {s : System F} → IsValid f db → Reach f db s → Inv f s
  Reach-Inv {db} v start = start-Inv db v
  Reach-Inv v (later r st) = step-Inv st (Reach-Inv v r)
