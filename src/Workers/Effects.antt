-- ===== src/Workers/Effects.antt =====
-- Each step of a worker either changes nothing that the contract speaks of, or is the moment at
-- which its call takes effect.
use ntut_network_and_system.Base.{
  some_eq, ℕ, ◌+◌, ◌≡◌, refl, sym, ◌∙◌, ap, ◌⊎◌, inl, inr, true, false, none, some, List, get_elem?,
  get_elem?-lt, leb, Bool-cases,
}
use mathlib.Core.Path.{fun_ext}
use ntut_network_and_system.Base.Int.{pos, neg}
use ntut_network_and_system.Float.{FloatOps}
use ntut_network_and_system.Account.{Account, AccountDb, account_find, max_accounts, put_account}
use ntut_network_and_system.Account.Find.{account_find-matches}
use ntut_network_and_system.Account.View.{
  balance_of, balance_of-found, balance_of-none, balance_of-new,
}
use ntut_network_and_system.Account.Ledger.{
  Op, create, deposit, withdraw, query, Ledger, credit, view, post,
}
use ntut_network_and_system.Workers.{
  Action, add, take, look, Pc, begun, searching, creating, returning, reading, writing, leaving,
  finished, account_of, absent, present, loaded, improper,
}
use ntut_network_and_system.Workers.Atomic.{pending, answered}
use ntut_network_and_system.Workers.Invariant.{Found, Fresh, stored}
use ntut_network_and_system.Workers.Moves.{
  Move, refuse, lock_table, miss, hit, append, give_back, lock_one, let_go, load, store, unlock_one,
  appended,
}
use ntut_network_and_system.Workers.Views.{progress, view-table, view-lock, view-credit}

module _ {F : Type 0} (f : FloatOps F) where
  post-improper :
      (op : Op F) (l : Ledger F)
      → improper f op ≡ true
      → post f op l ≡ record { code = neg 1; reported = none; ledger = l }
  unfolding post
  post-improper (create id b) l bad = rw bad
  post-improper (deposit id x) l bad = rw bad
  post-improper (withdraw id x) l bad = rw bad
  post-improper (query id) l bad = cc

  -- A step that nobody can tell, or the moment at which the call takes effect.
  abbrev pub IsSilent : AccountDb F → Pc F → AccountDb F → Pc F → Type 0
  IsSilent db p db' q = (view db' ≡ view db) × (progress q ≡ progress p)

  abbrev pub TakesEffect : AccountDb F → Pc F → AccountDb F → Pc F → Type 0
  TakesEffect db p db' q =
      (op : Op F) × (progress p ≡ pending op)
      × (view db' ≡ (post f op (view db)).ledger)
      × (progress q ≡ answered (post f op (view db)).code (post f op (view db)).reported)

  abbrev pub Linear : AccountDb F → Pc F → AccountDb F → Pc F → Type 0
  Linear db p db' q = IsSilent db p db' q ⊎ TakesEffect db p db' q

  module _ (db : AccountDb F) where
    refuse-Linear :
        (op : Op F) → improper f op ≡ true → Linear db (begun op) db (finished (neg 1) none)
    refuse-Linear op bad = inr (
      op,
      refl,
      rw (post-improper op (view db) bad) refl,
      rw (post-improper op (view db) bad) refl,
    )

    miss-Linear :
        (op : Op F)
        → improper f op ≡ false
        → account_find db (account_of op) ≡ none
        → Linear db (searching op) db (absent db op)
    unfolding post
    miss-Linear (create id b) good h = elim (Bool-cases (leb max_accounts db.account_count)) [
      | inl full ↦ rw full (
          inr (
            create id b,
            refl,
            rw (good, balance_of-none db id h, full) refl,
            rw (good, balance_of-none db id h, full) refl,
          ))
      | inr room ↦ rw room (inl (refl, refl))
    ]
    miss-Linear (deposit id x) good h = inr (
      deposit id x,
      refl,
      rw (good, balance_of-none db id h) refl,
      rw (good, balance_of-none db id h) refl,
    )
    miss-Linear (withdraw id x) good h = inr (
      withdraw id x,
      refl,
      rw (good, balance_of-none db id h) refl,
      rw (good, balance_of-none db id h) refl,
    )
    miss-Linear (query id) good h = inr (
      query id,
      refl,
      rw (balance_of-none db id h, post) refl,
      rw (balance_of-none db id h, post) refl,
    )

    -- The account that was found has a balance.
    funds_found :
        (id : List ℕ) (k : ℕ)
        → account_find db id ≡ some k
        → (a : Account F) × (get_elem? db.accounts k ≡ some a) × (balance_of db id ≡ some a.balance)
    funds_found id k h =
        let (a, lt, at, m) = account_find-matches db id h in
        (a, at, balance_of-found db id k a h at)

    hit-Linear :
        (op : Op F) (k : ℕ)
        → improper f op ≡ false
        → account_find db (account_of op) ≡ some k
        → Linear db (searching op) db (present op k)
    unfolding post
    hit-Linear (create id b) k good h =
        let (a, at, have) = funds_found id k h in
        inr (create id b, refl, rw (good, have) refl, rw (good, have) refl)
    hit-Linear (deposit id x) k good h = inl (refl, refl)
    hit-Linear (withdraw id x) k good h = inl (refl, refl)
    hit-Linear (query id) k good h = inl (refl, refl)

    append-Linear :
        (id : List ℕ) (b : F) (slot : Account F)
        → Fresh f db (creating id b)
        → get_elem? db.accounts db.account_count ≡ some slot
        → Linear db (creating id b) (appended f db id b slot) (returning (pos 0))
    unfolding post credit
    append-Linear id b slot ((t, short), good, h, room) at =
        let none_yet = balance_of-none db id h in
        let new =
          balance_of-new f db id b slot (get_elem?-lt db.accounts db.account_count at) h t short in
        inr (
          create id b,
          refl,
          rw (good, none_yet, room)
              (λ i. record { opened = db.account_count + 1; funds = fun_ext new i }),
          rw (good, none_yet, room) refl,
        )

    load-Linear :
        (id : List ℕ) (act : Action F) (k : ℕ) (a : Account F)
        → Found f db id act k
        → get_elem? db.accounts k ≡ some a
        → Linear db (reading id act k) db (loaded f id act k a.balance)
    unfolding post
    load-Linear id (add x) k a (good, found) at = inl (refl, refl)
    load-Linear id (take x) k a (good, found) at = elim (Bool-cases (f.lt a.balance x)) [
      | inl short ↦
          let have = balance_of-found db id k a found at in
          rw short
            (inr (withdraw id x, refl, rw (good, have, short) refl, rw (good, have, short) refl))
      | inr covered ↦ rw covered (inl (refl, refl))
    ]
    load-Linear id look k a (good, found) at =
        let have = balance_of-found db id k a found at in
        inr (query id, refl, rw (have, post) refl, rw (have, post) refl)

    store-Linear :
        (id : List ℕ) (act : Action F) (k : ℕ) (a : Account F) (b : F)
        → Found f db id act k
        → get_elem? db.accounts k ≡ some a
        → stored f act a.balance ≡ some b
        → Linear db
            (writing id act k b)
            (put_account db k (record a { balance = b }))
            (leaving k (pos 0) (some b))
    unfolding post
    store-Linear id (add x) k a b (good, found) at st =
        let have = balance_of-found db id k a found at in
        let e : b ≡ f.add a.balance x = sym (some_eq st) in
        inr (
          deposit id x,
          refl,
          view-credit db id k a b found at ∙ rw (good, have, e) refl,
          rw (good, have, e) refl,
        )
    store-Linear id (take x) k a b (good, found) at st = elim (Bool-cases (f.lt a.balance x)) [
      | inl short ↦ cc (rw short at st)
      | inr covered ↦
          let have = balance_of-found db id k a found at in
          let e : b ≡ f.sub a.balance x = sym (some_eq (rw covered at st)) in
          inr (
            withdraw id x,
            refl,
            view-credit db id k a b found at ∙ rw (good, have, covered, e) refl,
            rw (good, have, covered, e) refl,
          )
    ]
    store-Linear id look k a b (good, found) at st = cc

    pub Move-Linear :
        {db' : AccountDb F} {p q : Pc F} → Move f db p db' q → Fresh f db p → Linear db p db' q
    Move-Linear (refuse {op} bad) fresh = refuse-Linear op bad
    Move-Linear (lock_table good m) fresh = inl (view-table db _ refl refl, refl)
    Move-Linear (miss {op} h) fresh = miss-Linear op fresh.1 h
    Move-Linear (hit {op} {k} h) fresh = hit-Linear op k fresh.1 h
    Move-Linear (append {id} {b} {slot} at) fresh = append-Linear id b slot fresh at
    Move-Linear (give_back m) fresh = inl (view-table db _ refl refl, refl)
    Move-Linear (lock_one {k} {a} at m) fresh = inl (view-lock db k a _ at refl refl refl, refl)
    Move-Linear (let_go m) fresh = inl (view-table db _ refl refl, refl)
    Move-Linear (load {id} {act} {k} {a} at) fresh = load-Linear id act k a fresh at
    Move-Linear (store {id} {act} {k} {b} {a} at) (good, found, x, at', st) =
        let e : x.balance ≡ a.balance = ap (λ y. y.balance) (some_eq (sym at' ∙ at)) in
        store-Linear id act k a b (good, found) at (rw e at st)
    Move-Linear (unlock_one {k} {a} at m) fresh = inl (view-lock db k a _ at refl refl refl, refl)
