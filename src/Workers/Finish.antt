-- ===== src/Workers/Finish.antt =====
-- The calls of the workers come to an end: each has at most seven steps, and when the last one is
-- over the table is as it was found, with every lock free.
use ntut_network_and_system.Base.{
  leb-lt, leb-le, ◌≢◌, ==_iff, leb, ℕ, zero, suc, ◌+◌, ◌*◌, ◌≤◌, ◌<◌, ◌≡◌, refl, sym, ◌∙◌, ap, inl,
  inr, true, false, ◌==◌, arith, done, Bool-cases,
}
use ntut_network_and_system.Float.{FloatOps}
use ntut_network_and_system.Account.{AccountDb, max_accounts}
use ntut_network_and_system.Account.Ledger.{create, deposit, withdraw, query}
use ntut_network_and_system.Workers.{
  add, take, look, Pc, idle, begun, searching, creating, returning, locking, locked, reading,
  writing, leaving, finished, System, moves, Reach, later, update, ready, advance,
}
use ntut_network_and_system.Workers.Invariant.{update_mine, update_other}
use ntut_network_and_system.Workers.Moves.{
  Move, refuse, lock_table, miss, hit, append, give_back, lock_one, let_go, load, store, unlock_one,
  advance-Move,
}

-- The steps that a call can still make.
abbrev pub remaining : {F : Type 0} → Pc F → ℕ
remaining idle = 0
remaining (begun op) = 7
remaining (searching op) = 6
remaining (creating id b) = 2
remaining (returning c) = 1
remaining (locking id act k) = 5
remaining (locked id act k) = 4
remaining (reading id act k) = 3
remaining (writing id act k b) = 2
remaining (leaving k c r) = 1
remaining (finished c r) = 0

remaining_le : {F : Type 0} (p : Pc F) → remaining p ≤ 7
remaining_le p = ground arith

-- The same of the first `n` workers together.
unfoldable pub all_remaining : {F : Type 0} → ℕ → (ℕ → Pc F) → ℕ
all_remaining zero pc = 0
all_remaining (suc n) pc = remaining (pc n) + all_remaining n pc

-- A run of `n` steps in which no call begins.
pub data Drain {F : Type 0} (f : FloatOps F) (s : System F) : ℕ → System F → Type 0 where
  still : Drain f s 0 s
  onward :
      {n : ℕ} {t : System F} (i : ℕ) {db : AccountDb F} {p : Pc F}
      → Drain f s n t
      → ready (t.pc i) ≡ false
      → advance f t.db (t.pc i) ≡ done (db, p)
      → Drain f s (suc n) (record { db = db; pc = update t.pc i p })

-- No worker from `n` on is in a call.
abbrev pub IsBelow : {F : Type 0} → ℕ → System F → Type 0
IsBelow n s = (i : ℕ) → n ≤ i → ready (s.pc i) ≡ true

module _ {F : Type 0} (f : FloatOps F) where
  pub Move-remaining :
      {db db' : AccountDb F} {p q : Pc F} → Move f db p db' q → remaining q < remaining p
  Move-remaining (refuse bad) = omega arith
  Move-remaining (lock_table good m) = omega arith
  Move-remaining {db} (miss {op = create id b} h) =
      elim (Bool-cases (leb max_accounts db.account_count)) [
        | inl full ↦ rw full (omega arith)
        | inr room ↦ rw room (omega arith)
      ]
  Move-remaining (miss {op = deposit id x} h) = omega arith
  Move-remaining (miss {op = withdraw id x} h) = omega arith
  Move-remaining (miss {op = query id} h) = omega arith
  Move-remaining (hit {op = create id b} h) = omega arith
  Move-remaining (hit {op = deposit id x} h) = omega arith
  Move-remaining (hit {op = withdraw id x} h) = omega arith
  Move-remaining (hit {op = query id} h) = omega arith
  Move-remaining (append at) = omega arith
  Move-remaining (give_back m) = omega arith
  Move-remaining (lock_one at m) = omega arith
  Move-remaining (let_go m) = omega arith
  Move-remaining (load {act = add x} at) = omega arith
  Move-remaining (load {act = take x} {a} at) = elim (Bool-cases (f.lt a.balance x)) [
    | inl short ↦ rw short (omega arith)
    | inr covered ↦ rw covered (omega arith)
  ]
  Move-remaining (load {act = look} at) = omega arith
  Move-remaining (store at) = omega arith
  Move-remaining (unlock_one at m) = omega arith

  all_remaining-same :
      (n : ℕ) (pc : ℕ → Pc F) (i : ℕ) (p : Pc F)
      → n ≤ i
      → all_remaining n (update pc i p) ≡ all_remaining n pc
  unfolding all_remaining
  all_remaining-same zero pc i p h = refl
  all_remaining-same (suc n) pc i p h =
      rw (update_other pc i p n (omega arith), all_remaining-same n pc i p (omega arith)) refl

  pub all_remaining-update :
      (n : ℕ) (pc : ℕ → Pc F) (i : ℕ) (p : Pc F)
      → i < n
      → remaining p < remaining (pc i)
      → all_remaining n (update pc i p) < all_remaining n pc
  unfolding all_remaining
  all_remaining-update zero pc i p h lt = absurd (omega arith)
  all_remaining-update (suc n) pc i p h lt = elim (Bool-cases (i == n)) [
    | inl is ↦
        let e = (==_iff i n).0 is in
        let mine : remaining (update pc i p n) ≡ remaining p =
          ap remaining (ap (update pc i p) (sym e) ∙ update_mine pc i p) in
        let before : remaining (pc i) ≡ remaining (pc n) = ap (λ j. remaining (pc j)) e in
        omega (arith, mine, before, lt, all_remaining-same n pc i p (omega (arith, e)))
    | inr is_not ↦
        let apart : n ≢ i = ground arith in
        let other : remaining (update pc i p n) ≡ remaining (pc n) =
          ap remaining (update_other pc i p n apart) in
        omega (arith, other, all_remaining-update n pc i p (omega (arith, apart)) lt)
  ]

  all_remaining_le : (n : ℕ) (pc : ℕ → Pc F) → all_remaining n pc ≤ 7 * n
  unfolding all_remaining
  all_remaining_le zero pc = omega arith
  all_remaining_le (suc n) pc = omega (arith, all_remaining_le n pc, remaining_le (pc n))

  pub Drain-Reach :
      {db : AccountDb F} {s t : System F} {n : ℕ} → Reach f db s → Drain f s n t → Reach f db t
  Drain-Reach r still = r
  Drain-Reach r (onward i d busy e) = later (Drain-Reach r d) (moves i busy e)

  -- The workers that are between two calls stay so.
  pub Drain-IsBelow : (w : ℕ) {s t : System F} {n : ℕ} → IsBelow w s → Drain f s n t → IsBelow w t
  Drain-IsBelow w below still = below
  Drain-IsBelow w below (onward {t} i {p} d busy e) = λ j h.
      let was = Drain-IsBelow w below d in
      rw
        (update_other t.pc i p j
          (λ same. cc (sym (was j h) ∙ ap (λ k. ready (t.pc k)) same ∙ busy)))
        (was j h)

  pub busy_lt : (w : ℕ) (s : System F) (i : ℕ) → IsBelow w s → ready (s.pc i) ≡ false → i < w
  busy_lt w s i below busy = elim (Bool-cases (leb w i)) [
    | inl le ↦ cc (below i (leb-le w i le))
    | inr lt ↦ leb-lt w i lt
  ]

  Drain-remaining :
      (w : ℕ) {s t : System F} {n : ℕ}
      → IsBelow w s
      → Drain f s n t
      → all_remaining w t.pc + n ≤ all_remaining w s.pc
  Drain-remaining w below still = omega arith
  Drain-remaining w below (onward {n} {t} i {db} {p} d busy e) = omega (
    arith,
    Drain-remaining w below d,
    all_remaining-update w t.pc i p (busy_lt w t i (Drain-IsBelow w below d) busy)
        (Move-remaining (advance-Move f t.db (t.pc i) (db, p) busy e)),
  )

  -- Where the workers in a call are among the first `w`, every run in which no new call begins
  -- has at most 7 * w steps, in whatever order they are made and whatever the table is.
  pub Drain-le : (w : ℕ) (s t : System F) (n : ℕ) → IsBelow w s → Drain f s n t → n ≤ 7 * w
  Drain-le w s t n below d = omega (arith, Drain-remaining w below d, all_remaining_le w s.pc)
