-- ===== src/Tests/Workers.antt =====
-- Two workers on the table with one account.
use ntut_network_and_system.Base.{
  ◌*◌, ◌⊎◌, ◌+◌, ◌&&◌, if◌then◌else◌, length, ℕ, zero, suc, ◌≡◌, refl, ◌≢◌, Bool, true, false, some,
  List, [], ◌∷◌, Run, done, blocked, fault, arith, Bool-cases, inl, inr, ◌≤◌,
}
use mathlib.Core.Path.{subst}
use ntut_network_and_system.Account.View.{balance_of}
use ntut_network_and_system.Base.Int.{◌-ℤ◌, ◌+ℤ◌, pos}
use ntut_network_and_system.CString.{str_eq, strncpy}
use ntut_network_and_system.Float.Sample.{Tiny, num, tiny_ops, tiny_IsOrdered}
use ntut_network_and_system.Account.{
  account_init, account_find, find_from, put_account, account_at, lock_db, unlock_db, lock_account,
  unlock_account,
}
use ntut_network_and_system.Account.Invariant.{IsValid}
use ntut_network_and_system.Account.Ledger.{deposit, withdraw, view}
use ntut_network_and_system.Workers.{
  idle, begun, System, calls, Reach, start, later, update, ready, advance,
}
use ntut_network_and_system.Workers.Atomic.{Commits, no_call}
use ntut_network_and_system.Workers.Linear.{shared, history, Reach-Commits}
use ntut_network_and_system.Workers.Progress.{Reach-no_fault}
use ntut_network_and_system.Workers.Finish.{
  Drain-IsBelow, Drain-Reach, Drain, still, onward, IsBelow, Drain-le,
}
use ntut_network_and_system.Workers.Quiet.{Reach-IsValid, Reach-Drain}
use ntut_network_and_system.Workers.Killed.{holds_lock}
use ntut_network_and_system.Tests.Data.{alice, opened_table, opened_table-IsValid}

-- Worker 0 pays 5 in and worker 1 takes 20 out.
abbrev both_called : System Tiny
both_called = record {
  db = opened_table;
  pc =
      update (update (λ i. idle) 0 (begun (deposit alice (num (pos 5))))) 1
        (begun (withdraw alice (num (pos 20))));
}

both_called-Reach : Reach tiny_ops opened_table both_called
both_called-Reach =
    later (later start (calls 0 (deposit alice (num (pos 5))) refl tt))
      (calls 1 (withdraw alice (num (pos 20))) refl tt)

-- The state after a step of worker `i`, where it has one.
abbrev stepped : ℕ → System Tiny → System Tiny
stepped i s = elim (advance tiny_ops s.db (s.pc i)) [
  | done (db, p) ↦ record { db = db; pc = update s.pc i p }
  | blocked ↦ s
  | fault ↦ s
]

abbrev ran : List ℕ → System Tiny → System Tiny
ran [] s = s
ran (i ∷ is) s = ran is (stepped i s)

-- Every worker that a schedule names can make a step when its turn comes.
abbrev turn : ℕ → System Tiny → Bool
turn i s =
    if ready (s.pc i)
    then false
    else elim (advance tiny_ops s.db (s.pc i)) [ done r ↦ true | blocked ↦ false | fault ↦ false ]

abbrev turns : List ℕ → System Tiny → Bool
turns [] s = true
turns (i ∷ is) s = turn i s && turns is (stepped i s)

Run-cases : {A : Type 0} (m : Run A) → ((a : A) × (m ≡ done a)) ⊎ (m ≡ blocked) ⊎ (m ≡ fault)
Run-cases (done a) = inl (a, refl)
Run-cases blocked = inr (inl refl)
Run-cases fault = inr (inr refl)

stepped-Drain :
    (s t : System Tiny) (n i : ℕ)
    → Drain tiny_ops s n t
    → turn i t ≡ true
    → Drain tiny_ops s (suc n) (stepped i t)
stepped-Drain s t n i d h = elim (Bool-cases (ready (t.pc i))) [
  | inl waits ↦ cc (rw waits at h)
  | inr busy ↦ elim (Run-cases (advance tiny_ops t.db (t.pc i))) [
    | inl ((db, p), e) ↦ rw (e, stepped) (onward i d busy e)
    | inr (inl e) ↦ cc (rw (busy, e) at h)
    | inr (inr e) ↦ cc (rw (busy, e) at h)
  ]
]

ran-Drain :
    (s t : System Tiny) (n : ℕ) (is : List ℕ)
    → Drain tiny_ops s n t
    → turns is t ≡ true
    → Drain tiny_ops s (length is + n) (ran is t)
ran-Drain s t n [] d h = subst (λ m. Drain tiny_ops s m t) (omega arith) d
ran-Drain s t n (i ∷ is) d h =
    subst (λ m. Drain tiny_ops s m (ran is (stepped i t))) (omega arith)
      (ran-Drain s (stepped i t) (suc n) is (stepped-Drain s t n i d (ground arith)) (ground arith))

both_called-IsBelow : IsBelow 2 both_called
both_called-IsBelow i h = ground arith

-- Worker 0 has the account's lock and worker 1 the table's, and waits for the account.
abbrev schedule : List ℕ
schedule = 0 ∷ 0 ∷ 0 ∷ 0 ∷ 1 ∷ 1 ∷ []

schedule-turns : turns schedule both_called ≡ true
unfolding advance account_init account_find find_from put_account account_at lock_db unlock_db
    lock_account unlock_account str_eq strncpy ◌+ℤ◌
schedule-turns = refl

abbrev pub crossed : System Tiny
crossed = ran schedule both_called

crossed-Drain : Drain tiny_ops both_called 6 crossed
crossed-Drain = ran-Drain both_called both_called 0 schedule still schedule-turns

pub crossed-locked : holds_lock (crossed.pc 0) ≡ true
unfolding advance account_init account_find find_from put_account account_at lock_db unlock_db
    lock_account unlock_account str_eq strncpy ◌+ℤ◌
crossed-locked = refl

pub crossed-Reach : Reach tiny_ops opened_table crossed
crossed-Reach = Drain-Reach tiny_ops both_called-Reach crossed-Drain

crossed-IsBelow : IsBelow 2 crossed
crossed-IsBelow = Drain-IsBelow tiny_ops 2 both_called-IsBelow crossed-Drain

-- The answers of both, on to the end.
abbrev to_the_end : List ℕ
to_the_end = 0 ∷ 0 ∷ 0 ∷ 1 ∷ 1 ∷ 1 ∷ 1 ∷ 1 ∷ []

abbrev over : System Tiny
over = ran to_the_end crossed

over_turns : turns to_the_end crossed ≡ true
unfolding advance account_init account_find find_from put_account account_at lock_db unlock_db
    lock_account unlock_account str_eq strncpy ◌+ℤ◌
over_turns = refl

over-Drain : Drain tiny_ops both_called 14 over
over-Drain = ran-Drain both_called crossed 6 to_the_end crossed-Drain over_turns

over-Reach : Reach tiny_ops opened_table over
over-Reach = Drain-Reach tiny_ops both_called-Reach over-Drain

over_alice : balance_of over.db alice ≡ some (num (pos 35))
unfolding advance account_init account_find find_from put_account account_at lock_db unlock_db
    lock_account unlock_account str_eq strncpy ◌+ℤ◌ ◌-ℤ◌ balance_of
over_alice = refl

Reach-Commits_example :
    Commits tiny_ops
      (record { ledger = view opened_table; callers = λ i. no_call })
      (history tiny_ops over-Reach)
      (shared over)
Reach-Commits_example =
    Reach-Commits tiny_ops opened_table over tiny_IsOrdered opened_table-IsValid over-Reach

Reach-no_fault_example : advance tiny_ops crossed.db (crossed.pc 1) ≢ fault
Reach-no_fault_example =
    Reach-no_fault tiny_ops opened_table crossed 1 tiny_IsOrdered opened_table-IsValid crossed-Reach

Drain-le_example : 14 ≤ 7 * 2
Drain-le_example = Drain-le tiny_ops 2 both_called over 14 both_called-IsBelow over-Drain

over_quiet : (i : ℕ) → ready (over.pc i) ≡ true
unfolding advance account_init account_find find_from put_account account_at lock_db unlock_db
    lock_account unlock_account str_eq strncpy ◌+ℤ◌
over_quiet zero = refl
over_quiet (suc zero) = refl
over_quiet (suc (suc i)) =
    Drain-IsBelow tiny_ops 2 both_called-IsBelow over-Drain (suc (suc i)) (omega arith)

Reach-IsValid_example : IsValid tiny_ops over.db
Reach-IsValid_example =
    Reach-IsValid tiny_ops opened_table over tiny_IsOrdered opened_table-IsValid over-Reach
      over_quiet

Reach-Drain_example :
    (n : ℕ) × (t : System Tiny) × Drain tiny_ops crossed n t
    × ((i : ℕ) → ready (t.pc i) ≡ true)
    × IsValid tiny_ops t.db
Reach-Drain_example =
    Reach-Drain tiny_ops opened_table 2 crossed tiny_IsOrdered opened_table-IsValid crossed-Reach
      crossed-IsBelow
