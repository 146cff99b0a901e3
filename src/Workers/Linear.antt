-- ===== src/Workers/Linear.antt =====
-- The workers' steps implement the contract: every reachable state is one that the contract reaches
-- by calls that take effect one at a time.
use ntut_network_and_system.Base.{
  ==_iff, ℕ, ◌≡◌, refl, sym, ◌∙◌, ap, inl, inr, true, false, arith, List, [], ◌∷◌,
}
use mathlib.Core.Path.{fun_ext, subst}
use ntut_network_and_system.Float.{FloatOps, IsOrdered}
use ntut_network_and_system.Account.{AccountDb}
use ntut_network_and_system.Account.Invariant.{IsValid}
use ntut_network_and_system.Account.Ledger.{Ledger, view}
use ntut_network_and_system.Workers.{
  Pc, idle, begun, finished, System, calls, moves, Reach, start, later, update, ready,
}
use ntut_network_and_system.Workers.Atomic.{
  Progress, no_call, is_pending, Shared, put, begin, commit, Commits, here, Beginning,
}
use ntut_network_and_system.Workers.Preserve.{Reach-Inv}
use ntut_network_and_system.Workers.Moves.{advance-Move}
use ntut_network_and_system.Workers.Effects.{Linear, Move-Linear}
use ntut_network_and_system.Workers.Views.{progress}

-- What the contract sees of the workers.
abbrev pub shared : {F : Type 0} → System F → Shared F
shared s = record { ledger = view s.db; callers = λ i. progress (s.pc i) }

module _ {F : Type 0} (f : FloatOps F) where
  progress-update :
      (pc : ℕ → Pc F) (i : ℕ) (q : Pc F)
      → (λ j. progress (update pc i q j)) ≡ put (λ j. progress (pc j)) i (progress q)
  progress-update pc i q = fun_ext (λ j. ground arith)

  put_same :
      (callers : ℕ → Progress F) (i : ℕ) (p : Progress F)
      → p ≡ callers i
      → put callers i p ≡ callers
  put_same callers i p e = fun_ext (λ j. ground (arith, ==_iff j i))

  not_pending : (p : Pc F) → ready p ≡ true → is_pending (progress p) ≡ false
  not_pending idle h = refl
  not_pending (finished c r) h = refl
  not_pending p h = ground arith

  -- What a step of worker `i` to a table and a place does to the view.
  after_step :
      (s : System F) (i : ℕ) (db' : AccountDb F) (q : Pc F) {l : Ledger F} {p : Progress F}
      → view db' ≡ l
      → progress q ≡ p
      → shared (record { db = db'; pc = update s.pc i q })
        ≡ record { ledger = l; callers = put (λ j. progress (s.pc j)) i p }
  after_step s i db' q same e = λ k. record {
    ledger = same k;
    callers = (progress-update s.pc i q ∙ ap (put (λ j. progress (s.pc j)) i) e) k;
  }

  -- The calls that the workers began on the way to a state, newest first.
  unfoldable pub history : {db : AccountDb F} {s : System F} → Reach f db s → List (Beginning F)
  history start = []
  history (later {s = t} r (calls i op free_now fits)) =
      record { caller = i; before = progress (t.pc i); op = op } ∷ history r
  history (later r (moves i busy h)) = history r

  Linear-step :
      (s : System F) (i : ℕ) (db' : AccountDb F) (q : Pc F) {a : Shared F} {h : List (Beginning F)}
      → Commits f a h (shared s)
      → Linear f s.db (s.pc i) db' q
      → Commits f a h (shared (record { db = db'; pc = update s.pc i q }))
  Linear-step s i db' q {a} {h} before (inl (same, e)) =
      subst (Commits f a h)
        (sym (
          after_step s i db' q same e ∙ (λ k. record {
            ledger = view s.db;
            callers = put_same (λ j. progress (s.pc j)) i (progress (s.pc i)) refl k;
          })))
        before
  Linear-step s i db' q {a} {h} before (inr (op, waits, same, e)) =
      subst (Commits f a h) (sym (after_step s i db' q same e)) (commit before i op waits)

  -- Let any number of workers call the table at the same time, from a well-formed table that
  -- none of them is using, their steps in any order; ids of new accounts fit, and the order of
  -- the numbers is as the hypotheses on `double` say. Whatever state is reached, take the calls
  -- that the workers began on the way to it, in their order, each with its caller, its operation
  -- and the answer that its caller had until then. Then the ledger reaches that state when just
  -- these calls begin in this order and each that has taken effect did so at one moment after it
  -- began, the calls of a caller one after the other: the table stands for that ledger, and
  -- every answer that a worker has got or has now is the code and the balance with which the
  -- ledger answered the call that the worker made.
  pub Reach-Commits :
      (db : AccountDb F) (s : System F)
      → IsOrdered f
      → IsValid f db
      → (r : Reach f db s)
      → Commits f (record { ledger = view db; callers = λ i. no_call }) (history r) (shared s)
  unfolding history
  Reach-Commits db s ord v start = here
  Reach-Commits db s ord v (later {s = t} r (calls i op free_now fits)) =
      subst
        (Commits f (record { ledger = view db; callers = λ i. no_call })
          (history (later r (calls i op free_now fits))))
        (sym (after_step t i t.db (begun op) refl refl))
        (begin (Reach-Commits db t ord v r) i op (not_pending (t.pc i) free_now))
  Reach-Commits db s ord v (later {s = t} r (moves i {db = db'} {p} busy h)) =
      Linear-step t i db' p (Reach-Commits db t ord v r) (
        Move-Linear f t.db (advance-Move f t.db (t.pc i) (db', p) busy h)
          ((Reach-Inv f ord v r).fresh i))
