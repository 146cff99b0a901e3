-- ===== src/Workers/Atomic.antt =====
-- The contract of the table for callers that use it at the same time: each call takes effect at
-- one moment between its beginning and its end, when the ledger answers it.
use ntut_network_and_system.Base.{
  ℕ, ◌≡◌, Bool, true, false, Option, ◌==◌, if◌then◌else◌, List, [], ◌∷◌,
}
use ntut_network_and_system.Base.Int.{ℤ}
use ntut_network_and_system.Float.{FloatOps}
use ntut_network_and_system.Account.Ledger.{Op, Ledger, post}

-- A caller has made no call yet, waits for the answer to one, or has been answered.
pub data Progress (F : Type 0) : Type 0 where
  no_call : Progress F
  pending : Op F → Progress F
  answered : ℤ → Option F → Progress F

abbrev pub is_pending : {F : Type 0} → Progress F → Bool
is_pending no_call = false
is_pending (pending op) = true
is_pending (answered c r) = false

pub record Shared (F : Type 0) : Type 0 where
  pub ledger : Ledger F
  pub callers : ℕ → Progress F

abbrev pub put : {F : Type 0} → (ℕ → Progress F) → ℕ → Progress F → ℕ → Progress F
put callers i p j = if j == i then p else callers j

-- The beginning of a call: who makes it, what that caller had been answered until then, and the
-- operation.
pub record Beginning (F : Type 0) : Type 0 where
  pub caller : ℕ
  pub before : Progress F
  pub op : Op F

-- From `a`, the calls of a history, newest first, begin in its order, and each takes effect at
-- most once, at some moment after it began and before its caller begins another.
pub data Commits {F : Type 0} (f : FloatOps F) (a : Shared F)
    : List (Beginning F) → Shared F → Type 0 where
  here : Commits f a [] a
  begin :
      {h : List (Beginning F)} {b : Shared F}
      → Commits f a h b
      → (i : ℕ) (op : Op F) → is_pending (b.callers i) ≡ false
      → Commits f a
          (record { caller = i; before = b.callers i; op = op } ∷ h)
          (record b { callers = put b.callers i (pending op) })
  commit :
      {h : List (Beginning F)} {b : Shared F}
      → Commits f a h b
      → (i : ℕ) (op : Op F) → b.callers i ≡ pending op
      → Commits f a h (record {
        ledger = (post f op b.ledger).ledger;
        callers =
            put b.callers i (answered (post f op b.ledger).code (post f op b.ledger).reported);
      })
