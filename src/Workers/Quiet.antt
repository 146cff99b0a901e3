-- ===== src/Workers/Quiet.antt =====
-- When no worker is in a call the table is as it should be, and that is always reached.
use ntut_network_and_system.Base.{
  leb-lt, leb-le, ==_iff, leb, ℕ, zero, suc, ◌≤◌, ◌<◌, ◌≡◌, ◌∙◌, ap, ◌⊎◌, inl, inr, true, false,
  ◌==◌, arith, Bool-cases,
}
use ntut_network_and_system.Float.{FloatOps, IsOrdered}
use ntut_network_and_system.Account.{AccountDb}
use ntut_network_and_system.Account.Invariant.{IsValid}
use ntut_network_and_system.Workers.{Pc, System, Reach, update, ready}
use ntut_network_and_system.Workers.Guards.{Guards-free}
use ntut_network_and_system.Workers.Invariant.{Inv}
use ntut_network_and_system.Workers.Moves.{advance-Move}
use ntut_network_and_system.Workers.Preserve.{Reach-Inv, ready-table, ready-account}
use ntut_network_and_system.Workers.Progress.{Reach-CanMove}
use ntut_network_and_system.Workers.Finish.{
  all_remaining, Drain, still, onward, IsBelow, all_remaining-update, Move-remaining, Drain-Reach,
  Drain-IsBelow, busy_lt,
}

module _ {F : Type 0} (f : FloatOps F) where
  -- One of the first `n` workers is in a call, or none is.
  busy-cases :
      (n : ℕ) (pc : ℕ → Pc F)
      → ((i : ℕ) × (ready (pc i) ≡ false)) ⊎ ((i : ℕ) → i < n → ready (pc i) ≡ true)
  busy-cases zero pc = inr (λ i h. absurd (omega arith))
  busy-cases (suc n) pc = elim (Bool-cases (ready (pc n))) [
    | inr busy ↦ inl (n, busy)
    | inl at_rest ↦ elim (busy-cases n pc) [
      | inl found ↦ inl found
      | inr others ↦ inr (λ i h. elim (Bool-cases (i == n)) [
        | inl is ↦ ap (λ j. ready (pc j)) ((==_iff i n).0 is) ∙ at_rest
        | inr is_not ↦ others i (ground arith)
      ])
    ]
  ]

  -- With every worker between two calls, the locks are free.
  quiet-IsValid : (s : System F) → Inv f s → ((i : ℕ) → ready (s.pc i) ≡ true) → IsValid f s.db
  quiet-IsValid s v quiet = record {
    size = v.size;
    count_le = v.count_le;
    db_free = Guards-free s.db.db_lock _ v.table (λ i. ready-table (s.pc i) (quiet i));
    entries = λ k a at.
        let c = v.cells k a at in
        record {
          lock_free =
              Guards-free a.lock _ (v.each k a at) (λ i. ready-account k (s.pc i) (quiet i));
          id_length = c.id_length;
          id_terminated = c.id_terminated;
          not_below = c.not_below;
        };
  }

  -- Let any number of workers call the table at the same time, from a well-formed table that
  -- none of them is using, where the ids of new accounts fit and the order of the numbers is as
  -- the hypotheses on `double` say. Then whenever all the workers are between two calls the
  -- table is well formed: its locks are free, its count is in range, and each entry has a
  -- terminated id and a balance that is not below zero.
  pub Reach-IsValid :
      (db : AccountDb F) (s : System F)
      → IsOrdered f
      → IsValid f db
      → Reach f db s
      → ((i : ℕ) → ready (s.pc i) ≡ true)
      → IsValid f s.db
  Reach-IsValid db s ord v r quiet = quiet-IsValid s (Reach-Inv f ord v r) quiet

  module _ (db : AccountDb F) (w : ℕ) (s : System F) (ord : IsOrdered f) (v : IsValid f db)
      (r : Reach f db s) (below : IsBelow w s) where
    -- One more step, while a worker is in a call.
    further :
        (n : ℕ) (t : System F) (i : ℕ)
        → Drain f s n t
        → ready (t.pc i) ≡ false
        → (t' : System F) × Drain f s (suc n) t' × (all_remaining w t'.pc < all_remaining w t.pc)
    further n t i d busy =
        let (j, (works, (db', p), e)) = Reach-CanMove f db t i ord v (Drain-Reach f r d) busy in
        (
          record { db = db'; pc = update t.pc j p },
          onward j d works e,
          all_remaining-update f w t.pc j p (busy_lt f w t j (Drain-IsBelow f w below d) works)
              (Move-remaining f (advance-Move f t.db (t.pc j) (db', p) works e)),
        )

    abbrev Ends : Type 0
    Ends = (n : ℕ) × (t : System F) × Drain f s n t × ((i : ℕ) → ready (t.pc i) ≡ true)

    all_rest :
        (n : ℕ) (t : System F) → Drain f s n t → ((i : ℕ) → i < w → ready (t.pc i) ≡ true) → Ends
    all_rest n t d quiet = (
      n,
      t,
      d,
      λ i. elim (Bool-cases (leb w i)) [
        | inl out ↦ Drain-IsBelow f w below d i (leb-le w i out)
        | inr lt ↦ quiet i (leb-lt w i lt)
      ],
    )

    -- The steps that are left, `m` at most.
    finish : (m n : ℕ) (t : System F) → Drain f s n t → all_remaining w t.pc ≤ m → Ends
    finish zero n t d le = elim (busy-cases w t.pc) [
      | inr quiet ↦ all_rest n t d quiet
      | inl (i, busy) ↦ let (t', d', less) = further n t i d busy in absurd (omega (arith, less))
    ]
    finish (suc m) n t d le = elim (busy-cases w t.pc) [
      | inr quiet ↦ all_rest n t d quiet
      | inl (i, busy) ↦
          let (t', d', less) = further n t i d busy in finish m (suc n) t' d' (omega (arith, less))
    ]

  -- Let any number of workers call the table at the same time, from a well-formed table that
  -- none of them is using, where the ids of new accounts fit and the order of the numbers is as
  -- the hypotheses on `double` say. In any state that they reach, let the workers in a call be
  -- among the first `w`. Then the calls under way can be brought to an end by the workers' own
  -- steps alone, no new call beginning: there is no deadlock. At that end the table is well
  -- formed, with every lock free.
  pub Reach-Drain :
      (db : AccountDb F) (w : ℕ) (s : System F)
      → IsOrdered f
      → IsValid f db
      → Reach f db s
      → IsBelow w s
      → (n : ℕ) × (t : System F) × Drain f s n t
        × ((i : ℕ) → ready (t.pc i) ≡ true)
        × IsValid f t.db
  Reach-Drain db w s ord v r below =
      let (n, t, d, quiet) =
        finish db w s ord v r below (all_remaining w s.pc) 0 s still (omega arith) in
      (n, t, d, quiet, Reach-IsValid db t ord v (Drain-Reach f r d) quiet)
