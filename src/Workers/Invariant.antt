-- ===== src/Workers/Invariant.antt =====
-- What holds between the steps of the workers.
use ntut_network_and_system.Base.{
  Bool-cases, ℕ, ◌≤◌, ◌<◌, ◌≡◌, refl, sym, ◌∙◌, ap, ◌≢◌, inl, inr, Bool, true, false, ◌==◌, ==_iff,
  ne-==, Option, none, some, List, get_elem?, length, leb, if◌then◌else◌, arith,
}
use ntut_network_and_system.CString.{terminated}
use ntut_network_and_system.Float.{FloatOps}
use ntut_network_and_system.Account.{Account, AccountDb, account_find, max_accounts, account_id_len}
use ntut_network_and_system.Account.Ledger.{create, Fits}
use ntut_network_and_system.Workers.{
  Action, add, take, look, Pc, idle, begun, searching, creating, returning, locking, locked,
  reading, writing, leaving, finished, op_of, improper, System, update,
}
use ntut_network_and_system.Workers.Guards.{Guards, Switches}

module _ {F : Type 0} where
  -- Between the lock and the unlock of the table.
  abbrev pub holds_table : Pc F → Bool
  holds_table idle = false
  holds_table (begun op) = false
  holds_table (searching op) = true
  holds_table (creating id b) = true
  holds_table (returning c) = true
  holds_table (locking id act k) = true
  holds_table (locked id act k) = true
  holds_table (reading id act k) = false
  holds_table (writing id act k b) = false
  holds_table (leaving k c r) = false
  holds_table (finished c r) = false

  -- Between the lock and the unlock of account `k`.
  abbrev pub holds_account : ℕ → Pc F → Bool
  holds_account k idle = false
  holds_account k (begun op) = false
  holds_account k (searching op) = false
  holds_account k (creating id b) = false
  holds_account k (returning c) = false
  holds_account k (locking id act j) = false
  holds_account k (locked id act j) = j == k
  holds_account k (reading id act j) = j == k
  holds_account k (writing id act j b) = j == k
  holds_account k (leaving j c r) = j == k
  holds_account k (finished c r) = false

module _ {F : Type 0} (f : FloatOps F) where
  -- An entry, whatever its lock.
  pub record IsCell (a : Account F) : Type 0 where
    pub id_length : length a.account_id ≡ account_id_len
    pub id_terminated : terminated a.account_id ≡ true
    pub not_below : f.lt a.balance f.zero_f ≡ false

  -- The balance that an action stores, if it stores one.
  abbrev pub stored : Action F → F → Option F
  stored (add x) b = some (f.add b x)
  stored (take x) b = if f.lt b x then none else some (f.sub b x)
  stored look b = none

  -- The account that a worker has found, for arguments that are proper.
  abbrev pub Found : AccountDb F → List ℕ → Action F → ℕ → Type 0
  Found db id act k = (improper f (op_of id act) ≡ false) × (account_find db id ≡ some k)

  -- What a worker's locals say about the table.
  abbrev pub Fresh : AccountDb F → Pc F → Type 0
  Fresh db idle = Unit
  Fresh db (begun op) = Fits op
  Fresh db (searching op) = Fits op × (improper f op ≡ false)
  Fresh db (creating id b) =
      Fits (create id b)
      × (improper f (create id b) ≡ false)
      × (account_find db id ≡ none)
      × (leb max_accounts db.account_count ≡ false)
  Fresh db (returning c) = Unit
  Fresh db (locking id act k) = Found db id act k
  Fresh db (locked id act k) = Found db id act k
  Fresh db (reading id act k) = Found db id act k
  Fresh db (writing id act k b) =
      (improper f (op_of id act) ≡ false)
      × (account_find db id ≡ some k)
      × (a : Account F) × (get_elem? db.accounts k ≡ some a)
      × (stored act a.balance ≡ some b)
  Fresh db (leaving k c r) = k < db.account_count
  Fresh db (finished c r) = Unit

  pub record Inv (s : System F) : Type 0 where
    pub size : length s.db.accounts ≡ max_accounts
    pub count_le : s.db.account_count ≤ max_accounts
    pub table : Guards s.db.db_lock (λ i. holds_table (s.pc i))
    pub each :
        (k : ℕ) (a : Account F)
        → get_elem? s.db.accounts k ≡ some a
        → Guards a.lock (λ i. holds_account k (s.pc i))
    pub cells : (k : ℕ) (a : Account F) → get_elem? s.db.accounts k ≡ some a → IsCell a
    pub fresh : (i : ℕ) → Fresh s.db (s.pc i)

-- One worker's place changes.
module _ {F : Type 0} (pc : ℕ → Pc F) (i : ℕ) (p : Pc F) where
  pub update_mine : update pc i p i ≡ p
  update_mine = ground (arith, ==_iff i i)

  pub update_other : (j : ℕ) → j ≢ i → update pc i p j ≡ pc j
  update_other j h = rw (ne-== j i h) refl

  pub update-Switches :
      (holds : Pc F → Bool) (b : Bool)
      → holds p ≡ b
      → Switches (λ j. holds (pc j)) (λ j. holds (update pc i p j)) i b
  update-Switches holds b h = record {
    mine = ap holds update_mine ∙ h;
    others = λ j ne. ap holds (update_other j ne);
  }

  pub update_keeps :
      (holds : Pc F → Bool) {p0 : Pc F}
      → pc i ≡ p0
      → holds p ≡ holds p0
      → (j : ℕ) → holds (update pc i p j) ≡ holds (pc j)
  update_keeps holds {p0} e h j = elim (Bool-cases (j == i)) [
    | inl is ↦ rw is (h ∙ ap holds (sym e) ∙ ap (λ k. holds (pc k)) (sym ((==_iff j i).0 is)))
    | inr not_i ↦ rw not_i refl
  ]
