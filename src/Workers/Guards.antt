-- ===== src/Workers/Guards.antt =====
-- A mutex and the workers that hold it.
use ntut_network_and_system.Base.{
  ℕ, ◌≡◌, refl, ◌≢◌, inl, inr, Bool, true, false, ◌==◌, ==_iff, arith, Bool-cases, ◌∙◌, sym,
}
use ntut_network_and_system.Account.{Mutex, free, held, destroyed}

-- A free mutex is held by no worker, and a held one by exactly one.
abbrev pub Guards : Mutex → (ℕ → Bool) → Type 0
Guards free holds = (i : ℕ) → holds i ≡ false
Guards held holds = (i : ℕ) × (holds i ≡ true) × ((j : ℕ) → holds j ≡ true → j ≡ i)
Guards destroyed holds = ⊥

-- Worker `i` changes from holding the mutex to `b`, and no other worker changes.
pub record Switches (holds after : ℕ → Bool) (i : ℕ) (b : Bool) : Type 0 where
  pub mine : after i ≡ b
  pub others : (j : ℕ) → j ≢ i → after j ≡ holds j

pub Guards-keep :
    (m : Mutex) (holds after : ℕ → Bool)
    → ((j : ℕ) → after j ≡ holds j)
    → Guards m holds
    → Guards m after
Guards-keep free holds after same g = λ i. same i ∙ g i
Guards-keep held holds after same (i, own, only) =
    (i, same i ∙ own, λ j h. only j (sym (same j) ∙ h))
Guards-keep destroyed holds after same g = g

pub Guards-take :
    (holds after : ℕ → Bool) (i : ℕ)
    → Switches holds after i true
    → Guards free holds
    → Guards held after
Guards-take holds after i sw g = (
  i,
  sw.mine,
  λ j h. elim (Bool-cases (j == i)) [
    | inl is ↦ (==_iff j i).0 is
    | inr not_i ↦ ground (arith, sw.others j, g j)
  ],
)

pub Guards-release :
    (holds after : ℕ → Bool) (i : ℕ)
    → Switches holds after i false
    → holds i ≡ true
    → Guards held holds
    → Guards free after
Guards-release holds after i sw own (k, mine, only) = λ j. elim (Bool-cases (j == i)) [
  | inl is ↦ ground (arith, sw.mine)
  | inr not_i ↦ elim (Bool-cases (holds j)) [
    | inl h ↦ ground (arith, only j, only i)
    | inr h ↦ ground (arith, sw.others j)
  ]
]

-- Two workers never hold a mutex at the same time.
pub Guards-unique :
    (m : Mutex) (holds : ℕ → Bool) (i j : ℕ)
    → Guards m holds
    → holds i ≡ true
    → holds j ≡ true
    → i ≡ j
Guards-unique free holds i j g h k = cc (g i)
Guards-unique held holds i j (o, own, only) h k = only i h ∙ sym (only j k)
Guards-unique destroyed holds i j g h k = absurd g

-- A mutex that no worker holds is free.
pub Guards-free :
    (m : Mutex) (holds : ℕ → Bool) → Guards m holds → ((i : ℕ) → holds i ≡ false) → m ≡ free
Guards-free free holds g none_does = refl
Guards-free held holds (i, own, only) none_does = cc (none_does i)
Guards-free destroyed holds g none_does = absurd g
