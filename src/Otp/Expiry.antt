-- ===== src/Otp/Expiry.antt =====
-- The expiry time of an entry is written and never read.
use ntut_network_and_system.Base.{
  ℕ, zero, suc, ◌+◌, ◌≡◌, refl, ap, false, Option-cases, inl, inr, List, [], ◌∷◌, arith, get_elem?,
  set,
}
use mathlib.Core.Option
use ntut_network_and_system.Otp.{OtpEntry, OtpIpcRequest, used_by, find_entry, verify_otp}

abbrev retimed : (ℕ → ℕ) → OtpEntry → OtpEntry
retimed g e = record e { expiry = g e.expiry }

-- Every expiry time in the table moved by `g`.
unfoldable pub retime : (ℕ → ℕ) → List OtpEntry → List OtpEntry
retime g [] = []
retime g (e ∷ db) = record e { expiry = g e.expiry } ∷ retime g db

find_entry-retime :
    (g : ℕ → ℕ) (account : List ℕ) (k : ℕ) (db : List OtpEntry)
    → find_entry (used_by account) k (retime g db) ≡ find_entry (used_by account) k db
unfolding retime find_entry
find_entry-retime g account k [] = refl
find_entry-retime g account k (e ∷ db) = ground (arith, find_entry-retime g account (k + 1) db)

get_elem?-retime :
    (g : ℕ → ℕ) (db : List OtpEntry) (i : ℕ)
    → get_elem? (retime g db) i ≡ Option.map (retimed g) (get_elem? db i)
unfolding retime
get_elem?-retime g [] i = refl
get_elem?-retime g (e ∷ db) zero = refl
get_elem?-retime g (e ∷ db) (suc i) = get_elem?-retime g db i

set-retime :
    (g : ℕ → ℕ) (db : List OtpEntry) (i : ℕ) (e : OtpEntry)
    → set (retime g db) i (record e { expiry = g e.expiry }) ≡ retime g (set db i e)
unfolding retime
set-retime g [] i e = refl
set-retime g (x ∷ db) zero e = refl
set-retime g (x ∷ db) (suc i) e =
    ap (λ xs. record x { expiry = g x.expiry } ∷ xs) (set-retime g db i e)

-- A verification answers the same whatever the expiry times in the table are, and leaves the
-- same table but for them.
pub verify_otp-retime :
    (g : ℕ → ℕ) (req : OtpIpcRequest) (db : List OtpEntry)
    → ((verify_otp req (retime g db)).0 ≡ (verify_otp req db).0)
      × ((verify_otp req (retime g db)).1 ≡ retime g (verify_otp req db).1)
unfolding verify_otp
verify_otp-retime g req db = elim (Option-cases (find_entry (used_by req.account) 0 db)) [
  | inl absent ↦ (
    ground (arith, find_entry-retime g req.account 0 db),
    ground (arith, find_entry-retime g req.account 0 db),
  )
  | inr (i, h) ↦ elim (Option-cases (get_elem? db i)) [
    | inl out ↦ (
      ground (arith, find_entry-retime g req.account 0 db, get_elem?-retime g db i),
      ground (arith, find_entry-retime g req.account 0 db, get_elem?-retime g db i),
    )
    | inr (e, at) ↦ (
      ground (arith, find_entry-retime g req.account 0 db, get_elem?-retime g db i),
      ground (
        arith,
        find_entry-retime g req.account 0 db,
        get_elem?-retime g db i,
        set-retime g db i (record e { used = false }),
      ),
    )
  ]
]
