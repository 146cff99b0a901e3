-- ===== src/Otp/Stale.antt =====
-- A slot that was given back, in front of an account's entry, leaves the account with two codes.
use ntut_network_and_system.Base.{ℕ, ◌≡◌, refl, true, false, some, List, ◌∷◌, arith, done}
use ntut_network_and_system.Base.Int.{pos}
use ntut_network_and_system.CString.{str_eq, str_eq_trans, str_eq_sym}
use ntut_network_and_system.Otp.{
  OtpEntry, OtpIpcRequest, OtpIpcResponse, used_by, free_or_same, find_entry, generate_otp,
  verify_otp,
}
use ntut_network_and_system.Otp.Issue.{IsTable, IsRequest}
use ntut_network_and_system.Otp.OneTime.{Presents, generate_otp-issues, presented, verify_otp-right}

first_free :
    (account : List ℕ) (e : OtpEntry) (db : List OtpEntry)
    → e.used ≡ false
    → find_entry (free_or_same account) 0 (e ∷ db) ≡ some 0
unfolding find_entry
first_free account e db h = ground arith

second_used :
    (account : List ℕ) (e0 e1 : OtpEntry) (rest : List OtpEntry)
    → e0.used ≡ false
    → used_by account e1 ≡ true
    → find_entry (used_by account) 0 (e0 ∷ e1 ∷ rest) ≡ some 1
unfolding find_entry
second_used account e0 e1 rest h k = ground arith

-- Where the first slot is free and the second holds a code of the account, a generation
-- succeeds. Presenting its code succeeds too, and after that the old code is accepted as well.
-- The entries have arrays of the right sizes and the account of the request is a C string in its
-- 32 bytes.
pub stale_code_revives :
    (rand_value now : ℕ) (req : OtpIpcRequest) (e0 e1 : OtpEntry) (rest : List OtpEntry)
    → IsTable (e0 ∷ e1 ∷ rest)
    → IsRequest req
    → e0.used ≡ false
    → used_by req.account e1 ≡ true
    → (res : OtpIpcResponse) × (db' : List OtpEntry) × (generate_otp rand_value now req
          (e0 ∷ e1 ∷ rest)
        ≡ done (res, db'))
      × (res.status ≡ pos 1)
      × ((fresh old : OtpIpcRequest)
          → Presents req.account res.otp_code fresh
          → Presents req.account e1.otp old
          → ((verify_otp fresh db').0.status ≡ pos 1)
            × ((verify_otp old (verify_otp fresh db').1).0.status ≡ pos 1))
stale_code_revives rand_value now req e0 e1 rest table ok free0 used1 =
    let db = e0 ∷ e1 ∷ rest in
    let room = first_free req.account e0 (e1 ∷ rest) free0 in
    let (res, e', run, status, code, ended, same_otp, same_account, used, sized) =
      generate_otp-issues rand_value now req db 0 table ok room in
    (
      res,
      e' ∷ e1 ∷ rest,
      run,
      status,
      λ fresh old p q.
          let (opened, left) =
            presented rand_value now req db 0 table ok room res e' same_otp same_account used fresh
              p in
          (
            opened,
            rw left
                (verify_otp-right old (record e' { used = false } ∷ e1 ∷ rest) 1 e1
                  (second_used old.account (record e' { used = false }) e1 rest refl
                    (other_id old.account q.0))
                  refl q.1).0,
          ),
    )
  where
    other_id : (other : List ℕ) → str_eq req.account other ≡ true → used_by other e1 ≡ true
    other_id other h = ground (
      arith,
      str_eq_trans req.account other e1.account h,
      str_eq_sym req.account e1.account,
      str_eq_sym other e1.account,
    )
