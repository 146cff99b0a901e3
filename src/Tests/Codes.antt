-- ===== src/Tests/Codes.antt =====
-- One-time codes.
use ntut_network_and_system.Base.{
  zero, suc, some_eq, ◌+◌, ℕ, ◌≡◌, refl, List, [], ◌∷◌, ◌++◌, codes, replicate, some, true, false,
  done, arith,
}
use mathlib.Core.Path.{subst}
use ntut_network_and_system.Base.Int.{pos}
use ntut_network_and_system.CString.{str_eq, c_str, terminated}
use ntut_network_and_system.Otp.{
  OtpEntry, OtpIpcRequest, OtpIpcResponse, free_or_same, find_entry, generate_otp, verify_otp,
  otp_op_generate, used_by,
}
use ntut_network_and_system.Otp.Issue.{IsSized, IsTable, IsRequest}
use ntut_network_and_system.Otp.OneTime.{OnlySlot, Presents, code_opens_once}
use ntut_network_and_system.Otp.Stale.{stale_code_revives}
use ntut_network_and_system.Otp.Expiry.{retime, verify_otp-retime}

abbrev name : List ℕ
name = codes "alice" ++ replicate 27 0

abbrev empty_slot : OtpEntry
empty_slot = record { account = replicate 32 0; otp = replicate 8 0; expiry = 0; used = false }

abbrev old_code : OtpEntry
old_code = record { account = name; otp = codes "123456" ++ 0 ∷ 0 ∷ []; expiry = 300; used = true }

abbrev two_slots : List OtpEntry
two_slots = empty_slot ∷ empty_slot ∷ []

abbrev stale_slots : List OtpEntry
stale_slots = empty_slot ∷ old_code ∷ []

abbrev asks : OtpIpcRequest
asks = record { op_code = otp_op_generate; account = name; otp_code = replicate 8 0 }

asks-IsRequest : IsRequest asks
unfolding terminated c_str
asks-IsRequest = record { account_terminated = refl; account_fits = omega arith }

IsTable-pair : (e e' : OtpEntry) → IsSized e → IsSized e' → IsTable (e ∷ e' ∷ [])
IsTable-pair e e' s s' zero x h = subst IsSized (some_eq h) s
IsTable-pair e e' s s' (suc zero) x h = subst IsSized (some_eq h) s'
IsTable-pair e e' s s' (suc (suc i)) x h = cc

empty_slot-IsSized : IsSized empty_slot
empty_slot-IsSized = record { account_length = refl; otp_length = refl }

old_code-IsSized : IsSized old_code
old_code-IsSized = record { account_length = refl; otp_length = refl }

two_slots-room : find_entry (free_or_same name) 0 two_slots ≡ some 0
unfolding find_entry
two_slots-room = refl

two_slots-OnlySlot : OnlySlot name 0 two_slots
two_slots-OnlySlot zero e h used = refl
two_slots-OnlySlot (suc zero) e h used = ground arith
two_slots-OnlySlot (suc (suc j)) e h used = cc

code_opens_once_example :
    (res : OtpIpcResponse) × (db' : List OtpEntry) × (generate_otp 4242 1000 asks two_slots
      ≡ done (res, db'))
    × (res.status ≡ pos 1)
    × ((vreq again : OtpIpcRequest)
        → Presents name res.otp_code vreq
        → str_eq name again.account ≡ true
        → ((verify_otp vreq db').0.status ≡ pos 1)
          × ((verify_otp again (verify_otp vreq db').1).0.status ≡ pos 0))
code_opens_once_example =
    code_opens_once 4242 1000 asks two_slots 0
      (IsTable-pair empty_slot empty_slot empty_slot-IsSized empty_slot-IsSized) asks-IsRequest
      two_slots-room two_slots-OnlySlot

old_code-used : used_by name old_code ≡ true
unfolding str_eq
old_code-used = refl

stale_code_revives_example :
    (res : OtpIpcResponse) × (db' : List OtpEntry) × (generate_otp 4242 1000 asks stale_slots
      ≡ done (res, db'))
    × (res.status ≡ pos 1)
    × ((fresh old : OtpIpcRequest)
        → Presents name res.otp_code fresh
        → Presents name old_code.otp old
        → ((verify_otp fresh db').0.status ≡ pos 1)
          × ((verify_otp old (verify_otp fresh db').1).0.status ≡ pos 1))
stale_code_revives_example =
    stale_code_revives 4242 1000 asks empty_slot old_code []
      (IsTable-pair empty_slot old_code empty_slot-IsSized old_code-IsSized) asks-IsRequest refl
      old_code-used

verify_otp-retime_example :
    ((verify_otp asks (retime (λ t. t + 9000) stale_slots)).0 ≡ (verify_otp asks stale_slots).0)
    × ((verify_otp asks (retime (λ t. t + 9000) stale_slots)).1
        ≡ retime (λ t. t + 9000) (verify_otp asks stale_slots).1)
verify_otp-retime_example = verify_otp-retime (λ t. t + 9000) asks stale_slots
