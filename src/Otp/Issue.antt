-- ===== src/Otp/Issue.antt =====
-- Issuing a code and presenting it: what a generated code opens, and how often.
use ntut_network_and_system.Base.{
  ℕ, ◌+◌, ◌-◌, ◌%◌, ◌<◌, ◌≡◌, refl, sym, ◌∙◌, true, false, some, List, arith, get_elem?, set,
  length, drop, take_all, codes, done,
}
use ntut_network_and_system.Base.Int.{pos}
use ntut_network_and_system.CString.{
  str_eq, c_str, terminated, strcpy, snprintf, strcpy-done, c_str-text, terminated-nul,
  c_str-str_eq, str_eq_trans, str_eq_sym, length-snprintf,
}
use ntut_network_and_system.Otp.{
  OtpEntry, OtpIpcRequest, OtpIpcResponse, decimal, free_or_same, used_by, find_entry,
  blank_response, with_message, fill_slot,
}
use ntut_network_and_system.Otp.Codes.{decimal-IsText, length-decimal, find_entry-set_start}

-- The arrays of an entry have the sizes of the struct.
pub record IsSized (e : OtpEntry) : Type 0 where
  pub account_length : length e.account ≡ 32
  pub otp_length : length e.otp ≡ 8

abbrev pub IsTable : List OtpEntry → Type 0
IsTable db = (i : ℕ) (e : OtpEntry) → get_elem? db i ≡ some e → IsSized e

-- The account name of a request is a C string inside its 32 bytes.
pub record IsRequest (req : OtpIpcRequest) : Type 0 where
  pub account_terminated : terminated req.account ≡ true
  pub account_fits : length (c_str req.account) < 32

abbrev pub code_of : ℕ → ℕ
code_of rand_value = rand_value % 900000 + 100000

pub code_of-lt : (rand_value : ℕ) → code_of rand_value < 1000000
code_of-lt rand_value = omega arith

snprintf-code :
    (buf : List ℕ) (n : ℕ)
    → length buf ≡ 8
    → n < 1000000
    → (c_str (snprintf buf (decimal n)) ≡ decimal n)
      × (terminated (snprintf buf (decimal n)) ≡ true)
      × (length (snprintf buf (decimal n)) ≡ 8)
unfolding snprintf
snprintf-code buf n size h =
    let text = decimal n in
    let kept = take_all (length buf - 1) text (omega (arith, length-decimal n h)) in
    (
      rw (kept, c_str-text text (drop (length text + 1) buf) (decimal-IsText n)),
      rw (kept, terminated-nul text (drop (length text + 1) buf)),
      length-snprintf buf text (omega arith) ∙ size,
    )

fill_slot_runs :
    (rand_value now : ℕ) (req : OtpIpcRequest) (db : List OtpEntry) (slot : ℕ) (e : OtpEntry)
    (account code : List ℕ)
    → get_elem? db slot ≡ some e
    → strcpy e.account req.account ≡ done account
    → strcpy blank_response.otp_code (snprintf e.otp (decimal (code_of rand_value))) ≡ done code
    → fill_slot rand_value now req db slot
      ≡ done (
        record (with_message blank_response (codes "OTP Generated")) {
          status = pos 1;
          otp_code = code;
        },
        set db slot (record {
          account = account;
          otp = snprintf e.otp (decimal (code_of rand_value));
          expiry = now + 300;
          used = true;
        }),
      )
unfolding fill_slot
fill_slot_runs rand_value now req db slot e account code at run run' =
    rw (at, fill_slot) (rw (run, run'))

-- What filling a slot leaves: the new entry and the answer hold the account and the code.
pub fill_slot-done :
    (rand_value now : ℕ) (req : OtpIpcRequest) (db : List OtpEntry) (slot : ℕ) (e : OtpEntry)
    → IsRequest req
    → get_elem? db slot ≡ some e
    → IsSized e
    → (res : OtpIpcResponse) × (e' : OtpEntry) × (fill_slot rand_value now req db slot
        ≡ done (res, set db slot e'))
      × (res.status ≡ pos 1)
      × (c_str res.otp_code ≡ decimal (code_of rand_value))
      × (terminated res.otp_code ≡ true)
      × (str_eq e'.otp res.otp_code ≡ true)
      × (str_eq e'.account req.account ≡ true)
      × (e'.used ≡ true)
      × IsSized e'
fill_slot-done rand_value now req db slot e ok at size =
    let otp = snprintf e.otp (decimal (code_of rand_value)) in
    let (text, nul, eight) =
      snprintf-code e.otp (code_of rand_value) size.otp_length (code_of-lt rand_value) in
    let (account, run, same, ended, len) =
      strcpy-done e.account req.account ok.account_terminated
        (omega (arith, ok.account_fits, size.account_length)) in
    let (code, run', same', ended', len') =
      strcpy-done blank_response.otp_code otp nul
        (rw text (omega (arith, length-decimal (code_of rand_value) (code_of-lt rand_value)))) in
    (
      record (with_message blank_response (codes "OTP Generated")) {
        status = pos 1;
        otp_code = code;
      },
      record { account = account; otp = otp; expiry = now + 300; used = true },
      fill_slot_runs rand_value now req db slot e account code at run run',
      refl,
      same' ∙ text,
      ended',
      c_str-str_eq otp code nul ended' (sym same'),
      c_str-str_eq account req.account ended ok.account_terminated same,
      refl,
      record { account_length = len ∙ size.account_length; otp_length = eight },
    )

-- The search for a slot and the search of a verification agree, once the slot is filled.
pub verify_finds :
    (account other : List ℕ) (slot : ℕ) (db : List OtpEntry) (e' : OtpEntry)
    → find_entry (free_or_same account) 0 db ≡ some slot
    → str_eq account other ≡ true
    → str_eq e'.account account ≡ true
    → e'.used ≡ true
    → find_entry (used_by other) 0 (set db slot e') ≡ some slot
verify_finds account other slot db e' h same holds used =
    find_entry-set_start (free_or_same account) (used_by other) slot db e'
      (λ e n. ground (arith, stricter e n)) (ground (arith, str_eq_trans e'.account account other))
      (h)
  where
    stricter : (e : OtpEntry) → free_or_same account e ≡ false → used_by other e ≡ false
    stricter e n = ground (
      arith,
      str_eq_trans account other e.account same,
      str_eq_sym account e.account,
      str_eq_sym other e.account,
    )
