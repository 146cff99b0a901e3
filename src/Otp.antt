-- ===== src/Otp.antt =====
-- The OTP service: common/include/otp_ipc.h and `handle_client` of otp_server/otp_server.c. The
-- table of codes is a list of entries; `rand()` and `time(NULL)` are parameters. A request is the
-- struct as it stands after the read. The log lines are left out.
pub mod Codes
pub mod Issue
pub mod OneTime
pub mod Stale
pub mod Expiry
use ntut_network_and_system.Base.{
  ℕ, zero, suc, ◌+◌, ◌/◌, ◌%◌, ◌≡◌, Bool, true, false, not, ◌&&◌, ◌||◌, Option, none, some, List,
  [], ◌∷◌, ◌++◌, if◌then◌else◌, ltb, get_elem?, set, replicate, codes, Run, done, fault, ◌>>=◌,
}
use ntut_network_and_system.Base.Int.{ℤ, pos, eqb_ℤ}
use ntut_network_and_system.CString.{str_eq, strcpy, snprintf}

abbrev pub max_otps : ℕ
max_otps = 100

-- OTP_OP_GENERATE and OTP_OP_VERIFY
abbrev pub otp_op_generate : ℤ
otp_op_generate = pos 1

abbrev pub otp_op_verify : ℤ
otp_op_verify = pos 2

pub record OtpEntry : Type 0 where
  pub account : List ℕ
  pub otp : List ℕ
  pub expiry : ℕ
  pub used : Bool

pub record OtpIpcRequest : Type 0 where
  pub op_code : ℤ
  pub account : List ℕ
  pub otp_code : List ℕ

pub record OtpIpcResponse : Type 0 where
  pub status : ℤ
  pub otp_code : List ℕ
  pub message : List ℕ

-- The decimal digits that `%d` prints; ten of them are enough for an `int`.
unfoldable pub decimal_loop : ℕ → ℕ → List ℕ → List ℕ
decimal_loop zero n digits = digits
decimal_loop (suc k) n digits =
    let more = decimal_loop k (n / 10) ((b'0' + n % 10) ∷ digits) in
    if ltb n 10 then (b'0' + n) ∷ digits else more

unfoldable pub decimal : ℕ → List ℕ
unfolding decimal_loop
decimal n = decimal_loop 10 n []

abbrev pub free_or_same : List ℕ → OtpEntry → Bool
free_or_same account e = not e.used || str_eq e.account account

abbrev pub used_by : List ℕ → OtpEntry → Bool
used_by account e = e.used && str_eq e.account account

-- The two search loops: the first entry that passes the test.
unfoldable pub find_entry : (OtpEntry → Bool) → ℕ → List OtpEntry → Option ℕ
find_entry test i [] = none
find_entry test i (e ∷ db) =
    let rest = find_entry test (i + 1) db in if test e then some i else rest

-- `memset(&res, 0, sizeof(res))`
abbrev pub blank_response : OtpIpcResponse
blank_response = record { status = pos 0; otp_code = replicate 8 0; message = replicate 64 0 }

-- `strcpy(res.message, text)` into the cleared message.
abbrev pub with_message : OtpIpcResponse → List ℕ → OtpIpcResponse
with_message r text = record r { message = snprintf r.message text }

-- Filling the slot that was found, and the answer.
unfoldable pub fill_slot :
    ℕ → ℕ → OtpIpcRequest → List OtpEntry → ℕ → Run (OtpIpcResponse × List OtpEntry)
fill_slot rand_value now req db slot = elim (get_elem? db slot) [
  | none ↦ fault
  | some e ↦ do
    let code = rand_value % 900000 + 100000
    let otp = snprintf e.otp (decimal code)
    account ← strcpy e.account req.account
    otp_code ← strcpy blank_response.otp_code otp
    done (
      record (with_message blank_response (codes "OTP Generated")) {
        status = pos 1;
        otp_code = otp_code;
      },
      set db slot (record { account = account; otp = otp; expiry = now + 300; used = true }),
    )
]

unfoldable pub generate_otp :
    ℕ → ℕ → OtpIpcRequest → List OtpEntry → Run (OtpIpcResponse × List OtpEntry)
generate_otp rand_value now req db = elim (find_entry (free_or_same req.account) 0 db) [
  | none ↦ done (with_message blank_response (codes "Server Busy"), db)
  | some slot ↦ fill_slot rand_value now req db slot
]

-- The table after the search of a verification, and whether the code was the right one.
unfoldable pub consume_otp : OtpIpcRequest → List OtpEntry → Bool × List OtpEntry
unfolding find_entry
consume_otp req db = elim (find_entry (used_by req.account) 0 db) [
  | none ↦ (false, db)
  | some i ↦ elim (get_elem? db i) [
    | none ↦ (false, db)
    | some e ↦
        if str_eq e.otp req.otp_code
        then (true, set db i (record e { used = false }))
        else (false, db)
  ]
]

unfoldable pub verify_otp : OtpIpcRequest → List OtpEntry → OtpIpcResponse × List OtpEntry
unfolding consume_otp
verify_otp req db =
    let (found, db') = consume_otp req db in
    if found
    then (record (with_message blank_response (codes "Verified")) { status = pos 1 }, db')
    else (with_message blank_response (codes "Invalid OTP"), db')

-- One connection: `none` as the request is a read that fails or ends, which is not answered.
unfoldable pub handle_client :
    ℕ → ℕ → Option OtpIpcRequest → List OtpEntry → Run (Option OtpIpcResponse × List OtpEntry)
unfolding generate_otp verify_otp
handle_client rand_value now none db = done (none, db)
handle_client rand_value now (some req) db =
    if eqb_ℤ req.op_code otp_op_generate
    then (do (res, db') ← generate_otp rand_value now req db; done (some res, db'))
    else if eqb_ℤ req.op_code otp_op_verify
    then (let (res, db') = verify_otp req db in done (some res, db'))
    else done (some blank_response, db)

-- `memset(otp_db, 0, sizeof(otp_db))`
unfoldable pub blank_table : List OtpEntry
blank_table =
    replicate max_otps
      (record { account = replicate 32 0; otp = replicate 8 0; expiry = 0; used = false })
