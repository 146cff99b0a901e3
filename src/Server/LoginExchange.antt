-- ===== src/Server/LoginExchange.antt =====
-- The two requests of a login, as packets: OP_REQ_OTP, and OP_LOGIN with the code it told.
use ntut_network_and_system.Base.{
  some, ℕ, ◌≡◌, refl, ap, ◌∙◌, true, List, ◌++◌, arith, codes, replicate, length, length-append,
  drop-append, done,
}
use ntut_network_and_system.Base.Int.{pos}
use ntut_network_and_system.CString.{c_str, c_str-append, terminated-append_left}
use ntut_network_and_system.Float.{FloatOps}
use ntut_network_and_system.Otp.{OtpEntry, decimal, free_or_same, find_entry}
use ntut_network_and_system.Otp.Issue.{IsTable, code_of}
use ntut_network_and_system.Protocol.{op_req_otp, op_login}
use ntut_network_and_system.Protocol.Codec.{packed}
use ntut_network_and_system.Response.{BankingResponse}
use ntut_network_and_system.Server.OtpClient.{OtpLink, request_otp_generation, verify_otp_remote}
use ntut_network_and_system.Server.Request.{
  Locals, success, print_message, process_req_otp, process_login,
}
use ntut_network_and_system.Server.Login.{otp_service, generation, request_then_verify}
use ntut_network_and_system.Server.Handlers.{IsFrame}
use ntut_network_and_system.Server.Wire.{IsId, unpack_struct}

module _ {F : Type 0} (f : FloatOps F) (locals : Locals F) (frame : IsFrame locals) {S : Type 0}
    (link : OtpLink S) where
  req_otp_told :
      (rand_id : ℕ) (id buf : List ℕ) (s s' : S)
      → IsId id
      → request_otp_generation link id (replicate 10 0) s ≡ done ((true, buf), s')
      → (r : BankingResponse F) × (process_req_otp f link locals s (packed rand_id op_req_otp id)
          ≡ done (r, s'))
        × (r.status ≡ pos 0)
        × (r.message ≡ print_message (codes "OTP Generated: " ++ c_str buf))
  unfolding process_req_otp
  req_otp_told rand_id id buf s s' ok run = (
    success f (codes "OTP Generated: " ++ c_str buf),
    rw (
      unpack_struct f rand_id op_req_otp id (locals.block 20) 20 ok.id_length (frame 20)
          (omega arith),
      run,
    ),
    refl,
    refl,
  )

  login_accepted :
      (rand_id : ℕ) (id otp : List ℕ) (s s' : S)
      → IsId id
      → length otp ≡ 10
      → verify_otp_remote link (id ++ otp) otp s ≡ done (true, s')
      → (r : BankingResponse F) × (process_login f link locals s
            (packed rand_id op_login (id ++ otp))
          ≡ done (r, s'))
        × (r.status ≡ pos 0)
        × (r.message ≡ print_message (codes "Login Successful"))
  unfolding process_login
  login_accepted rand_id id otp s s' ok size good = (
    success f (codes "Login Successful"),
    rw (
      unpack_struct f rand_id op_login (id ++ otp) (locals.block 30) 30
          (length-append id otp ∙ omega (arith, ok.id_length)) (frame 30) (omega arith),
      drop-append 20 id otp ok.id_length,
      good,
    ),
    refl,
    refl,
  )

-- The request for a code of an account whose id is a C string in its 20 bytes is answered with
-- the code, where the OTP table has a slot for the account. The login that presents that code,
-- as a C string in an array of 10 bytes, succeeds when it is the next request to the OTP
-- service, whatever the time and the random numbers are then. The entries of the OTP table have
-- arrays of the right sizes, and so have the server's uninitialised structs.
pub login_exchange :
    {F : Type 0} (f : FloatOps F) (locals locals' : Locals F) (id otp : List ℕ) (db : List OtpEntry)
    (slot : ℕ) (rand_value now rand_id rand_id' rand' later : ℕ)
    → IsFrame locals
    → IsFrame locals'
    → IsId id
    → IsTable db
    → find_entry (free_or_same (generation id).account) 0 db ≡ some slot
    → length otp ≡ 10
    → c_str otp ≡ decimal (code_of rand_value)
    → (r r' : BankingResponse F) × (db' db'' : List OtpEntry) × (process_req_otp f
          (otp_service rand_value now)
          locals
          db
          (packed rand_id op_req_otp id)
        ≡ done (r, db'))
      × (r.status ≡ pos 0)
      × (r.message ≡ print_message (codes "OTP Generated: " ++ decimal (code_of rand_value)))
      × (process_login f
            (otp_service rand' later)
            locals'
            db'
            (packed rand_id' op_login (id ++ otp))
          ≡ done (r', db''))
      × (r'.status ≡ pos 0)
      × (r'.message ≡ print_message (codes "Login Successful"))
login_exchange f locals locals' id otp db slot rand_value now rand_id rand_id' rand' later frame
      frame' ok table room size typed =
    let (buf, db', run, text, good) =
      request_then_verify rand_value now id db slot table ok.id_terminated room in
    let (r, ends, status, message) =
      req_otp_told f locals frame (otp_service rand_value now) rand_id id buf db db' ok run in
    let (db'', accepted) =
      good (id ++ otp) otp rand' later (c_str-append id otp ok.id_terminated) typed
        (terminated-append_left id otp ok.id_terminated) in
    let (r', ends', status', message') =
      login_accepted f locals' frame' (otp_service rand' later) rand_id' id otp db' db'' ok size
        accepted in
    (
      r,
      r',
      db',
      db'',
      ends,
      status,
      message ∙ ap (λ t. print_message (codes "OTP Generated: " ++ t)) text,
      ends',
      status',
      message',
    )
