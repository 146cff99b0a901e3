-- ===== src/Server/Login.antt =====
-- Logging in: the banking server asks the OTP service for a code and later presents it.
use ntut_network_and_system.Base.{
  set, length-take, ℕ, ◌≡◌, refl, sym, ap, ◌∙◌, ◌<◌, true, Option, none, some, List, [], ◌∷◌, ◌++◌,
  arith, replicate, take, take_all, done, blocked, fault,
}
use ntut_network_and_system.Base.Int.{ℤ, pos}
use ntut_network_and_system.CString.{
  c_str, terminated, strncpy, c_str-strncpy, c_str-str_eq, terminated-append,
}
use ntut_network_and_system.Otp.{
  OtpEntry, OtpIpcRequest, OtpIpcResponse, decimal, free_or_same, find_entry, generate_otp,
  verify_otp, handle_client, otp_op_generate, otp_op_verify,
}
use ntut_network_and_system.Otp.Codes.{length-decimal}
use ntut_network_and_system.Otp.Issue.{code_of-lt, IsTable, IsRequest, code_of}
use ntut_network_and_system.Otp.OneTime.{presented, Presents, generate_otp-issues}
use ntut_network_and_system.Server.OtpClient.{
  OtpLink, otp_request, request_otp_generation, verify_otp_remote,
}

-- The OTP service at the other end of the socket, with the `rand()` and the time that it sees.
-- Where its process dies the read fails.
unfoldable pub otp_service : ℕ → ℕ → OtpLink (List OtpEntry)
unfolding handle_client
otp_service rand_value now = record {
  connects = λ db. true;
  exchange = λ req db. elim (handle_client rand_value now (some req) db) [
    | done (answer, db') ↦ (answer, db')
    | blocked ↦ (none, db)
    | fault ↦ (none, db)
  ];
}

service-connects :
    (rand_value now : ℕ) (db : List OtpEntry) → (otp_service rand_value now).connects db ≡ true
unfolding otp_service
service-connects rand_value now db = refl

-- What the other end answers to the two kinds of request.
exchange-generate :
    (rand_value now : ℕ) (req : OtpIpcRequest) (db db' : List OtpEntry) (res : OtpIpcResponse)
    → req.op_code ≡ otp_op_generate
    → generate_otp rand_value now req db ≡ done (res, db')
    → (otp_service rand_value now).exchange req db ≡ (some res, db')
unfolding otp_service
exchange-generate rand_value now req db db' res op run = ground arith

exchange-verify :
    (rand_value now : ℕ) (req : OtpIpcRequest) (db : List OtpEntry)
    → req.op_code ≡ otp_op_verify
    → (otp_service rand_value now).exchange req db
      ≡ (some (verify_otp req db).0, (verify_otp req db).1)
unfolding otp_service
exchange-verify rand_value now req db op = ground arith

-- The account in a request to the service: the first 31 characters of the caller's.
otp_request-account :
    (opcode : ℤ) (account : List ℕ) (otp_in : Option (List ℕ))
    → (terminated (otp_request opcode account otp_in).account ≡ true)
      × (c_str (otp_request opcode account otp_in).account ≡ take 31 (c_str account))
unfolding otp_request
otp_request-account opcode account otp_in =
    (terminated-append (strncpy 31 account), c_str-strncpy 31 account [])

otp_request-IsRequest :
    (opcode : ℤ) (account : List ℕ) (otp_in : Option (List ℕ))
    → IsRequest (otp_request opcode account otp_in)
otp_request-IsRequest opcode account otp_in =
    let (t, e) = otp_request-account opcode account otp_in in
    record {
      account_terminated = t;
      account_fits = rw e (omega (arith, length-take 31 (c_str account)));
    }

abbrev pub generation : List ℕ → OtpIpcRequest
generation account = otp_request otp_op_generate account none

abbrev presentation : List ℕ → List ℕ → OtpIpcRequest
presentation account otp = otp_request otp_op_verify account (some otp)

-- The code travels through the caller's arrays unharmed.
presentation-Presents :
    (account other otp code : List ℕ) (n : ℕ)
    → c_str other ≡ c_str account
    → c_str code ≡ decimal n
    → terminated code ≡ true
    → n < 1000000
    → c_str otp ≡ decimal n
    → Presents (generation account).account code (presentation other otp)
unfolding otp_request
presentation-Presents account other otp code n same text t small typed = (
  c_str-str_eq (strncpy 31 account ++ 0 ∷ []) (strncpy 31 other ++ 0 ∷ [])
      (terminated-append (strncpy 31 account)) (terminated-append (strncpy 31 other))
      (c_str-strncpy 31 account [] ∙ ap (take 31) (sym same) ∙ sym (c_str-strncpy 31 other [])),
  c_str-str_eq code (strncpy 7 otp ++ 0 ∷ []) t (terminated-append (strncpy 7 otp)) (
      text
      ∙ sym (
          c_str-strncpy 7 otp []
          ∙ ap (take 7) typed
          ∙ take_all 7 (decimal n) (length-decimal n small))),
)

generation_answered :
    (rand_value now : ℕ) (account : List ℕ) (db db' : List OtpEntry) (res : OtpIpcResponse)
    → generate_otp rand_value now (generation account) db ≡ done (res, db')
    → res.status ≡ pos 1
    → terminated account ≡ true
    → request_otp_generation (otp_service rand_value now) account (replicate 10 0) db
      ≡ done ((true, strncpy 8 res.otp_code ++ 0 ∷ 0 ∷ []), db')
unfolding request_otp_generation
generation_answered rand_value now account db db' res run status ended = ground (
  arith,
  service-connects rand_value now db,
  exchange-generate rand_value now (generation account) db db' res refl run,
)

presentation_answered :
    (rand_value now : ℕ) (account otp : List ℕ) (db : List OtpEntry)
    → (verify_otp (presentation account otp) db).0.status ≡ pos 1
    → terminated account ≡ true
    → verify_otp_remote (otp_service rand_value now) account otp db
      ≡ done (true, (verify_otp (presentation account otp) db).1)
unfolding verify_otp_remote
presentation_answered rand_value now account otp db status ended = ground (
  arith,
  service-connects rand_value now db,
  exchange-verify rand_value now (presentation account otp) db refl,
)

module _ (rand_value now : ℕ) (account : List ℕ) (db : List OtpEntry) (slot : ℕ)
    (table : IsTable db) (ended_id : terminated account ≡ true)
    (room : find_entry (free_or_same (generation account).account) 0 db ≡ some slot) where
  -- A code that the server has asked for: its own copy of it, and that it logs the account in.
  pub request_then_verify :
      (buf : List ℕ) × (db' : List OtpEntry) × (request_otp_generation
          (otp_service rand_value now)
          account
          (replicate 10 0)
          db
        ≡ done ((true, buf), db'))
      × (c_str buf ≡ decimal (code_of rand_value))
      × ((other otp : List ℕ) (rand' later : ℕ)
          → c_str other ≡ c_str account
          → c_str otp ≡ decimal (code_of rand_value)
          → terminated other ≡ true
          → (s' : List OtpEntry) × (verify_otp_remote (otp_service rand' later) other otp db'
              ≡ done (true, s')))
  request_then_verify =
      let req = generation account in
      let ok = otp_request-IsRequest otp_op_generate account none in
      let (res, e', run, status, code, ended, same_otp, same_account, used, sized) =
        generate_otp-issues rand_value now req db slot table ok room in
      (
        strncpy 8 res.otp_code ++ 0 ∷ 0 ∷ [],
        set db slot e',
        generation_answered rand_value now account db (set db slot e') res run status ended_id,
        c_str-strncpy 8 res.otp_code (0 ∷ [])
            ∙ ap (take 8) code
            ∙ take_all 8 (decimal (code_of rand_value))
                (omega (arith, length-decimal (code_of rand_value) (code_of-lt rand_value))),
        λ other otp rand' later same typed ended_other. (
          _,
          presentation_answered rand' later other otp (set db slot e')
              (presented rand_value now req db slot table ok room res e' same_otp same_account used
                (presentation other otp)
                (presentation-Presents account other otp res.otp_code (code_of rand_value) same code
                  ended (code_of-lt rand_value) typed)).0
              ended_other,
        ),
      )
