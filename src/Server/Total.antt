-- ===== src/Server/Total.antt =====
-- Every request whose announced length is in range is answered: no handler waits or reads outside
-- an object, the answer fits its packet, and the table stays well formed.
use ntut_network_and_system.Base.{
  none, ◌==◌, ◌≡◌, refl, inl, inr, Bool-cases, ◌++◌, length, replicate, codes, Run, done, ◌>>=◌,
}
use ntut_network_and_system.Base.Int.{pos}
use ntut_network_and_system.CString.{c_str}
use ntut_network_and_system.Float.{FloatOps, IsOrdered, IsEncoded}
use ntut_network_and_system.Account.{AccountDb}
use ntut_network_and_system.Account.Invariant.{IsValid}
use ntut_network_and_system.Memory.{ntohs}
use ntut_network_and_system.Protocol.{BankingPacket, op_response}
use ntut_network_and_system.Protocol.Codec.{packed}
use ntut_network_and_system.Protocol.Bounds.{InBounds}
use ntut_network_and_system.Response.{BankingResponse, response_bytes}
use ntut_network_and_system.Response.RoundTrip.{IsSized, pack_response-packed}
use ntut_network_and_system.Server.OtpClient.{
  OtpLink, request_otp_generation-done, verify_otp_remote-done,
}
use ntut_network_and_system.Server.Request.{
  invalid_format, Locals, failure, otp_field, process_req_otp, process_login, dispatch,
  process_request,
}
use ntut_network_and_system.Server.Handlers.{
  IsFrame, IsNamed, unpack_into, failure-IsSized, answer-IsSized, Ends, invalid_format-IsSized,
  process_create-Ends, process_deposit-Ends, process_withdraw-Ends, process_balance-Ends,
}

module _ {F : Type 0} (f : FloatOps F) (ord : IsOrdered f) (locals : Locals F)
    (frame : IsFrame locals) (db : AccountDb F) (v : IsValid f db) (p : BankingPacket)
    (whole : length p.payload ≡ 1024) (b : InBounds p) (named : IsNamed p) where
  -- The switch has ended well.
  abbrev Answers : {S : Type 0} → Run (BankingResponse F × AccountDb F × S) → Type 0
  Answers {S} m =
      (r : BankingResponse F) × (db' : AccountDb F) × (s' : S) × (m ≡ done (r, db', s'))
      × IsSized r
      × IsValid f db'

  module _ {S : Type 0} (link : OtpLink S) (s : S) where
    process_req_otp-ends :
        (r : BankingResponse F) × (s' : S) × (process_req_otp f link locals s p ≡ done (r, s'))
        × IsSized r
    unfolding process_req_otp
    process_req_otp-ends = elim (unpack_into p (locals.block 20) 20 whole b named (frame 20)) [
      | inr (out, run) ↦ (
        invalid_format f,
        s,
        rw run,
        invalid_format-IsSized f ord locals frame db v p whole b named,
      )
      | inl (req, run, ended) ↦
          let (ok, code, s', came) =
            request_otp_generation-done link req (replicate 10 0) s ended in
          elim (Bool-cases ok) [
            | inl good ↦ (
              _,
              s',
              rw (run, came, good),
              answer-IsSized (record { code = pos 0; written = none; db = db }) (inl refl)
                  (codes "OTP Generated: " ++ c_str code) f.zero_f,
            )
            | inr bad ↦ (
              failure f (codes "OTP Generation Failed"),
              s',
              rw (run, came, bad),
              failure-IsSized f (codes "OTP Generation Failed"),
            )
          ]
    ]

    process_login-ends :
        (r : BankingResponse F) × (s' : S) × (process_login f link locals s p ≡ done (r, s'))
        × IsSized r
    unfolding process_login
    process_login-ends = elim (unpack_into p (locals.block 30) 30 whole b named (frame 30)) [
      | inr (out, run) ↦ (
        invalid_format f,
        s,
        rw run,
        invalid_format-IsSized f ord locals frame db v p whole b named,
      )
      | inl (req, run, ended) ↦
          let (ok, s', came) = verify_otp_remote-done link req (otp_field req) s ended in
          elim (Bool-cases ok) [
            | inl good ↦ (
              _,
              s',
              rw (run, came, good),
              answer-IsSized (record { code = pos 0; written = none; db = db }) (inl refl)
                  (codes "Login Successful") f.zero_f,
            )
            | inr bad ↦ (
              failure f (codes "Invalid OTP"),
              s',
              rw (run, came, bad),
              failure-IsSized f (codes "Invalid OTP"),
            )
          ]
    ]

    table_case :
        (m : Run (BankingResponse F × AccountDb F))
        → Ends f ord locals frame db v p whole b named m
        → Answers (m >>= λ x. done (x.0, x.1, s))
    table_case m (r, db', run, sized, v') = (r, db', s, rw run, sized, v')

    otp_case :
        (m : Run (BankingResponse F × S))
        → (r : BankingResponse F) × (s' : S) × (m ≡ done (r, s')) × IsSized r
        → Answers (m >>= λ x. done (x.0, db, x.1))
    otp_case m (r, s', run, sized) = (r, db, s', rw run, sized, v)

    dispatch-Answers : Answers (dispatch f link locals db s p)
    unfolding dispatch
    dispatch-Answers =
        let opcode = ntohs p.header.op_code in
        elim (Bool-cases (opcode == 1)) [
          | inl is ↦
              rw is (table_case _ (process_create-Ends f ord locals frame db v p whole b named))
          | inr n1 ↦ rw n1 (elim (Bool-cases (opcode == 2)) [
            | inl is ↦
                rw is (table_case _ (process_deposit-Ends f ord locals frame db v p whole b named))
            | inr n2 ↦ rw n2 (elim (Bool-cases (opcode == 3)) [
              | inl is ↦
                  rw is
                    (table_case _ (process_withdraw-Ends f ord locals frame db v p whole b named))
              | inr n3 ↦ rw n3 (elim (Bool-cases (opcode == 5)) [
                | inl is ↦ rw is (otp_case _ process_req_otp-ends)
                | inr n5 ↦ rw n5 (elim (Bool-cases (opcode == 6)) [
                  | inl is ↦ rw is (otp_case _ process_login-ends)
                  | inr n6 ↦ rw n6 (elim (Bool-cases (opcode == 4)) [
                    | inl is ↦ rw is (
                        table_case _ (process_balance-Ends f ord locals frame db v p whole b named))
                    | inr n4 ↦ rw n4 (
                      failure f (codes "Unknown operation"),
                      db,
                      s,
                      refl,
                      failure-IsSized f (codes "Unknown operation"),
                      v,
                    )
                  ])
                ])
              ])
            ])
          ])
        ]

    -- A request is answered by a packet that holds a whole response.
    pub process_request-Answers :
        IsEncoded f
        → (r : BankingResponse F) × (db' : AccountDb F) × (s' : S) × (process_request f link locals
              db s p
            ≡ done (packed locals.rand_id op_response (response_bytes f r), db', s'))
          × (dispatch f link locals db s p ≡ done (r, db', s'))
          × IsSized r
          × IsValid f db'
    unfolding process_request
    process_request-Answers enc =
        let (r, db', s', run, sized, v') = dispatch-Answers in
        (
          r,
          db',
          s',
          rw (run, pack_response-packed f enc r sized locals.rand_id locals.packet),
          run,
          sized,
          v',
        )
