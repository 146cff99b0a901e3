-- ===== src/Server/OtpClient.antt =====
-- `call_otp_service`, `request_otp_generation` and `verify_otp_remote`, server/banking_server.c.
-- What lies behind the socket is a parameter: whether the socket is made and connected, and the
-- answer to a request, or none where the read fails, with the state of the service after it.
use ntut_network_and_system.Base.{
  ℕ, Bool, true, false, Option, none, some, List, [], ◌∷◌, ◌++◌, if◌then◌else◌, drop, replicate,
  ◌≡◌, refl, not, Run, done, fault, ◌>>=◌, Bool-cases, inl, inr,
}
use ntut_network_and_system.Base.Int.{ℤ, pos, eqb_ℤ}
use ntut_network_and_system.CString.{strncpy, strncpy_inside, terminated}
use ntut_network_and_system.Otp.{OtpIpcRequest, OtpIpcResponse, otp_op_generate, otp_op_verify}

pub record OtpLink (S : Type 0) : Type 0 where
  pub connects : S → Bool
  pub exchange : OtpIpcRequest → S → Option OtpIpcResponse × S

-- The request packet; `otp_in` may be NULL.
unfoldable pub otp_request : ℤ → List ℕ → Option (List ℕ) → OtpIpcRequest
otp_request opcode account otp_in = record {
  op_code = opcode;
  account = strncpy 31 account ++ 0 ∷ [];
  otp_code = elim otp_in [ none ↦ replicate 8 0 | some code ↦ strncpy 7 code ++ 0 ∷ [] ];
}

-- Whether the call succeeded, and the caller's `otp_out` array after it.
abbrev pub otp_result : Option OtpIpcResponse → List ℕ → Bool × List ℕ
otp_result none otp_out = (false, otp_out)
otp_result (some res) otp_out =
    if eqb_ℤ res.status (pos 1)
    then (true, strncpy 8 res.otp_code ++ drop 8 otp_out)
    else (false, otp_out)

module _ {S : Type 0} (link : OtpLink S) where
  -- The account is read up to its NUL or its 31st byte, which is a fault where the struct that it
  -- stands in ends before that; the seven bytes of a code are inside its array of ten. Where
  -- `otp_out` is NULL the array is a dummy, and is dropped.
  unfoldable pub call_otp_service :
      ℤ → List ℕ → Option (List ℕ) → List ℕ → S → Run ((Bool × List ℕ) × S)
  unfolding otp_request
  call_otp_service opcode account otp_in otp_out s =
      if not (link.connects s)
      then done ((false, otp_out), s)
      else if not (strncpy_inside 31 account)
      then fault
      else (let (answer, s') = link.exchange (otp_request opcode account otp_in) s in
          done (otp_result answer otp_out, s'))

  unfoldable pub request_otp_generation : List ℕ → List ℕ → S → Run ((Bool × List ℕ) × S)
  unfolding call_otp_service
  request_otp_generation account out_otp s = call_otp_service otp_op_generate account none out_otp s

  unfoldable pub verify_otp_remote : List ℕ → List ℕ → S → Run (Bool × S)
  unfolding call_otp_service
  verify_otp_remote account otp s = do
    ((ok, otp_out), s') ← call_otp_service otp_op_verify account (some otp) [] s
    done (ok, s')

  call_otp_service-done :
      (opcode : ℤ) (account : List ℕ) (otp_in : Option (List ℕ)) (otp_out : List ℕ) (s : S)
      → terminated account ≡ true
      → (ok : Bool) × (out : List ℕ) × (s' : S) × (call_otp_service opcode account otp_in otp_out s
          ≡ done ((ok, out), s'))
  unfolding call_otp_service
  call_otp_service-done opcode account otp_in otp_out s ended =
      let (answer, s') = link.exchange (otp_request opcode account otp_in) s in
      elim (Bool-cases (link.connects s)) [
        | inr refused ↦ (false, otp_out, s, rw refused refl)
        | inl joined ↦ (
          (otp_result answer otp_out).0,
          (otp_result answer otp_out).1,
          s',
          rw (joined, ended) refl,
        )
      ]

  -- Either call comes back where the account is a C string.
  pub request_otp_generation-done :
      (account out_otp : List ℕ) (s : S)
      → terminated account ≡ true
      → (ok : Bool) × (out : List ℕ) × (s' : S) × (request_otp_generation account out_otp s
          ≡ done ((ok, out), s'))
  unfolding request_otp_generation
  request_otp_generation-done account out_otp s ended =
      call_otp_service-done otp_op_generate account none out_otp s ended

  pub verify_otp_remote-done :
      (account otp : List ℕ) (s : S)
      → terminated account ≡ true
      → (ok : Bool) × (s' : S) × (verify_otp_remote account otp s ≡ done (ok, s'))
  unfolding verify_otp_remote
  verify_otp_remote-done account otp s ended =
      let (ok, out, s', run) = call_otp_service-done otp_op_verify account (some otp) [] s ended in
      (ok, s', rw run refl)
