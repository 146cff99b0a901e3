-- ===== src/StressClient/Rounds.antt =====
-- What a thread of the stress client comes to, whatever the server answers.
use ntut_network_and_system.Base.{
  ℕ, ◌+◌, ◌≤◌, ◌≡◌, refl, ◌∙◌, inl, inr, Bool-cases, Option, Option-cases, none, some, List, [],
  ◌∷◌, ◌++◌, All, length, length-append, arith, done, ◌>>=◌, Run,
}
use mathlib.Core.Path.{subst}
use ntut_network_and_system.Base.Int.{ℤ, pos, neg, eqb_ℤ}
use ntut_network_and_system.BankingClient.{TlsLink}
use ntut_network_and_system.CString.{c_str, strncpy, length-strncpy}
use ntut_network_and_system.Float.{FloatOps, IsEncoded}
use ntut_network_and_system.Protocol.{
  BankingPacket, unpack_request, pack_request, op_create_account, op_deposit, op_req_otp, op_login,
}
use ntut_network_and_system.Protocol.Bounds.{InBounds, unpack_request_safe}
use ntut_network_and_system.Protocol.Codec.{packed, pack_request-packed}
use ntut_network_and_system.Response.{response_of, unpack_response}
use ntut_network_and_system.StressClient.{
  Stats, Amounts, Buffers, Round, after_colon, copy_otp, read_response, perform_request, succeeded,
  login_and_deposit, otp_flow, one_flow, count_flow, flows,
}

-- What arrives is nothing, or a packet in memory whose announced length is in range.
abbrev pub IsReply : Option BankingPacket → Type 0
IsReply none = Unit
IsReply (some p) = (length p.payload ≡ 1024) × InBounds p

pub record IsCalm {S : Type 0} (link : TlsLink S) : Type 0 where
  pub replies : (p : BankingPacket) (s : S) → IsReply (link.tls_read p s).0

abbrev pub IsReady : {F : Type 0} → Round F → Type 0
IsReady round = length round.response ≡ 268

module _ {S : Type 0} (link : TlsLink S) (calm : IsCalm link) where
  -- A request that comes back, with the response struct at its size.
  abbrev Returns : Run ((ℤ × List ℕ) × S) → Type 0
  Returns run =
      (code : ℤ) × (response : List ℕ) × (s : S) × (run ≡ done ((code, response), s))
      × (length response ≡ 268)

  unpack_response-Returns :
      (p : BankingPacket) (response : List ℕ) (s : S)
      → length response ≡ 268
      → IsReply (some p)
      → Returns (do out ← unpack_response p response; done (out, s))
  unfolding unpack_response
  unpack_response-Returns p response s size (whole, b) =
      let (code, out, run, same, how) = unpack_request_safe p whole response b in
      let run268 = subst (λ n. unpack_request p response n ≡ done (code, out)) size run in
      (code, out, s, rw run268 refl, same ∙ size)

  read_response-Returns :
      (frame : Buffers) (response : List ℕ) (s : S)
      → length response ≡ 268
      → Returns (read_response link frame response s)
  unfolding read_response
  read_response-Returns frame response s size =
      elim (Option-cases (link.tls_read frame.resp_packet s).0) [
        | inl nothing ↦ (
          neg 1,
          response,
          (link.tls_read frame.resp_packet s).1,
          rw (nothing, read_response) refl,
          size,
        )
        | inr (p, got) ↦
            let (code, out, s', run, same) =
              unpack_response-Returns p response (link.tls_read frame.resp_packet s).1 size
                (subst IsReply got (calm.replies frame.resp_packet s)) in
            (code, out, s', rw (got, read_response) run, same)
      ]

  perform_request-Returns :
      (frame : Buffers) (opcode : ℕ) (block : List ℕ) (n : ℕ) (response : List ℕ) (s : S)
      → length block ≡ n
      → n ≤ 1024
      → length response ≡ 268
      → Returns (perform_request link frame opcode block n response s)
  unfolding perform_request
  perform_request-Returns frame opcode block n response s is le size =
      let pack =
        pack_request-packed frame.rand_id frame.req_packet opcode block (omega (arith, is)) in
      let packs : pack_request frame.rand_id frame.req_packet opcode block n
          ≡ done (pos 0, packed frame.rand_id opcode block) =
        subst
          (λ m.
            pack_request frame.rand_id frame.req_packet opcode block m
            ≡ done (pos 0, packed frame.rand_id opcode block))
          is pack in
      elim (Bool-cases (link.tls_write (packed frame.rand_id opcode block) s).0) [
        | inr failed ↦ (
          neg 1,
          response,
          (link.tls_write (packed frame.rand_id opcode block) s).1,
          rw (packs, failed) refl,
          size,
        )
        | inl sent ↦
            let (code, out, s', run, same) =
              read_response-Returns frame response
                (link.tls_write (packed frame.rand_id opcode block) s).1 size in
            (code, out, s', rw (packs, sent) run, same)
      ]

module _ {F : Type 0} (f : FloatOps F) (enc : IsEncoded f) (amounts : Amounts F) {S : Type 0}
    (link : TlsLink S) (calm : IsCalm link) where
  login_and_deposit-done :
      (round : Round F) (account_id otp_code response : List ℕ) (s : S)
      → length response ≡ 268
      → (s' : S) × (login_and_deposit f amounts link round account_id otp_code response s ≡ done s')
  unfolding login_and_deposit
  login_and_deposit-done round account_id otp_code response s size =
      let (code, response1, s1, run1, size1) =
        perform_request-Returns link calm (round.buffers op_login) op_login
          (strncpy 20 account_id ++ strncpy 10 otp_code) 30 response s
          (length-append (strncpy 20 account_id) (strncpy 10 otp_code)
            ∙ omega (arith, length-strncpy 20 account_id, length-strncpy 10 otp_code))
          (omega arith) size in
      let (code2, response2, s2, run2, size2) =
        perform_request-Returns link calm (round.buffers op_deposit) op_deposit
          (strncpy 20 account_id ++ f.to_bytes amounts.deposit_amount) 28 response1 s1
          (length-append (strncpy 20 account_id) (f.to_bytes amounts.deposit_amount)
            ∙ omega (arith, length-strncpy 20 account_id, enc.length_bytes amounts.deposit_amount))
          (omega arith) size1 in
      elim (Bool-cases (succeeded f code response1)) [
        | inl good ↦ (s2, rw (run1, good, run2) refl)
        | inr bad ↦ (s1, rw (run1, bad) refl)
      ]

  otp_flow-done :
      (round : Round F) (account_id otp_code response : List ℕ) (s : S)
      → length response ≡ 268
      → (otp_code' : List ℕ) × (s' : S) × (otp_flow f amounts link round account_id otp_code
            response s
          ≡ done (otp_code', s'))
  unfolding otp_flow
  otp_flow-done round account_id otp_code response s size =
      let (code, response1, s1, run1, size1) =
        perform_request-Returns link calm (round.buffers op_req_otp) op_req_otp
          (strncpy 20 account_id) 20 response s (length-strncpy 20 account_id) (omega arith) size in
      elim (Bool-cases (succeeded f code response1)) [
        | inr bad ↦ (otp_code, s1, rw (run1, bad) refl)
        | inl good ↦ elim (Option-cases (after_colon (c_str (response_of f response1).message))) [
          | inl untold ↦ (otp_code, s1, rw (run1, good, untold) refl)
          | inr (found, told) ↦
              let (s2, run2) =
                login_and_deposit-done round account_id (copy_otp otp_code found) response1 s1
                  size1 in
              (copy_otp otp_code found, s2, rw (run1, good, told, run2) refl)
        ]
      ]

  one_flow-done :
      (round : Round F) (account_id otp_code : List ℕ) (s : S)
      → IsReady round
      → (otp_code' : List ℕ) × (s' : S) × (one_flow f amounts link round account_id otp_code s
          ≡ done (otp_code', s'))
  unfolding one_flow
  one_flow-done round account_id otp_code s size =
      let (code, response1, s1, run1, size1) =
        perform_request-Returns link calm (round.buffers op_create_account) op_create_account
          (strncpy 20 account_id ++ f.to_bytes amounts.initial_balance) 28 round.response s
          (length-append (strncpy 20 account_id) (f.to_bytes amounts.initial_balance)
            ∙ omega (arith, length-strncpy 20 account_id, enc.length_bytes amounts.initial_balance))
          (omega arith) size in
      elim (Bool-cases (eqb_ℤ code (pos 0))) [
        | inr bad ↦ (otp_code, s1, rw (run1, bad) refl)
        | inl good ↦
            let (otp', s2, run2) = otp_flow-done round account_id otp_code response1 s1 size1 in
            (otp', s2, rw (run1, good, run2) refl)
      ]

  -- The loop ends, with every round counted as a success and none as a failure.
  pub flows-done :
      (rounds : List (Round F)) (account_id otp_code : List ℕ) (stats : Stats F) (s : S)
      → All IsReady rounds
      → (stats' : Stats F) × (s' : S) × (flows f amounts link rounds account_id otp_code stats s
          ≡ done (stats', s'))
        × (stats'.success_count ≡ stats.success_count + length rounds)
        × (stats'.fail_count ≡ stats.fail_count)
  unfolding flows count_flow
  flows-done [] account_id otp_code stats s ok = (stats, s, refl, omega arith, refl)
  flows-done (round ∷ rounds) account_id otp_code stats s ok =
      let (otp', s1, run1) = one_flow-done round account_id otp_code s ok.0 in
      let (stats', s2, run2, count, fails) =
        flows-done rounds account_id otp' (count_flow f round stats) s1 ok.1 in
      (stats', s2, rw run1 run2, count ∙ omega arith, fails)
