-- ===== src/StressTest/Exchanges.antt =====
-- Sends and receives of the second stress client come back, whatever arrives.
use ntut_network_and_system.Base.{
  true, ◌==◌, ℕ, ◌+◌, ◌-◌, ◌%◌, ◌^◌, ◌≤◌, ◌<◌, ◌≡◌, refl, ◌∙◌, inl, inr, false, not, ◌||◌,
  Bool-cases, Option, Option-cases, none, some, List, [], ◌++◌, All, length, length-append,
  length-take, length-drop, take, drop, arith, done, codes, ltb,
}
use mathlib.Core.Path.{subst}
use ntut_network_and_system.Base.Int.{ℤ, pos, neg, ltb_ℤ, eqb_ℤ}
use ntut_network_and_system.CString.{strncpy, length-strncpy, snprintf, length-snprintf}
use ntut_network_and_system.Crypto.{verify_checksum}
use ntut_network_and_system.Crypto.Sum.{sum, calculate_checksum-sum}
use ntut_network_and_system.ClientCore.{
  ClientContext, Incoming, client_send, client_receive, receive_body,
}
use ntut_network_and_system.ClientCore.Interop.{client_send_short}
use ntut_network_and_system.Float.{FloatOps, IsEncoded}
use ntut_network_and_system.Otp.{decimal}
use ntut_network_and_system.Protocol.{PacketHeader, op_deposit, op_withdraw, op_req_otp, op_login}
use ntut_network_and_system.StressTest.{
  response_of, Trial, Client, received, request_of, login_with, request_login,
}

-- What the second read gives is in the caller's buffer of 1024 bytes.
abbrev pub IsBody : Option (ℕ × List ℕ) → Type 0
IsBody none = Unit
IsBody (some (n, buffer)) = length buffer ≡ 1024

abbrev pub IsTrial : {F : Type 0} → Trial F → Type 0
IsTrial trial = (length trial.trans_req ≡ 28) × IsBody trial.exchange.incoming.body

pub record IsClient {F : Type 0} (client : Client F) : Type 0 where
  pub trials : All IsTrial client.trials
  pub otp_body : IsBody client.otp_exchange.incoming.body
  pub login_body : IsBody client.login_exchange.incoming.body
  pub ctx_made : client.openssl.ctx_new ≡ true
  pub ssl_made : client.network.ssl_new_ok ≡ true

pub client_send-done :
    (rand_id : ℕ) (sent : ℕ → ℕ) (ctx : ClientContext) (op : ℕ) (payload : List ℕ) (n : ℕ)
    → length payload ≡ n
    → n < 1024
    → (code : ℤ) × (written : List ℕ) × (client_send rand_id sent ctx op payload n
        ≡ done (code, written))
unfolding client_send
client_send-done rand_id sent ctx op payload n is short =
    elim (Bool-cases (not ctx.is_connected || not ctx.has_ssl)) [
      | inl down ↦ (neg 1, [], rw down refl)
      | inr up ↦
          let (code, written, run, size) =
            client_send_short rand_id sent ctx op payload (ground arith) (ground arith)
              (omega (arith, is)) in
          (
            code,
            written,
            subst (λ m. client_send rand_id sent ctx op payload m ≡ done (code, written)) is run,
          )
    ]

ltb_le : (a b : ℕ) → ltb a b ≡ false → b ≤ a
ltb_le a b h = ground arith

receive_body-done :
    (input : Incoming) (header : PacketHeader) (body_len : ℕ)
    → IsBody input.body
    → (code : ℤ) × (receive_body input header body_len 1024 ≡ done code)
unfolding receive_body verify_checksum
receive_body-done input header body_len b = elim (Bool-cases (ltb 1024 body_len)) [
  | inl long ↦ (neg 1, rw long refl)
  | inr fits ↦ elim (Option-cases input.body) [
    | inl nothing ↦ (neg 1, rw (fits, nothing, receive_body) refl)
    | inr ((n, buffer), e) ↦
        let size : length buffer ≡ 1024 = subst IsBody e b in
        let le : body_len ≤ length buffer = omega (arith, size, ltb_le 1024 body_len fits) in
        let run = calculate_checksum-sum buffer body_len le in
        elim (Bool-cases (header.checksum == sum (take body_len buffer) % 2 ^ 16)) [
          | inl good ↦ (pos n, rw (fits, e, receive_body, run, good) refl)
          | inr bad ↦ (neg 2, rw (fits, e, receive_body, run, bad) refl)
        ]
  ]
]

receive-done :
    (ctx : ClientContext) (header : Option PacketHeader) (body : Option (ℕ × List ℕ))
    → IsBody body
    → (code : ℤ) × (client_receive ctx (record { header = header; body = body }) 1024 ≡ done code)
unfolding client_receive
receive-done ctx none body b = elim (Bool-cases (not ctx.is_connected || not ctx.has_ssl)) [
  | inl down ↦ (neg 1, rw down refl)
  | inr up ↦ (neg 1, rw up refl)
]
receive-done ctx (some header) body b =
    let body_len = (header.length_field + 2 ^ 32 - 12) % 2 ^ 32 in
    elim (Bool-cases (not ctx.is_connected || not ctx.has_ssl)) [
      | inl down ↦ (neg 1, rw down refl)
      | inr up ↦ elim (Bool-cases (ltb 0 body_len)) [
        | inl some_body ↦
            let (code, run) =
              receive_body-done (record { header = some header; body = body }) header body_len b in
            (code, rw (up, some_body) run)
        | inr empty ↦ (pos 0, rw (up, empty) refl)
      ]
    ]

pub client_receive-done :
    (ctx : ClientContext) (input : Incoming)
    → IsBody input.body
    → (code : ℤ) × (client_receive ctx input 1024 ≡ done code)
client_receive-done ctx input b = receive-done ctx input.header input.body b

module _ {F : Type 0} (f : FloatOps F) (enc : IsEncoded f) (ten : F) where
  pub length-request_of :
      (thread_id op : ℕ) (trans_req : List ℕ)
      → length trans_req ≡ 28
      → length (request_of f ten thread_id op trans_req) ≡ 28
  unfolding request_of
  length-request_of thread_id op trans_req size =
      let id = snprintf (take 20 trans_req) (decimal thread_id) in
      let front : length (take 20 trans_req) ≡ 20 = omega (arith, size, length-take 20 trans_req) in
      let named : length id ≡ 20 =
        length-snprintf (take 20 trans_req) (decimal thread_id) (omega (arith, front)) ∙ front in
      elim (Bool-cases ((op == op_deposit) || (op == op_withdraw))) [
        | inl amount ↦
            rw amount
              (length-append id (f.to_bytes ten) ∙ omega (arith, named, enc.length_bytes ten))
        | inr query ↦ rw query (
            length-append id (drop 20 trans_req)
            ∙ omega (arith, named, size, length-drop 20 trans_req))
      ]

  login_with-done :
      (client : Client F) (ctx : ClientContext) (account message : List ℕ)
      → IsClient client
      → (login : Option (List ℕ)) × (login_with f ten client ctx account message ≡ done login)
  unfolding login_with
  login_with-done client ctx account message ok =
      let login_req = strncpy 20 account ++ strncpy 10 message in
      let (sent, written, run) =
        client_send-done client.login_exchange.rand_id client.login_exchange.sent ctx op_login
          login_req 30
          (length-append (strncpy 20 account) (strncpy 10 message)
            ∙ omega (arith, length-strncpy 20 account, length-strncpy 10 message))
          (omega arith) in
      let (got, run') = client_receive-done ctx client.login_exchange.incoming ok.login_body in
      (some login_req, rw (run, run') refl)

  pub request_login-done :
      (client : Client F) (ctx : ClientContext)
      → IsClient client
      → (login : Option (List ℕ)) × (request_login f ten client ctx ≡ done login)
  unfolding request_login
  request_login-done client ctx ok =
      let account = snprintf client.my_account (codes "USER_" ++ decimal client.thread_id) in
      let ex = client.otp_exchange in
      let resp = response_of f (received ctx ex.incoming 1024 client.recv_buf) in
      let (sent, written, run) =
        client_send-done ex.rand_id ex.sent ctx op_req_otp (strncpy 20 account) 20
          (length-strncpy 20 account) (omega arith) in
      let (got, run') = client_receive-done ctx ex.incoming ok.otp_body in
      let (login, run'') = login_with-done client ctx account resp.message ok in
      elim (Bool-cases (ltb_ℤ (pos 0) sent)) [
        | inr unsent ↦ (none, rw (run, unsent) refl)
        | inl went ↦ elim (Bool-cases (ltb_ℤ got (pos 0))) [
          | inl lost ↦ (none, rw (run, went, run', lost) refl)
          | inr came ↦ elim (Bool-cases (eqb_ℤ resp.status (pos 0))) [
            | inr refused ↦ (none, rw (run, went, run', came, refused) refl)
            | inl told ↦ (login, rw (run, went, run', came, told) run'')
          ]
        ]
      ]
