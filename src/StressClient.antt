-- ===== src/StressClient.antt =====
-- The stress client, stress_test/stress_client.c. What OpenSSL, the socket and the clock return is
-- a parameter, and so is the TLS connection with the server at its other end; uninitialised
-- variables are inputs of the round that declares them. Log lines are left out.
pub mod Rounds
pub mod Counts
pub mod Requests
use ntut_network_and_system.Base.{
  ℕ, zero, suc, ◌+◌, ◌≡◌, Bool, true, false, not, ◌&&◌, Option, none, some, List, [], ◌∷◌, ◌++◌,
  if◌then◌else◌, ◌==◌, codes, drop, Run, done, ◌>>=◌,
}
use ntut_network_and_system.Base.Int.{ℤ, pos, neg, ltb_ℤ, eqb_ℤ}
use ntut_network_and_system.BankingClient.{TlsLink}
use ntut_network_and_system.CString.{c_str, strncpy, snprintf}
use ntut_network_and_system.Float.{FloatOps}
use ntut_network_and_system.Otp.{decimal}
use ntut_network_and_system.Protocol.{
  BankingPacket, op_create_account, op_deposit, op_req_otp, op_login, pack_request,
}
use ntut_network_and_system.Resources.{Resource, ssl_ctx, descriptor, Event, taken, returned}
use ntut_network_and_system.Response.{response_of, unpack_response}
use ntut_network_and_system.Tls.{
  TlsConfig, SslContext, OpenSsl, tls_create_client_context, tls_connect, tls_close,
  tls_cleanup_context,
}

-- The counters of a thread in its `ThreadArgs`.
pub record Stats (F : Type 0) : Type 0 where
  pub success_count : ℕ
  pub fail_count : ℕ
  pub total_latency_ms : F
  pub max_latency_ms : F
  pub min_latency_ms : F

-- The constants 1000.0, 100.0 and 999999.0.
pub record Amounts (F : Type 0) : Type 0 where
  pub initial_balance : F
  pub deposit_amount : F
  pub large_ms : F

-- The uninitialised packets of one `perform_request`, and the `rand()` of its request.
pub record Buffers : Type 0 where
  pub req_packet : BankingPacket
  pub resp_packet : BankingPacket
  pub rand_id : ℕ

-- What one round of the loop meets: the clock before and after it, its uninitialised response
-- struct, and the buffers of its requests by operation code.
pub record Round (F : Type 0) : Type 0 where
  pub start_time : F
  pub end_time : F
  pub response : List ℕ
  pub buffers : ℕ → Buffers

-- `strstr(message, ": ")`, two characters on.
unfoldable pub after_colon : List ℕ → Option (List ℕ)
after_colon [] = none
after_colon (a ∷ []) = none
after_colon (a ∷ b ∷ rest) =
    let later = after_colon (b ∷ rest) in if (a == 58) && (b == 32) then some rest else later

-- The name of a thread's account, in an array of 20 bytes.
unfoldable pub thread_account : List ℕ → ℕ → ℕ → List ℕ
thread_account array pid thread_id =
    snprintf array (codes "user_" ++ (decimal pid ++ (codes "_" ++ decimal thread_id)))

-- The code in `otp_code`, an array of 10 bytes, as copied out of the message.
unfoldable pub copy_otp : List ℕ → List ℕ → List ℕ
copy_otp otp_code found = strncpy 8 found ++ 0 ∷ drop 9 otp_code

module _ {S : Type 0} (link : TlsLink S) where
  -- After the request has been written.
  unfoldable pub read_response : Buffers → List ℕ → S → Run ((ℤ × List ℕ) × S)
  read_response frame response s =
      let (got, s') = link.tls_read frame.resp_packet s in
      elim got [
        | none ↦ done ((neg 1, response), s')
        | some resp_packet ↦ do out ← unpack_response resp_packet response; done (out, s')
      ]

  -- The result, and the caller's response struct afterwards.
  unfoldable pub perform_request : Buffers → ℕ → List ℕ → ℕ → List ℕ → S → Run ((ℤ × List ℕ) × S)
  perform_request frame opcode req_data req_size response s = do
    (code, req_packet) ← pack_request frame.rand_id frame.req_packet opcode req_data req_size
    if not (eqb_ℤ code (pos 0))
        then done ((neg 1, response), s)
        else (let (sent, s') = link.tls_write req_packet s in
            if not sent then done ((neg 1, response), s') else read_response frame response s')

abbrev pub client_config : ℤ → TlsConfig
client_config verify_cert = record {
  ca_cert_path = codes "certificate/ca.crt";
  server_cert_path = [];
  server_key_path = [];
  client_cert_path = some (codes "certificate/client.crt");
  client_key_path = some (codes "certificate/client.key");
  verify_peer = verify_cert;
}

module _ {F : Type 0} (f : FloatOps F) where
  -- The test of a response: it was received, and its status is STATUS_SUCCESS.
  abbrev pub succeeded : ℤ → List ℕ → Bool
  succeeded code response = eqb_ℤ code (pos 0) && eqb_ℤ (response_of f response).status (pos 0)

  -- The counters after a round.
  unfoldable pub count_flow : Round F → Stats F → Stats F
  count_flow round stats =
      let latency = f.sub round.end_time round.start_time in
      record stats {
        success_count = stats.success_count + 1;
        total_latency_ms = f.add stats.total_latency_ms latency;
        max_latency_ms =
            if f.lt stats.max_latency_ms latency then latency else stats.max_latency_ms;
        min_latency_ms =
            if f.lt latency stats.min_latency_ms then latency else stats.min_latency_ms;
      }

module _ {F : Type 0} (f : FloatOps F) (amounts : Amounts F) {S : Type 0} (link : TlsLink S) where
  -- The login with the code, and the deposit where it succeeds.
  unfoldable pub login_and_deposit : Round F → List ℕ → List ℕ → List ℕ → S → Run S
  login_and_deposit round account_id otp_code response s = do
    ((code, response'), s') ←
        perform_request link (round.buffers op_login) op_login
          (strncpy 20 account_id ++ strncpy 10 otp_code) 30 response s
    if not (succeeded f code response') then done s' else (do
      (_, s'') ←
          perform_request link (round.buffers op_deposit) op_deposit
            (strncpy 20 account_id ++ f.to_bytes amounts.deposit_amount) 28 response' s'
      done s'')

  -- The request for a code, and what follows where the message tells one; with `otp_code`.
  unfoldable pub otp_flow : Round F → List ℕ → List ℕ → List ℕ → S → Run (List ℕ × S)
  otp_flow round account_id otp_code response s = do
    ((code, response'), s') ←
        perform_request link (round.buffers op_req_otp) op_req_otp (strncpy 20 account_id) 20
          response s
    if not (succeeded f code response')
        then done (otp_code, s')
        else elim (after_colon (c_str (response_of f response').message)) [
          | none ↦ done (otp_code, s')
          | some found ↦ do
            s'' ← login_and_deposit round account_id (copy_otp otp_code found) response' s'
            done (copy_otp otp_code found, s'')
        ]

  -- The requests of one round.
  unfoldable pub one_flow : Round F → List ℕ → List ℕ → S → Run (List ℕ × S)
  one_flow round account_id otp_code s = do
    ((code, response), s') ←
        perform_request link (round.buffers op_create_account) op_create_account
          (strncpy 20 account_id ++ f.to_bytes amounts.initial_balance) 28 round.response s
    if not (eqb_ℤ code (pos 0))
        then done (otp_code, s')
        else otp_flow round account_id otp_code response s'

  -- The loop, over its rounds.
  unfoldable pub flows : List (Round F) → List ℕ → List ℕ → Stats F → S → Run (Stats F × S)
  flows [] account_id otp_code stats s = done (stats, s)
  flows (round ∷ rounds) account_id otp_code stats s = do
    (otp_code', s') ← one_flow round account_id otp_code s
    flows rounds account_id otp_code' (count_flow f round stats) s'

  -- The handshake and the loop, with the socket connected.
  unfoldable pub run_flows :
      OpenSsl
      → List (Round F)
      → List ℕ
      → ℤ
      → SslContext
      → Stats F
      → S
      → Run ((Stats F × S) × List Event)
  run_flows openssl rounds account_id sock ctx stats s =
      let ((ssl, name), events) = tls_connect openssl (some (codes "api.bank.com")) in
      if not ssl
      then done ((stats, s), events ++ returned (descriptor sock) ∷ tls_cleanup_context (some ctx))
      else (do
        out ← flows rounds account_id (0 ∷ 0 ∷ 0 ∷ 0 ∷ 0 ∷ 0 ∷ 0 ∷ 0 ∷ 0 ∷ 0 ∷ []) stats s
        done (
          out,
          events ++ (tls_close ssl ++ returned (descriptor sock) ∷ tls_cleanup_context (some ctx)),
        ))

  -- What the thread meets is OpenSSL, the socket, whether `connect` succeeds, the rounds, and the
  -- array for its account, which is named after the process and the thread.
  unfoldable pub worker_thread :
      OpenSsl
      → ℤ
      → ℤ
      → Bool
      → List (Round F)
      → List ℕ
      → ℕ
      → ℕ
      → Stats F
      → S
      → Run ((Stats F × S) × List Event)
  worker_thread openssl verify_cert sock connects rounds array pid thread_id stats0 s =
      let stats = record stats0 { max_latency_ms = f.zero_f; min_latency_ms = amounts.large_ms } in
      let (made, tls_events) = tls_create_client_context openssl (client_config verify_cert) in
      elim made [
        | none ↦ done ((stats, s), tls_events)
        | some ctx ↦
            if not connects
            then done
                ((stats, s), tls_events ++ taken (descriptor sock) ∷ tls_cleanup_context (some ctx))
            else (do
              (out, events) ←
                  run_flows openssl rounds (thread_account array pid thread_id) sock ctx stats s
              done (out, tls_events ++ taken (descriptor sock) ∷ events))
      ]

-- The totals of the report: the flows, their latency, and the extremes of it.
pub record Totals (F : Type 0) : Type 0 where
  pub total_reqs : ℕ
  pub total_latency_sum : F
  pub global_max : F
  pub global_min : F

module _ {F : Type 0} (f : FloatOps F) where
  -- The loop of `main` over the threads that have ended.
  unfoldable pub add_up : List (Stats F) → Totals F → Totals F
  add_up [] totals = totals
  add_up (stats ∷ rest) totals = add_up rest (record {
    total_reqs = totals.total_reqs + stats.success_count;
    total_latency_sum = f.add totals.total_latency_sum stats.total_latency_ms;
    global_max =
        if f.lt totals.global_max stats.max_latency_ms
        then stats.max_latency_ms
        else totals.global_max;
    global_min =
        if f.lt stats.min_latency_ms totals.global_min
        then stats.min_latency_ms
        else totals.global_min;
  })
