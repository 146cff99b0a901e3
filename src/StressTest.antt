-- ===== src/StressTest.antt =====
-- The second stress client, client/src/stress_test.c, on the library of client/src/client_core.c.
-- What the socket, OpenSSL, `rand_r` and the clock return is a parameter, and so is what arrives.
-- The threads share no state but the barrier, on which each waits once; log lines are left out.
pub mod Exchanges
pub mod Totals
pub mod Main
use ntut_network_and_system.Base.{
  ◌-◌, ◌^◌, ℕ, ◌+◌, ◌%◌, ◌≡◌, Bool, true, false, not, ◌||◌, ◌&&◌, Option, none, some, List, [], ◌∷◌,
  ◌++◌, if◌then◌else◌, ltb, ◌==◌, codes, take, drop, length, Run, done, ◌>>=◌,
}
use ntut_network_and_system.Base.Int.{ℤ, pos, neg, ltb_ℤ, eqb_ℤ}
use ntut_network_and_system.CString.{strncpy, snprintf}
use ntut_network_and_system.ClientCore.{
  ClientContext, Event, Network, Incoming, client_init, client_connect, client_send, client_receive,
  client_close,
}
use ntut_network_and_system.Float.{FloatOps}
use ntut_network_and_system.Otp.{decimal}
use ntut_network_and_system.Protocol.{op_deposit, op_withdraw, op_balance, op_req_otp, op_login}
use ntut_network_and_system.Response.{response_of}
use ntut_network_and_system.Tls.{OpenSsl, SslContext}

pub record ThreadStats (F : Type 0) : Type 0 where
  pub success_count : ℕ
  pub fail_count : ℕ
  pub total_latency_ms : F

-- One send and what is received after it: the `rand()` of the header, what `SSL_write` says of a
-- length, and what the two reads give.
pub record Exchange : Type 0 where
  pub rand_id : ℕ
  pub sent : ℕ → ℕ
  pub incoming : Incoming

-- One round of the loop: the random number, the uninitialised union, the exchange, and the time
-- that `get_time_diff_ms` gives.
pub record Trial (F : Type 0) : Type 0 where
  pub rand_value : ℕ
  pub trans_req : List ℕ
  pub exchange : Exchange
  pub time_diff_ms : F

-- One thread: its number, OpenSSL and the sockets, its array for the account, the two exchanges of the login, the receive buffer, and its rounds.
pub record Client (F : Type 0) : Type 0 where
  pub thread_id : ℕ
  pub network : Network
  pub openssl : OpenSsl
  pub my_account : List ℕ
  pub otp_exchange : Exchange
  pub login_exchange : Exchange
  pub recv_buf : List ℕ
  pub trials : List (Trial F)

-- The operation of a round.
abbrev pub op_of_action : ℕ → ℕ
op_of_action action =
    if action == 0 then op_deposit else if action == 1 then op_withdraw else op_balance

-- The receive buffer after `client_receive`.
unfoldable pub received : ClientContext → Incoming → ℕ → List ℕ → List ℕ
received client input buffer_size buffer =
    if not client.is_connected || not client.has_ssl then buffer else elim input.header [
      | none ↦ buffer
      | some header ↦
          let body_len = (header.length_field + 2 ^ 32 - 12) % 2 ^ 32 in
          if not (ltb 0 body_len) || ltb buffer_size body_len
          then buffer
          else elim input.body [ none ↦ buffer | some (body_read, after) ↦ after ]
    ]

module _ {F : Type 0} (f : FloatOps F) (ten : F) where
  -- The request of a round; the union keeps what no member writes.
  unfoldable pub request_of : ℕ → ℕ → List ℕ → List ℕ
  request_of thread_id op trans_req =
      let id = snprintf (take 20 trans_req) (decimal thread_id) in
      if (op == op_deposit) || (op == op_withdraw)
      then id ++ f.to_bytes ten
      else id ++ drop 20 trans_req

  -- The login with the message of the answer, and the request that it sends.
  unfoldable pub login_with : Client F → ClientContext → List ℕ → List ℕ → Run (Option (List ℕ))
  login_with client ctx account message = do
    let login_req = strncpy 20 account ++ strncpy 10 message
    sent ←
        client_send client.login_exchange.rand_id client.login_exchange.sent ctx op_login login_req
          30
    got ← client_receive ctx client.login_exchange.incoming 1024
    done (some login_req)

  -- The requests before the barrier: the login request, if it comes to one.
  unfoldable pub request_login : Client F → ClientContext → Run (Option (List ℕ))
  request_login client ctx = do
    let account = snprintf client.my_account (codes "USER_" ++ decimal client.thread_id)
    (sent, written) ←
        client_send client.otp_exchange.rand_id client.otp_exchange.sent ctx op_req_otp
          (strncpy 20 account) 20
    if not (ltb_ℤ (pos 0) sent) then done none else (do
      got ← client_receive ctx client.otp_exchange.incoming 1024
      let resp = response_of f (received ctx client.otp_exchange.incoming 1024 client.recv_buf)
      if ltb_ℤ got (pos 0)
          then done none
          else if not (eqb_ℤ resp.status (pos 0))
          then done none
          else login_with client ctx account resp.message)

  -- One round.
  unfoldable pub one_trial : ℕ → ClientContext → Trial F → ThreadStats F → Run (ThreadStats F)
  one_trial thread_id ctx trial stats = do
    let op = op_of_action (trial.rand_value % 3)
    let ex = trial.exchange
    (sent, written) ←
        client_send ex.rand_id ex.sent ctx op (request_of thread_id op trial.trans_req) 28
    if not (ltb_ℤ (pos 0) sent)
        then done (record stats { fail_count = stats.fail_count + 1 })
        else (do
          got ← client_receive ctx ex.incoming 1024
          if ltb_ℤ got (pos 0)
              then done (record stats { fail_count = stats.fail_count + 1 })
              else done (record stats {
                success_count = stats.success_count + 1;
                total_latency_ms = f.add stats.total_latency_ms trial.time_diff_ms;
              }))

  unfoldable pub all_trials :
      ℕ → ClientContext → List (Trial F) → ThreadStats F → Run (ThreadStats F)
  all_trials thread_id ctx [] stats = done stats
  all_trials thread_id ctx (trial ∷ trials) stats = do
    stats' ← one_trial thread_id ctx trial stats
    all_trials thread_id ctx trials stats'

  -- From the context on that `client_init` makes: the thread's entry of `all_stats`, which begins
  -- as zeros, and its resources.
  unfoldable pub worker_with : Client F → ClientContext → Run (ThreadStats F × List Event)
  worker_with client made = do
    let stats : ThreadStats F = record {
      success_count = 0;
      fail_count = 0;
      total_latency_ms = f.zero_f;
    }
    ((code, events), ctx) ← client_connect client.network made
    if ltb_ℤ code (pos 0)
        then done (record stats { fail_count = length client.trials }, events)
        else (do
          login ← request_login client ctx
          stats' ← all_trials client.thread_id ctx client.trials stats
          done (stats', events ++ (client_close ctx).0))

  abbrev made_worker :
      Client F → Option (ClientContext × SslContext) → Run (Option (ThreadStats F × List Event))
  made_worker client none = done none
  made_worker client (some (made, ssl_context)) = do
    result ← worker_with client made
    done (some result)

  -- None where `client_init` ends the process.
  unfoldable pub worker_routine : Client F → Run (Option (ThreadStats F × List Event))
  worker_routine client = made_worker client (client_init client.openssl (pos 0))

  abbrev entry :
      Option (ThreadStats F × List Event)
      → Option (List (ThreadStats F))
      → Option (List (ThreadStats F))
  entry none rest = none
  entry (some (stats, events)) none = none
  entry (some (stats, events)) (some all_stats) = some (stats ∷ all_stats)

  -- `all_stats` when every thread has ended; none where one of them has ended the process.
  unfoldable pub run_threads : List (Client F) → Run (Option (List (ThreadStats F)))
  run_threads [] = done (some [])
  run_threads (client ∷ clients) = do
    result ← worker_routine client
    rest ← run_threads clients
    done (entry result rest)

  -- The loop over `all_stats` that sums it up.
  unfoldable pub sum_stats : List (ThreadStats F) → ThreadStats F → ThreadStats F
  sum_stats [] totals = totals
  sum_stats (stats ∷ rest) totals = sum_stats rest (record {
    success_count = totals.success_count + stats.success_count;
    fail_count = totals.fail_count + stats.fail_count;
    total_latency_ms = f.add totals.total_latency_ms stats.total_latency_ms;
  })

  abbrev report : Option (List (ThreadStats F)) → Option (ThreadStats F)
  report none = none
  report (some all_stats) = some (
      sum_stats all_stats
        (record { success_count = 0; fail_count = 0; total_latency_ms = f.zero_f }))

  -- The totals that the report prints; none where the process has ended before.
  unfoldable pub run_stress_test : List (Client F) → Run (Option (ThreadStats F))
  run_stress_test clients = do all_stats ← run_threads clients; done (report all_stats)
