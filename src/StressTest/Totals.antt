-- ===== src/StressTest/Totals.antt =====
-- Every request of the second stress client is counted once, as a success or as a failure.
use ntut_network_and_system.Base.{
  true, ℕ, ◌+◌, ◌%◌, ◌≡◌, refl, ◌∙◌, inl, inr, Bool-cases, List, [], ◌∷◌, ◌++◌, ◌≢◌, Option-cases,
  none, some, true, All, length, arith, done, Run,
}
use ntut_network_and_system.Base.Int.{ℤ, pos, neg, ltb_ℤ}
use ntut_network_and_system.ClientCore.{
  ClientContext, Event, socket_opened, socket_closed, ssl_made, Network, client_init,
  client_handshake, client_connect, client_close,
}
use ntut_network_and_system.Float.{FloatOps, IsEncoded}
use ntut_network_and_system.Tls.{OpenSsl, SslContext}
use ntut_network_and_system.StressTest.{
  ThreadStats, Trial, Client, op_of_action, request_of, one_trial, all_trials, worker_with,
  worker_routine, run_threads, sum_stats, run_stress_test,
}
use ntut_network_and_system.StressTest.Exchanges.{
  IsTrial, IsClient, client_send-done, client_receive-done, length-request_of, request_login-done,
}

-- The requests of all the threads.
abbrev pub requests : {F : Type 0} → List (Client F) → ℕ
requests [] = 0
requests (client ∷ clients) = length client.trials + requests clients

pub connects-done :
    (net : Network) (client : ClientContext)
    → net.ssl_new_ok ≡ true
    → (code : ℤ) × (events : List Event) × (ctx : ClientContext) × (client_connect net client
        ≡ done ((code, events), ctx))
unfolding client_connect
connects-done net client made =
    let client1 = record client { socket_fd = net.new_fd } in
    let ((code, events), client2) = client_handshake net (record client1 { has_ssl = true }) in
    elim (Bool-cases (ltb_ℤ net.new_fd (pos 0))) [
      | inl bad ↦ (neg 1, [], client1, rw bad refl)
      | inr good ↦ elim (Bool-cases net.address_ok) [
        | inr malformed ↦ (neg 1, socket_opened net.new_fd ∷ [], client1, rw (good, malformed) refl)
        | inl fine ↦ elim (Bool-cases net.connect_ok) [
          | inr refused ↦ (
            neg 1,
            socket_opened net.new_fd ∷ socket_closed net.new_fd ∷ [],
            client1,
            rw (good, fine, refused) refl,
          )
          | inl accepted ↦ (
            code,
            socket_opened net.new_fd ∷ ssl_made ∷ events,
            client2,
            rw (good, fine, accepted, made) refl,
          )
        ]
      ]
    ]

not_none : (openssl : OpenSsl) → openssl.ctx_new ≡ true → client_init openssl (pos 0) ≢ none
unfolding client_init
not_none openssl made e = ground arith

init-some :
    (openssl : OpenSsl)
    → openssl.ctx_new ≡ true
    → (made : ClientContext) × (ssl_context : SslContext) × (client_init openssl (pos 0)
        ≡ some (made, ssl_context))
init-some openssl made = elim (Option-cases (client_init openssl (pos 0))) [
  | inl ended ↦ elim (not_none openssl made ended) [ ]
  | inr ((context, ssl_context), e) ↦ (context, ssl_context, e)
]

module _ {F : Type 0} (f : FloatOps F) (enc : IsEncoded f) (ten : F) where
  -- A round adds one to one of the two counters.
  abbrev Counts : ThreadStats F → ℕ → Run (ThreadStats F) → Type 0
  Counts stats n run =
      (stats' : ThreadStats F) × (run ≡ done stats')
      × (stats'.success_count + stats'.fail_count ≡ stats.success_count + stats.fail_count + n)

  one_trial-Counts :
      (thread_id : ℕ) (ctx : ClientContext) (trial : Trial F) (stats : ThreadStats F)
      → IsTrial trial
      → Counts stats 1 (one_trial f ten thread_id ctx trial stats)
  unfolding one_trial
  one_trial-Counts thread_id ctx trial stats (size, b) =
      let op = op_of_action (trial.rand_value % 3) in
      let ex = trial.exchange in
      let req = request_of f ten thread_id op trial.trans_req in
      let failed : ThreadStats F = record stats { fail_count = stats.fail_count + 1 } in
      let (sent, written, run) =
        client_send-done ex.rand_id ex.sent ctx op req 28
          (length-request_of f enc ten thread_id op trial.trans_req size) (omega arith) in
      let (got, run') = client_receive-done ctx ex.incoming b in
      elim (Bool-cases (ltb_ℤ (pos 0) sent)) [
        | inr unsent ↦ (failed, rw (run, unsent) refl, omega arith)
        | inl went ↦ elim (Bool-cases (ltb_ℤ got (pos 0))) [
          | inl lost ↦ (failed, rw (run, went, run', lost) refl, omega arith)
          | inr came ↦ (
            record stats {
              success_count = stats.success_count + 1;
              total_latency_ms = f.add stats.total_latency_ms trial.time_diff_ms;
            },
            rw (run, went, run', came) refl,
            omega arith,
          )
        ]
      ]

  all_trials-Counts :
      (thread_id : ℕ) (ctx : ClientContext) (trials : List (Trial F)) (stats : ThreadStats F)
      → All IsTrial trials
      → Counts stats (length trials) (all_trials f ten thread_id ctx trials stats)
  unfolding all_trials
  all_trials-Counts thread_id ctx [] stats ok = (stats, refl, omega arith)
  all_trials-Counts thread_id ctx (trial ∷ trials) stats ok =
      let (stats1, run1, count1) = one_trial-Counts thread_id ctx trial stats ok.0 in
      let (stats2, run2, count2) = all_trials-Counts thread_id ctx trials stats1 ok.1 in
      (stats2, rw run1 run2, omega (arith, count1, count2))

  worker_with-Counts :
      (client : Client F) (made : ClientContext)
      → IsClient client
      → (stats : ThreadStats F) × (events : List Event) × (worker_with f ten client made
          ≡ done (stats, events))
        × (stats.success_count + stats.fail_count ≡ length client.trials)
  unfolding worker_with
  worker_with-Counts client made ok =
      let zeros : ThreadStats F = record {
        success_count = 0;
        fail_count = 0;
        total_latency_ms = f.zero_f;
      } in
      let (code, events, ctx, joined) = connects-done client.network made ok.ssl_made in
      let (login, run) = request_login-done f enc ten client ctx ok in
      let (stats, run', count) =
        all_trials-Counts client.thread_id ctx client.trials zeros ok.trials in
      elim (Bool-cases (ltb_ℤ code (pos 0))) [
        | inl bad ↦ (
          record zeros { fail_count = length client.trials },
          events,
          rw (joined, bad) refl,
          omega arith,
        )
        | inr good ↦ (
          stats,
          events ++ (client_close ctx).0,
          rw (joined, good, run, run') refl,
          count ∙ omega arith,
        )
      ]

  worker_routine-Counts :
      (client : Client F)
      → IsClient client
      → (stats : ThreadStats F) × (events : List Event) × (worker_routine f ten client
          ≡ done (some (stats, events)))
        × (stats.success_count + stats.fail_count ≡ length client.trials)
  unfolding worker_routine
  worker_routine-Counts client ok =
      let (made, ssl_context, e) = init-some client.openssl ok.ctx_made in
      let (stats, events, run, count) = worker_with-Counts client made ok in
      (stats, events, rw (e, run) refl, count)

  abbrev counted : List (ThreadStats F) → ℕ
  counted [] = 0
  counted (stats ∷ rest) = stats.success_count + stats.fail_count + counted rest

  run_threads-done :
      (clients : List (Client F))
      → All IsClient clients
      → (all_stats : List (ThreadStats F)) × (run_threads f ten clients ≡ done (some all_stats))
        × (counted all_stats ≡ requests clients)
  unfolding run_threads
  run_threads-done [] ok = ([], refl, refl)
  run_threads-done (client ∷ clients) ok =
      let (stats, events, run, count) = worker_routine-Counts client ok.0 in
      let (rest, runs, counts) = run_threads-done clients ok.1 in
      (stats ∷ rest, rw (run, runs) refl, omega (arith, count, counts))

  sum_stats-counted :
      (all_stats : List (ThreadStats F)) (totals : ThreadStats F)
      → (sum_stats f ten all_stats totals).success_count
          + (sum_stats f ten all_stats totals).fail_count
        ≡ totals.success_count + totals.fail_count + counted all_stats
  unfolding sum_stats
  sum_stats-counted [] totals = omega arith
  sum_stats-counted (stats ∷ rest) totals = omega (arith, sum_stats-counted rest _)

  -- Let what the second read of each answer gives be in the 1024 bytes of the receive buffer,
  -- let the request unions have 28 bytes, let a `double` take eight, and let `SSL_CTX_new` and
  -- `SSL_new` succeed for every thread. Then the second stress test ends with a report, whatever
  -- the sockets and the other calls of OpenSSL return and whatever arrives, and the successes
  -- and the failures of its report add up to the requests of all its threads, those that cannot
  -- connect included.
  pub run_stress_test-requests :
      (clients : List (Client F))
      → All IsClient clients
      → (totals : ThreadStats F) × (run_stress_test f ten clients ≡ done (some totals))
        × (totals.success_count + totals.fail_count ≡ requests clients)
  unfolding run_stress_test
  run_stress_test-requests clients ok =
      let zeros : ThreadStats F = record {
        success_count = 0;
        fail_count = 0;
        total_latency_ms = f.zero_f;
      } in
      let (all_stats, run, count) = run_threads-done clients ok in
      (
        sum_stats f ten all_stats zeros,
        rw run refl,
        sum_stats-counted all_stats zeros ∙ omega (arith, count),
      )
