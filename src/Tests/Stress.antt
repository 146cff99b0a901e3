-- ===== src/Tests/Stress.antt =====
-- A thread of the stress client with a server that refuses every request.
use ntut_network_and_system.Base.{
  refl, none, false, ℕ, ◌+◌, ◌≡◌, true, some, List, [], ◌∷◌, replicate, length-replicate, done,
  ◌>>=◌,
}
use ntut_network_and_system.Base.Int.{pos}
use ntut_network_and_system.BankingClient.{TlsLink, send_request}
use ntut_network_and_system.Float.Sample.{Tiny, num, tiny_ops, tiny_IsEncoded}
use ntut_network_and_system.Protocol.{BankingPacket, blank_packet, op_response, op_balance}
use ntut_network_and_system.Protocol.Codec.{packed}
use ntut_network_and_system.StressClient.{Stats, Amounts, Round, perform_request}
use ntut_network_and_system.StressClient.Requests.{normal, buffers, send_request-normal}
use ntut_network_and_system.StressTest.{ThreadStats, Exchange, Trial, Client, run_stress_test}
use ntut_network_and_system.StressTest.Exchanges.{IsClient}
use ntut_network_and_system.StressTest.Totals.{requests, run_stress_test-requests}
use ntut_network_and_system.Tests.Data.{alice}
use ntut_network_and_system.Tests.Menus.{variables}
use ntut_network_and_system.Tests.Processes.{good_tls}

-- A response of status 3, with nothing else in it.
abbrev refusal_bytes : List ℕ
refusal_bytes = 3 ∷ replicate 267 0

abbrev refusal : BankingPacket
refusal = packed 1 op_response refusal_bytes

-- The state counts the requests.
abbrev refusing : TlsLink ℕ
refusing = record { tls_write = λ p n. (true, n + 1); tls_read = λ p n. (some refusal, n) }

abbrev round : Round Tiny
round = record {
  start_time = num (pos 10);
  end_time = num (pos 12);
  response = replicate 268 171;
  buffers =
      λ n. record { req_packet = blank_packet 0 0; resp_packet = blank_packet 0 0; rand_id = n };
}

abbrev fresh_stats : Stats Tiny
fresh_stats = record {
  success_count = 0;
  fail_count = 0;
  total_latency_ms = num (pos 0);
  max_latency_ms = num (pos 0);
  min_latency_ms = num (pos 0);
}

abbrev amounts : Amounts Tiny
amounts = record {
  initial_balance = num (pos 100);
  deposit_amount = num (pos 10);
  large_ms = num (pos 99);
}

send_request-normal_example : send_request tiny_ops refusing variables op_balance alice 20 0 ≡ (
    perform_request refusing
      (buffers tiny_ops refusing variables)
      op_balance
      alice
      20
      variables.response
      0
    >>= normal)
send_request-normal_example = send_request-normal tiny_ops refusing variables op_balance alice 20 0

-- A client of the second stress test: it connects, sends two requests, and gets the server's
-- refusal each time; and one that cannot connect.
abbrev answer : Exchange
answer = record {
  rand_id = 7;
  sent = λ n. n;
  incoming = record { header = some refusal.header; body = none };
}

abbrev trial : Trial Tiny
trial = record {
  rand_value = 4;
  trans_req = replicate 28 171;
  exchange = answer;
  time_diff_ms = num (pos 3);
}

abbrev online : Client Tiny
online = record {
  thread_id = 0;
  network = record {
    new_fd = pos 5;
    address_ok = true;
    connect_ok = true;
    ssl_new_ok = true;
    handshake_ok = true;
    verifies = false;
    certificate_ok = true;
  };
  openssl = good_tls;
  my_account = replicate 20 171;
  otp_exchange = answer;
  login_exchange = answer;
  recv_buf = replicate 1024 171;
  trials = trial ∷ trial ∷ [];
}

abbrev offline : Client Tiny
offline = record online { network = record online.network { connect_ok = false } }

online-IsClient : IsClient online
online-IsClient = record {
  trials = ((length-replicate {A = ℕ} 28 171, tt), ((length-replicate {A = ℕ} 28 171, tt), tt));
  otp_body = tt;
  login_body = tt;
  ctx_made = refl;
  ssl_made = refl;
}

offline-IsClient : IsClient offline
offline-IsClient = record {
  trials = ((length-replicate {A = ℕ} 28 171, tt), ((length-replicate {A = ℕ} 28 171, tt), tt));
  otp_body = tt;
  login_body = tt;
  ctx_made = refl;
  ssl_made = refl;
}

run_stress_test-requests_example :
    (totals : ThreadStats Tiny) × (run_stress_test tiny_ops (num (pos 10)) (online ∷ offline ∷ [])
      ≡ done (some totals))
    × (totals.success_count + totals.fail_count ≡ requests (online ∷ offline ∷ []))
run_stress_test-requests_example =
    run_stress_test-requests tiny_ops tiny_IsEncoded (num (pos 10)) (online ∷ offline ∷ [])
      (online-IsClient, (offline-IsClient, tt))
