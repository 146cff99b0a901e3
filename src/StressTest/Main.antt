-- ===== src/StressTest/Main.antt =====
-- `main` of the second client, client/src/main.c: one exchange, or the stress test. The numbers of
-- the arguments are what `atoi` gives; log lines are left out.
use ntut_network_and_system.Base.{
  true, ℕ, ◌≡◌, refl, inl, inr, not, Bool-cases, Option, Option-cases, none, some, List, [], ◌++◌,
  if◌then◌else◌, ltb, ◌==◌, codes, replicate, All, arith, Run, done, ◌>>=◌,
}
use ntut_network_and_system.Base.Int.{ℤ, pos, ltb_ℤ, eqb_ℤ}
use ntut_network_and_system.ClientCore.{
  ClientContext, Event, Network, client_init, client_connect, client_send, client_receive,
  client_close,
}
use ntut_network_and_system.Float.{FloatOps, IsEncoded}
use ntut_network_and_system.Protocol.{op_login}
use ntut_network_and_system.Tls.{OpenSsl, SslContext}
use ntut_network_and_system.StressTest.{Exchange, Client, run_stress_test}
use ntut_network_and_system.StressTest.Exchanges.{
  IsBody, IsClient, client_send-done, client_receive-done,
}
use ntut_network_and_system.StressTest.Totals.{connects-done, run_stress_test-requests}

-- The struct that is initialised with "user" and "pass".
abbrev pub test_login : List ℕ
test_login = (codes "user" ++ replicate 16 0) ++ (codes "pass" ++ replicate 6 0)

-- From the context on that `client_init` makes: the exit code, and the resources of the one
-- connection.
unfoldable pub single_with : Network → Exchange → ClientContext → Run (ℤ × List Event)
single_with network exchange made = do
  ((code, events), ctx) ← client_connect network made
  if ltb_ℤ code (pos 0) then done (pos 1, events) else (do
    sent ← client_send exchange.rand_id exchange.sent ctx op_login test_login 30
    got ← client_receive ctx exchange.incoming 1024
    done (pos 0, events ++ (client_close ctx).0))

abbrev made_single : Network → Exchange → Option (ClientContext × SslContext) → Run (ℤ × List Event)
made_single network exchange none = done (pos 1, [])
made_single network exchange (some (made, ssl_context)) = single_with network exchange made

-- Where `client_init` ends the process, the exit code is 1.
unfoldable pub single_test : OpenSsl → Network → Exchange → Run (ℤ × List Event)
single_test openssl network exchange = made_single network exchange (client_init openssl (pos 0))

module _ {F : Type 0} (f : FloatOps F) (ten : F) where
  abbrev pub exit_code : {A : Type 0} → Option A → ℤ
  exit_code none = pos 1
  exit_code (some totals) = pos 0

  -- The exit code.
  unfoldable pub client_main : ℕ → ℤ → OpenSsl → Network → Exchange → List (Client F) → Run ℤ
  client_main argc mode openssl network exchange clients =
      if ltb argc 4
      then done (pos 1)
      else if eqb_ℤ mode (pos 1)
      then (do (code, events) ← single_test openssl network exchange; done code)
      else if not (eqb_ℤ mode (pos 2))
      then done (pos 0)
      else if not (argc == 6)
      then done (pos 1)
      else (do totals ← run_stress_test f ten clients; done (exit_code totals))

single_with-done :
    (network : Network) (made : ClientContext) (exchange : Exchange)
    → network.ssl_new_ok ≡ true
    → IsBody exchange.incoming.body
    → (code : ℤ) × (events : List Event) × (single_with network exchange made ≡ done (code, events))
unfolding single_with
single_with-done network made exchange ssl b =
    let (code, events, ctx, joined) = connects-done network made ssl in
    let (sent, written, run) =
      client_send-done exchange.rand_id exchange.sent ctx op_login test_login 30 refl
        (omega arith) in
    let (got, run') = client_receive-done ctx exchange.incoming b in
    elim (Bool-cases (ltb_ℤ code (pos 0))) [
      | inl bad ↦ (pos 1, events, rw (joined, bad) refl)
      | inr good ↦ (pos 0, events ++ (client_close ctx).0, rw (joined, good, run, run') refl)
    ]

single_test-done :
    (openssl : OpenSsl) (network : Network) (exchange : Exchange)
    → network.ssl_new_ok ≡ true
    → IsBody exchange.incoming.body
    → (code : ℤ) × (events : List Event) × (single_test openssl network exchange
        ≡ done (code, events))
unfolding single_test
single_test-done openssl network exchange ssl b =
    elim (Option-cases (client_init openssl (pos 0))) [
      | inl ended ↦ (pos 1, [], rw ended refl)
      | inr ((made, ssl_context), e) ↦
          let (code, events, run) = single_with-done network made exchange ssl b in
          (code, events, rw e run)
    ]

-- The program ends, whatever arrives.
client_main-done :
    {F : Type 0} (f : FloatOps F) (enc : IsEncoded f) (ten : F) (argc : ℕ) (mode : ℤ)
    (openssl : OpenSsl) (network : Network) (exchange : Exchange) (clients : List (Client F))
    → network.ssl_new_ok ≡ true
    → IsBody exchange.incoming.body
    → All IsClient clients
    → (code : ℤ) × (client_main f ten argc mode openssl network exchange clients ≡ done code)
unfolding client_main
client_main-done f enc ten argc mode openssl network exchange clients ssl b ok =
    let (code, events, run) = single_test-done openssl network exchange ssl b in
    let (totals, run', count) = run_stress_test-requests f enc ten clients ok in
    elim (Bool-cases (ltb argc 4)) [
      | inl few ↦ (pos 1, rw few refl)
      | inr enough ↦ elim (Bool-cases (eqb_ℤ mode (pos 1))) [
        | inl single ↦ (code, rw (enough, single, run) refl)
        | inr other ↦ elim (Bool-cases (eqb_ℤ mode (pos 2))) [
          | inr neither ↦ (pos 0, rw (enough, other, neither) refl)
          | inl stress ↦ elim (Bool-cases (argc == 6)) [
            | inl all_given ↦ (pos 0, rw (enough, other, stress, all_given, run') refl)
            | inr missing ↦ (pos 1, rw (enough, other, stress, missing) refl)
          ]
        ]
      ]
    ]
