-- ===== src/Tests/Connections.antt =====
-- The second client's connections.
use ntut_network_and_system.Base.{
  ℕ, ◌≡◌, refl, ◌⊎◌, List, [], ◌∷◌, replicate, length, some, true, false, done, fault, arith, ◌+◌,
}
use ntut_network_and_system.Base.Int.{ℤ, pos, neg}
use ntut_network_and_system.Protocol.{op_response}
use ntut_network_and_system.Protocol.Codec.{packed}
use ntut_network_and_system.ClientCore.{
  ClientContext, socket_opened, socket_closed, ctx_freed, client_close, Network, client_connect,
  client_send, client_receive,
}
use ntut_network_and_system.ClientCore.Resources.{
  Connected, GivenBack, client_close_twice, client_connect_cases, bad_address_leaks,
  refused_closes_twice,
}
use ntut_network_and_system.ClientCore.Interop.{client_send_short, client_receive_refuses}

-- A context after `client_init`, and one that is connected.
abbrev ready : ClientContext
ready = record { socket_fd = neg 1; has_ctx = true; has_ssl = false; is_connected = false }

abbrev up : ClientContext
up = record { socket_fd = pos 5; has_ctx = true; has_ssl = true; is_connected = true }

abbrev twenty : List ℕ
twenty = replicate 20 65

abbrev expired : Network
expired = record {
  new_fd = pos 5;
  address_ok = true;
  connect_ok = true;
  ssl_new_ok = true;
  handshake_ok = true;
  verifies = true;
  certificate_ok = false;
}

client_close_twice_example :
    ((client_close (client_close up).1).0 ≡ [])
    × ((client_close (client_close up).1).1 ≡ (client_close up).1)
client_close_twice_example = client_close_twice up

client_connect_cases_example :
    Connected expired (client_connect expired ready)
    ⊎ GivenBack expired (client_connect expired ready)
    ⊎ ((true ≡ false) × (client_connect expired ready ≡ fault))
client_connect_cases_example = client_connect_cases expired ready refl refl refl refl

bad_address_leaks_example :
    client_connect (record expired { address_ok = false }) ready
    ≡ done ((neg 1, socket_opened (pos 5) ∷ []), record ready { socket_fd = pos 5 })
bad_address_leaks_example =
    bad_address_leaks (record expired { address_ok = false }) ready refl refl

refused_closes_twice_example :
    (after : ClientContext) × (client_connect (record expired { connect_ok = false }) ready
      ≡ done ((neg 1, socket_opened (pos 5) ∷ socket_closed (pos 5) ∷ []), after))
    × ((client_close after).0 ≡ socket_closed (pos 5) ∷ ctx_freed ∷ [])
refused_closes_twice_example =
    refused_closes_twice (record expired { connect_ok = false }) ready refl refl refl refl refl

client_send_short_example :
    (code : ℤ) × (written : List ℕ) × (client_send 7 (λ n. n) up 4 twenty (length twenty)
      ≡ done (code, written))
    × (length written ≡ 12 + length twenty)
client_send_short_example = client_send_short 7 (λ n. n) up 4 twenty refl refl (omega arith)

client_receive_refuses_example :
    client_receive up
      (record {
        header = some (packed 7 op_response (replicate 268 0)).header;
        body = some (268, replicate 268 0);
      })
      1024
    ≡ done (neg 1)
client_receive_refuses_example =
    client_receive_refuses up 7 (replicate 268 0) (some (268, replicate 268 0)) 1024 refl
      (omega arith)
