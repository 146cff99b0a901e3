-- ===== src/ClientCore/Resources.antt =====
-- What a connection takes, it gives back.
use ntut_network_and_system.Base.{
  ◌≡◌, ◌⊎◌, inl, inr, refl, Bool-cases, Run, done, fault, List, true, false, [], ◌∷◌, arith,
}
use ntut_network_and_system.Base.Int.{ℤ, pos, neg, ltb_ℤ}
use ntut_network_and_system.ClientCore.{
  ClientContext, Event, socket_opened, socket_closed, ssl_made, ssl_shut_down, ssl_freed, ctx_freed,
  client_close, Network, client_connect,
}

-- Closing a connection a second time gives nothing back and changes nothing.
pub client_close_twice :
    (client : ClientContext)
    → let closed = (client_close client).1 in
      ((client_close closed).0 ≡ []) × ((client_close closed).1 ≡ closed)
unfolding client_close
client_close_twice client = ground arith

-- What is left of a context whose resources have been given back.
abbrev pub closed_client : ClientContext
closed_client = record { socket_fd = neg 1; has_ctx = false; has_ssl = false; is_connected = false }

abbrev joined : Network → ClientContext → ClientContext
joined net client = record client { socket_fd = net.new_fd; has_ssl = true; is_connected = true }

abbrev pub Connected : Network → Run ((ℤ × List Event) × ClientContext) → Type 0
Connected net run =
    (after : ClientContext) × (run
      ≡ done ((pos 0, socket_opened net.new_fd ∷ ssl_made ∷ []), after))
    × (after.is_connected ≡ true)
    × (after.has_ssl ≡ true)
    × (after.socket_fd ≡ net.new_fd)
    × (net.ssl_new_ok ≡ true)
    × (net.handshake_ok ≡ true)
    × ((net.verifies ≡ false) ⊎ (net.certificate_ok ≡ true))

abbrev pub GivenBack : Network → Run ((ℤ × List Event) × ClientContext) → Type 0
GivenBack net run =
    (net.ssl_new_ok ≡ true)
    × (run
        ≡ done (
          (
            neg 1,
            socket_opened net.new_fd
                ∷ ssl_made
                ∷ ssl_shut_down
                ∷ ssl_freed
                ∷ socket_closed net.new_fd
                ∷ ctx_freed
                ∷ [],
          ),
          closed_client,
        ))

-- For a socket with a positive descriptor, a good address, an accepted connection and a context
-- that has its SSL context: where `SSL_new` gives an object, either the connection succeeds,
-- after a handshake that succeeded and a certificate that is good if certificates are verified,
-- and the client holds the socket and the SSL object; or it fails, and each of the two and the
-- SSL context have been given back once and the client holds none of them. Where `SSL_new` gives
-- NULL, the connection is a fault.
pub client_connect_cases :
    (net : Network) (client : ClientContext)
    → ltb_ℤ (pos 0) net.new_fd ≡ true
    → net.address_ok ≡ true
    → net.connect_ok ≡ true
    → client.has_ctx ≡ true
    → Connected net (client_connect net client)
      ⊎ GivenBack net (client_connect net client)
      ⊎ ((net.ssl_new_ok ≡ false) × (client_connect net client ≡ fault))
unfolding client_connect client_close
client_connect_cases net client fd address connected ctx = elim (Bool-cases net.ssl_new_ok) [
  | inr null ↦ inr (inr (null, ground arith))
  | inl made ↦ elim (Bool-cases net.handshake_ok) [
    | inr broken ↦ inr (inl (made, ground arith))
    | inl shaken ↦ elim (Bool-cases net.verifies) [
      | inr trusting ↦
          inl (joined net client, ground arith, refl, refl, refl, made, shaken, inl trusting)
      | inl strict ↦ elim (Bool-cases net.certificate_ok) [
        | inr bad ↦ inr (inl (made, ground arith))
        | inl good ↦ inl (joined net client, ground arith, refl, refl, refl, made, shaken, inr good)
      ]
    ]
  ]
]

-- Where the address is malformed the socket is opened and never given back.
pub bad_address_leaks :
    (net : Network) (client : ClientContext)
    → ltb_ℤ net.new_fd (pos 0) ≡ false
    → net.address_ok ≡ false
    → client_connect net client
      ≡ done ((neg 1, socket_opened net.new_fd ∷ []), record client { socket_fd = net.new_fd })
unfolding client_connect
bad_address_leaks net client fd bad = ground arith

-- Where the socket has a positive descriptor, the address is good and the server refuses the
-- connection, with no SSL object made before, the failed call closes the socket and closing the
-- context closes the same descriptor again.
pub refused_closes_twice :
    (net : Network) (client : ClientContext)
    → ltb_ℤ (pos 0) net.new_fd ≡ true
    → net.address_ok ≡ true
    → net.connect_ok ≡ false
    → client.has_ssl ≡ false
    → client.has_ctx ≡ true
    → (after : ClientContext) × (client_connect net client
        ≡ done ((neg 1, socket_opened net.new_fd ∷ socket_closed net.new_fd ∷ []), after))
      × ((client_close after).0 ≡ socket_closed net.new_fd ∷ ctx_freed ∷ [])
unfolding client_connect client_close
refused_closes_twice net client fd address refused no_ssl ctx =
    (record client { socket_fd = net.new_fd }, ground arith, ground arith)
