-- ===== src/Tls.antt =====
-- The wrapper of OpenSSL, common/include/tls_wrapper.h and common/src/tls_wrapper.c. What OpenSSL's
-- calls return is a parameter; a context is what was loaded into it. Log lines are left out.
use ntut_network_and_system.Base.{
  ℕ, Bool, true, false, not, Option, none, some, List, [], ◌∷◌, if◌then◌else◌, codes,
}
use ntut_network_and_system.Base.Int.{ℤ, pos, eqb_ℤ}
use ntut_network_and_system.Resources.{ssl_ctx, ssl_object, Event, taken, returned, shut_down}

-- A path is NULL or not where the code asks.
pub record TlsConfig : Type 0 where
  pub ca_cert_path : List ℕ
  pub server_cert_path : List ℕ
  pub server_key_path : List ℕ
  pub client_cert_path : Option (List ℕ)
  pub client_key_path : Option (List ℕ)
  pub verify_peer : ℤ

pub data VerifyMode : Type 0 where
  verify_none : VerifyMode
  verify_asked : VerifyMode  -- SSL_VERIFY_PEER
  verify_required : VerifyMode  -- with SSL_VERIFY_FAIL_IF_NO_PEER_CERT

pub record SslContext : Type 0 where
  pub certificate : Option (List ℕ)
  pub private_key : Option (List ℕ)
  pub trusted : Option (List ℕ)
  pub mode : VerifyMode

-- Whether each call succeeds.
pub record OpenSsl : Type 0 where
  pub ctx_new : Bool
  pub use_certificate : List ℕ → Bool
  pub use_private_key : List ℕ → Bool
  pub load_verify_locations : List ℕ → Bool
  pub ssl_new : Bool
  pub handshake : Bool  -- SSL_accept or SSL_connect

abbrev pub default_ca_cert : List ℕ
default_ca_cert = codes "certificate/ca.crt"

abbrev pub default_server_cert : List ℕ
default_server_cert = codes "certificate/server_wildcard.crt"

abbrev pub default_server_key : List ℕ
default_server_key = codes "certificate/server_wildcard.key"

abbrev pub new_context : SslContext
new_context = record { certificate = none; private_key = none; trusted = none; mode = verify_none }

unfoldable pub tls_create_server_context : OpenSsl → TlsConfig → Option SslContext × List Event
tls_create_server_context ssl config =
    if not ssl.ctx_new
    then (none, [])
    else if not (ssl.use_certificate config.server_cert_path)
    then (none, taken ssl_ctx ∷ returned ssl_ctx ∷ [])
    else if not (ssl.use_private_key config.server_key_path)
    then (none, taken ssl_ctx ∷ returned ssl_ctx ∷ [])
    else if not (ssl.load_verify_locations config.ca_cert_path)
    then (none, taken ssl_ctx ∷ returned ssl_ctx ∷ [])
    else (
      some (record {
        certificate = some config.server_cert_path;
        private_key = some config.server_key_path;
        trusted = some config.ca_cert_path;
        mode = if eqb_ℤ config.verify_peer (pos 0) then verify_none else verify_required;
      }),
      taken ssl_ctx ∷ [],
    )

-- The client's own certificate, where both paths are given; the key follows only a certificate
-- that was loaded.
abbrev load_client : OpenSsl → TlsConfig → SslContext → SslContext
load_client ssl config ctx = elim config.client_cert_path [
  | none ↦ ctx
  | some cert ↦ elim config.client_key_path [
    | none ↦ ctx
    | some key ↦
        if not (ssl.use_certificate cert)
        then ctx
        else if not (ssl.use_private_key key)
        then record ctx { certificate = some cert }
        else record ctx { certificate = some cert; private_key = some key }
  ]
]

unfoldable pub tls_create_client_context : OpenSsl → TlsConfig → Option SslContext × List Event
tls_create_client_context ssl config =
    if not ssl.ctx_new
    then (none, [])
    else if not (ssl.load_verify_locations config.ca_cert_path)
    then (none, taken ssl_ctx ∷ returned ssl_ctx ∷ [])
    else (
      some
          (record (load_client ssl config
            (record new_context { trusted = some config.ca_cert_path })) {
              mode = if eqb_ℤ config.verify_peer (pos 0) then verify_none else verify_asked;
            }),
      taken ssl_ctx ∷ [],
    )

-- Whether the connection stands.
unfoldable pub tls_accept_connection : OpenSsl → Bool × List Event
tls_accept_connection ssl =
    if not ssl.ssl_new
    then (false, [])
    else if not ssl.handshake
    then (false, taken ssl_object ∷ returned ssl_object ∷ [])
    else (true, taken ssl_object ∷ [])

-- With the name that SNI sends, if one is given.
unfoldable pub tls_connect : OpenSsl → Option (List ℕ) → (Bool × Option (List ℕ)) × List Event
tls_connect ssl hostname =
    if not ssl.ssl_new
    then ((false, none), [])
    else if not ssl.handshake
    then ((false, hostname), taken ssl_object ∷ returned ssl_object ∷ [])
    else ((true, hostname), taken ssl_object ∷ [])

-- Of a pointer that is NULL or not.
unfoldable pub tls_close : Bool → List Event
tls_close is_there = if is_there then shut_down ∷ returned ssl_object ∷ [] else []

unfoldable pub tls_cleanup_context : Option SslContext → List Event
tls_cleanup_context none = []
tls_cleanup_context (some ctx) = returned ssl_ctx ∷ []
