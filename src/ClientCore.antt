-- ===== src/ClientCore.antt =====
-- The library of the second client: client/include/client_core.h and client/src/client_core.c. A
-- connection is the context struct; what the socket and OpenSSL calls return is a parameter, and
-- the resources that a call takes and gives back are listed in order. The header is sent and read
-- in host byte order, as the code does.
pub mod Resources
pub mod Interop
use ntut_network_and_system.Base.{
  codes, ℕ, ◌+◌, ◌-◌, ◌%◌, ◌^◌, ◌≡◌, Bool, true, false, not, ◌&&◌, ◌||◌, Option, none, some, List,
  [], ◌∷◌, ◌++◌, if◌then◌else◌, ltb, ◌==◌, length, take, Run, done, fault, ◌>>=◌,
}
use ntut_network_and_system.Base.Int.{eqb_ℤ, ℤ, pos, neg, ltb_ℤ}
use ntut_network_and_system.Crypto.{calculate_checksum, verify_checksum}
use ntut_network_and_system.Memory.{le16, le32}
use ntut_network_and_system.Protocol.{PacketHeader}
use ntut_network_and_system.Tls.{OpenSsl, SslContext, verify_none, verify_asked}

-- `ClientContext`; its two pointers are NULL or not.
pub record ClientContext : Type 0 where
  pub socket_fd : ℤ
  pub has_ctx : Bool
  pub has_ssl : Bool
  pub is_connected : Bool

-- A resource taken or given back.
pub data Event : Type 0 where
  socket_opened : ℤ → Event
  socket_closed : ℤ → Event
  ssl_made : Event
  ssl_shut_down : Event
  ssl_freed : Event
  ctx_freed : Event

abbrev ca_cert_path : List ℕ
ca_cert_path = codes "certificate/ca.crt"

abbrev client_cert_path : List ℕ
client_cert_path = codes "certificate/client.crt"

abbrev client_key_path : List ℕ
client_key_path = codes "certificate/client.key"

-- The context, with what was loaded into it; none where the process exits. A certificate that
-- cannot be loaded is only a warning.
unfoldable pub client_init : OpenSsl → ℤ → Option (ClientContext × SslContext)
client_init openssl verify_server =
    let ca = if openssl.load_verify_locations ca_cert_path then some ca_cert_path else none in
    let cert = openssl.use_certificate client_cert_path in
    let key = cert && openssl.use_private_key client_key_path in
    if not openssl.ctx_new
    then none
    else some (
      record { socket_fd = pos 0; has_ctx = true; has_ssl = false; is_connected = false },
      record {
        certificate = if cert then some client_cert_path else none;
        private_key = if key then some client_key_path else none;
        trusted = ca;
        mode = if eqb_ℤ verify_server (pos 0) then verify_none else verify_asked;
      },
    )

unfoldable pub client_close : ClientContext → List Event × ClientContext
client_close client =
    let ssl = if client.has_ssl then ssl_shut_down ∷ ssl_freed ∷ [] else [] in
    let open_fd = ltb_ℤ (pos 0) client.socket_fd in
    let fd = if open_fd then socket_closed client.socket_fd ∷ [] else [] in
    let ctx = if client.has_ctx then ctx_freed ∷ [] else [] in
    (
      ssl ++ (fd ++ ctx),
      record {
        socket_fd = if open_fd then neg 1 else client.socket_fd;
        has_ctx = false;
        has_ssl = false;
        is_connected = false;
      },
    )

-- What the calls in `client_connect` return: `socket`, whether `inet_pton`, `connect`,
-- `SSL_new` and `SSL_connect` succeed, whether the server's certificate is verified, and whether
-- it is good.
pub record Network : Type 0 where
  pub new_fd : ℤ
  pub address_ok : Bool
  pub connect_ok : Bool
  pub ssl_new_ok : Bool
  pub handshake_ok : Bool
  pub verifies : Bool
  pub certificate_ok : Bool

-- From the handshake on, with the socket open and the SSL object made.
unfoldable pub client_handshake : Network → ClientContext → (ℤ × List Event) × ClientContext
client_handshake net client =
    if not net.handshake_ok || (net.verifies && not net.certificate_ok)
    then (let (events, client') = client_close client in ((neg 1, events), client'))
    else ((pos 0, []), record client { is_connected = true })

-- The object that `SSL_new` returns is used without a test, so NULL is a fault.
unfoldable pub client_connect : Network → ClientContext → Run ((ℤ × List Event) × ClientContext)
unfolding client_handshake
client_connect net client =
    let client1 = record client { socket_fd = net.new_fd } in
    if ltb_ℤ net.new_fd (pos 0)
    then done ((neg 1, []), client1)
    else if not net.address_ok
    then done ((neg 1, socket_opened net.new_fd ∷ []), client1)
    else if not net.connect_ok
    then done ((neg 1, socket_opened net.new_fd ∷ socket_closed net.new_fd ∷ []), client1)
    else if not net.ssl_new_ok
    then fault
    else (let ((code, events), client2) =
          client_handshake net (record client1 { has_ssl = true }) in
        done ((code, socket_opened net.new_fd ∷ ssl_made ∷ events), client2))

-- The bytes of a `PacketHeader` in memory.
unfoldable pub header_bytes : PacketHeader → List ℕ
header_bytes h = le32 h.length_field ++ (le16 h.op_code ++ (le16 h.checksum ++ le32 h.req_id))

-- The header that `client_send` fills in; `header.length` is a `uint32_t`.
unfoldable pub client_header : ℕ → ℕ → List ℕ → ℕ → Run PacketHeader
client_header rand_id op_code payload payload_len =
    if ltb 0 payload_len
    then (do
      checksum ← calculate_checksum payload payload_len
      done (record {
        length_field = (12 + payload_len) % 2 ^ 32;
        op_code = op_code;
        checksum = checksum;
        req_id = rand_id;
      }))
    else done (record {
      length_field = (12 + payload_len) % 2 ^ 32;
      op_code = op_code;
      checksum = 0;
      req_id = rand_id;
    })

-- The result and the bytes that were handed to `SSL_write`, which `sent` says how many of it took
-- (0 where it fails). The header and the payload are copied to an array of 4096 bytes.
unfoldable pub client_send : ℕ → (ℕ → ℕ) → ClientContext → ℕ → List ℕ → ℕ → Run (ℤ × List ℕ)
client_send rand_id sent client op_code payload payload_len =
    if not client.is_connected || not client.has_ssl then done (neg 1, []) else do
      header ← client_header rand_id op_code payload payload_len
      let written = header_bytes header ++ take payload_len payload
      if ltb 4096 header.length_field
          then done (neg 1, [])
          else if ltb 4084 payload_len
          then fault
          else if sent header.length_field == 0
          then done (neg 1, written)
          else done (pos (sent header.length_field), written)

-- What the two reads in `client_receive` give: none where they fail, or the header, and the number
-- of bytes read with the caller's buffer after it.
pub record Incoming : Type 0 where
  pub header : Option PacketHeader
  pub body : Option (ℕ × List ℕ)

unfoldable pub receive_body : Incoming → PacketHeader → ℕ → ℕ → Run ℤ
receive_body input header body_len buffer_size =
    if ltb buffer_size body_len then done (neg 1) else elim input.body [
      | none ↦ done (neg 1)
      | some (body_read, buffer) ↦ do
        ok ← verify_checksum header.checksum buffer body_len
        if ok then done (pos body_read) else done (neg 2)
    ]

unfoldable pub client_receive : ClientContext → Incoming → ℕ → Run ℤ
unfolding receive_body
client_receive client input buffer_size =
    if not client.is_connected || not client.has_ssl then done (neg 1) else elim input.header [
      | none ↦ done (neg 1)
      | some header ↦
          let body_len = (header.length_field + 2 ^ 32 - 12) % 2 ^ 32 in
          if ltb 0 body_len then receive_body input header body_len buffer_size else done (pos 0)
    ]
