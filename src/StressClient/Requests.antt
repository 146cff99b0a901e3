-- ===== src/StressClient/Requests.antt =====
-- A request of the stress client beside one of the interactive client, client/banking_client.c.
use ntut_network_and_system.Base.{
  ℕ, ◌≡◌, refl, Bool, true, false, not, Option, none, some, List, done, blocked, fault, ◌>>=◌, Run,
  if◌then◌else◌, Bool-cases, inl, inr,
}
use ntut_network_and_system.Base.Int.{ℤ, pos, neg, eqb_ℤ}
use ntut_network_and_system.BankingClient.{TlsLink, Frame, send_request, receive_response}
use ntut_network_and_system.Float.{FloatOps}
use ntut_network_and_system.Protocol.{BankingPacket, pack_request}
use ntut_network_and_system.Response.{unpack_response}
use ntut_network_and_system.StressClient.{Buffers, read_response, perform_request}

-- The result code with any failure as -1.
abbrev pub normal : {S : Type 0} → (ℤ × List ℕ) × S → Run ((ℤ × List ℕ) × S)
normal ((code, response), s) = done ((if eqb_ℤ code (pos 0) then pos 0 else neg 1, response), s)

module _ {F : Type 0} (f : FloatOps F) {S : Type 0} (link : TlsLink S) (frame : Frame F) where
  abbrev pub buffers : Buffers
  buffers = record {
    req_packet = frame.req_packet;
    resp_packet = frame.resp_packet;
    rand_id = frame.rand_id;
  }

  after_unpack :
      (s : S) (run : Run (ℤ × List ℕ))
      → (do
        (code, response) ← run
        if not (eqb_ℤ code (pos 0))
            then done ((neg 1, response), s)
            else done ((pos 0, response), s))
        ≡ ((do out ← run; done (out, s)) >>= normal)
  after_unpack s (done (code, response)) = elim (Bool-cases (eqb_ℤ code (pos 0))) [
    | inl e ↦ rw e refl
    | inr e ↦ rw e refl
  ]
  after_unpack s blocked = refl
  after_unpack s fault = refl

  after_read :
      (got : Option BankingPacket) (s : S)
      → elim got [
        | none ↦ done ((neg 1, frame.response), s)
        | some p ↦ do
          (code, response) ← unpack_response p frame.response
          if not (eqb_ℤ code (pos 0))
              then done ((neg 1, response), s)
              else done ((pos 0, response), s)
      ]
        ≡ (elim got [
          | none ↦ done ((neg 1, frame.response), s)
          | some p ↦ do out ← unpack_response p frame.response; done (out, s)
        ]
            >>= normal)
  after_read none s = refl
  after_read (some p) s = after_unpack s (unpack_response p frame.response)

  receive-normal :
      (s : S)
      → receive_response f link frame s ≡ (read_response link buffers frame.response s >>= normal)
  unfolding receive_response read_response
  receive-normal s =
      after_read (link.tls_read frame.resp_packet s).0 (link.tls_read frame.resp_packet s).1

  after_write :
      (sent : Bool) (s : S)
      → (if not sent then done ((neg 1, frame.response), s) else receive_response f link frame s)
        ≡ ((if not sent
              then done ((neg 1, frame.response), s)
              else read_response link buffers frame.response s)
            >>= normal)
  after_write true s = receive-normal s
  after_write false s = refl

  after_pack :
      (run : Run (ℤ × BankingPacket)) (s : S)
      → (do
        (code, p) ← run
        if not (eqb_ℤ code (pos 0))
            then done ((neg 1, frame.response), s)
            else (let (sent, s') = link.tls_write p s in
                if not sent
                then done ((neg 1, frame.response), s')
                else receive_response f link frame s'))
        ≡ ((do
          (code, p) ← run
          if not (eqb_ℤ code (pos 0))
              then done ((neg 1, frame.response), s)
              else (let (sent, s') = link.tls_write p s in
                  if not sent
                  then done ((neg 1, frame.response), s')
                  else read_response link buffers frame.response s'))
            >>= normal)
  after_pack (done (code, p)) s = elim (Bool-cases (eqb_ℤ code (pos 0))) [
    | inl e ↦ rw e (after_write (link.tls_write p s).0 (link.tls_write p s).1)
    | inr e ↦ rw e refl
  ]
  after_pack blocked s = refl
  after_pack fault s = refl

  -- On any connection and any request, `send_request` of the interactive client does what
  -- `perform_request` of the stress client does, with the same response struct and the same
  -- state of the other end, or the same wait or fault; only its result is -1 for every failure.
  pub send_request-normal :
      (opcode : ℕ) (req_data : List ℕ) (req_size : ℕ) (s : S)
      → send_request f link frame opcode req_data req_size s
        ≡ (perform_request link buffers opcode req_data req_size frame.response s >>= normal)
  unfolding send_request perform_request
  send_request-normal opcode req_data req_size s =
      after_pack (pack_request frame.rand_id frame.req_packet opcode req_data req_size) s
