-- ===== src/Server/Serve.antt =====
-- The loop over one connection: every packet up to the end of the connection gets one reply,
-- which the client can unpack.
use ntut_network_and_system.Base.{
  ℕ, suc, ◌≡◌, refl, ap, inl, inr, Bool-cases, List, [], ◌∷◌, All, length, codes, done,
}
use ntut_network_and_system.Base.Int.{pos, eqb_ℤ}
use ntut_network_and_system.Float.{FloatOps, IsOrdered, IsEncoded}
use ntut_network_and_system.Account.{AccountDb}
use ntut_network_and_system.Account.Invariant.{IsValid}
use ntut_network_and_system.Protocol.{BankingPacket, op_response}
use ntut_network_and_system.Protocol.Bounds.{InBounds, verdict, verify-InBounds}
use ntut_network_and_system.Protocol.Codec.{packed}
use ntut_network_and_system.Response.{BankingResponse, response_bytes, response_of, unpack_response}
use ntut_network_and_system.Response.RoundTrip.{
  IsSized, pack_response-packed, unpack_response-packed, response_of-bytes,
}
use ntut_network_and_system.Server.OtpClient.{OtpLink}
use ntut_network_and_system.Server.Request.{Locals, failure}
use ntut_network_and_system.Server.Session.{
  Arrival, closed, partial, whole, serve_packet, serve_connection,
}
use ntut_network_and_system.Server.Handlers.{IsFrame, IsNamed, failure-IsSized}
use ntut_network_and_system.Server.Total.{process_request-Answers}

-- A packet in memory whose announced length is in range and whose id is a C string, and frames of
-- the right sizes.
abbrev pub IsServable : {F : Type 0} → Arrival F → Type 0
IsServable closed = Unit
IsServable (partial n) = Unit
IsServable (whole locals p) = IsFrame locals × (length p.payload ≡ 1024) × InBounds p × IsNamed p

-- The packets that arrive before the connection ends.
abbrev pub served : {F : Type 0} → List (Arrival F) → ℕ
served [] = 0
served (closed ∷ rest) = 0
served (partial n ∷ rest) = 0
served (whole locals p ∷ rest) = suc (served rest)

module _ {F : Type 0} (f : FloatOps F) where
  -- The client unpacks the packet into a response, in any struct of the right size.
  abbrev pub IsReadable : BankingPacket → Type 0
  IsReadable reply =
      (r : BankingResponse F) × ((block : List ℕ)
        → length block ≡ 268
        → (bytes : List ℕ) × (unpack_response reply block ≡ done (pos 0, bytes))
          × (response_of f bytes ≡ r))

  packed-IsReadable :
      IsEncoded f
      → (r : BankingResponse F) → IsSized r
      → (rand_id : ℕ) → IsReadable (packed rand_id op_response (response_bytes f r))
  packed-IsReadable enc r sized rand_id = (
    r,
    λ block size. (
      response_bytes f r,
      unpack_response-packed f enc r sized rand_id block size,
      response_of-bytes f enc r sized,
    ),
  )

  module _ {S : Type 0} (link : OtpLink S) (ord : IsOrdered f) (enc : IsEncoded f) where
    serve_packet-Readable :
        (locals : Locals F) (db : AccountDb F) (s : S) (p : BankingPacket)
        → IsServable (whole locals p)
        → IsValid f db
        → (reply : BankingPacket) × (db' : AccountDb F) × (s' : S) × (serve_packet f link locals db
              s p
            ≡ done (reply, db', s'))
          × IsReadable reply
          × IsValid f db'
    unfolding serve_packet
    serve_packet-Readable locals db s p (frame, size, b, named) v =
        elim (Bool-cases (eqb_ℤ (verdict p) (pos 0))) [
          | inl good ↦
              let (r, db', s', run, same, sized, v') =
                process_request-Answers f ord locals frame db v p size b named link s enc in
              (
                _,
                db',
                s',
                rw (verify-InBounds p size b, good) run,
                packed-IsReadable enc r sized locals.rand_id,
                v',
              )
          | inr bad ↦
              let r = failure f (codes "Checksum verification failed") in
              let sized = failure-IsSized f (codes "Checksum verification failed") in
              (
                _,
                db,
                s,
                rw (
                  verify-InBounds p size b,
                  bad,
                  pack_response-packed f enc r sized locals.rand_id locals.packet,
                ),
                packed-IsReadable enc r sized locals.rand_id,
                v,
              )
        ]

    -- Let the table be well formed, and let every packet that arrives announce between 12 and
    -- 1036 bytes and have a NUL among the first 20 bytes of the announced data, so that an id is
    -- a C string. Then the loop over a connection ends without a fault or a deadlock. It answers
    -- every packet that arrives before the connection ends, once and in a packet that the client
    -- can unpack, and the table stays well formed. The uninitialised structs of each round have
    -- their sizes.
    pub serve_connection-Readable :
        (arrivals : List (Arrival F)) (db : AccountDb F) (s : S)
        → All IsServable arrivals
        → IsValid f db
        → (replies : List BankingPacket) × (db' : AccountDb F) × (s' : S) × (serve_connection f link
              arrivals db s
            ≡ done (replies, db', s'))
          × (length replies ≡ served arrivals)
          × All IsReadable replies
          × IsValid f db'
    unfolding serve_connection
    serve_connection-Readable [] db s ok v = ([], db, s, refl, refl, tt, v)
    serve_connection-Readable (closed ∷ rest) db s ok v = ([], db, s, refl, refl, tt, v)
    serve_connection-Readable (partial n ∷ rest) db s ok v = ([], db, s, refl, refl, tt, v)
    serve_connection-Readable (whole locals p ∷ rest) db s ok v =
        let (reply, db', s', run, readable, v') = serve_packet-Readable locals db s p ok.0 v in
        let (replies, db'', s'', runs, count, all, w) =
          serve_connection-Readable rest db' s' ok.1 v' in
        (reply ∷ replies, db'', s'', rw (run, runs), ap suc count, (readable, all), w)
