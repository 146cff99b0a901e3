-- ===== src/Server/Accept.antt =====
-- The loop of `worker_main` over the connections that it accepts, server/banking_server.c. What
-- `accept` and the handshake give is an input, in order; log lines are left out, and so is the
-- signal that ends the process.
use ntut_network_and_system.Base.{
  ℕ, ◌+◌, ◌&&◌, length, length-append, append-All, ◌∙◌, ◌≡◌, refl, inl, inr, Bool, true, false, not,
  Bool-cases, List, [], ◌∷◌, ◌++◌, All, if◌then◌else◌, Run, done, ◌>>=◌,
}
use ntut_network_and_system.Base.Int.{eqb_ℤ-refl, ℤ}
use ntut_network_and_system.Float.{FloatOps, IsOrdered, IsEncoded}
use ntut_network_and_system.Account.{AccountDb}
use ntut_network_and_system.Account.Invariant.{IsValid}
use ntut_network_and_system.Protocol.{BankingPacket}
use ntut_network_and_system.Resources.{
  ssl_object, descriptor, Event, taken, returned, shut_down, IsBalanced, append-IsBalanced,
}
use ntut_network_and_system.Server.OtpClient.{OtpLink}
use ntut_network_and_system.Server.Session.{Arrival, serve_connection}
use ntut_network_and_system.Server.Serve.{IsServable, IsReadable, served, serve_connection-Readable}
use ntut_network_and_system.Tls.{OpenSsl, tls_accept_connection, tls_close}

-- One `accept`: it fails, with EINTR or EBADF or with another error, or gives a descriptor, on
-- which OpenSSL and the client behave as given.
pub data Accepted (F : Type 0) : Type 0 where
  refused : Bool → Accepted F
  connected : ℤ → OpenSsl → List (Arrival F) → Accepted F

module _ {F : Type 0} (f : FloatOps F) {S : Type 0} (link : OtpLink S) where
  -- One connection: the events, the replies, and the table and the OTP service after it.
  unfoldable pub serve_accepted :
      ℤ
      → OpenSsl
      → List (Arrival F)
      → AccountDb F
      → S
      → Run (List Event × List BankingPacket × AccountDb F × S)
  serve_accepted client_fd openssl arrivals db s =
      let (ssl, events) = tls_accept_connection openssl in
      if not ssl
      then done
          (taken (descriptor client_fd) ∷ events ++ returned (descriptor client_fd) ∷ [], [], db, s)
      else (do
        (replies, db', s') ← serve_connection f link arrivals db s
        done (
          taken (descriptor client_fd) ∷ events
              ++ (tls_close ssl ++ returned (descriptor client_fd) ∷ []),
          replies,
          db',
          s',
        ))

  -- The empty list is a worker that waits in `accept`.
  unfoldable pub worker_main :
      List (Accepted F) → AccountDb F → S → Run (List Event × List BankingPacket × AccountDb F × S)
  worker_main [] db s = done ([], [], db, s)
  worker_main (refused interrupted ∷ rest) db s =
      let others = worker_main rest db s in if interrupted then done ([], [], db, s) else others
  worker_main (connected client_fd openssl arrivals ∷ rest) db s = do
    (events, replies, db', s') ← serve_accepted client_fd openssl arrivals db s
    (events', replies', db'', s'') ← worker_main rest db' s'
    done (events ++ events', replies ++ replies', db'', s'')

-- The packets that are answered: those of the connections whose handshake succeeds.
abbrev pub answered : {F : Type 0} → List (Accepted F) → ℕ
answered [] = 0
answered (refused interrupted ∷ rest) = if interrupted then 0 else answered rest
answered (connected client_fd openssl arrivals ∷ rest) =
    (if openssl.ssl_new && openssl.handshake then served arrivals else 0) + answered rest

-- Every packet that arrives can be answered.
abbrev pub IsSound : {F : Type 0} → Accepted F → Type 0
IsSound (refused interrupted) = Unit
IsSound (connected client_fd openssl arrivals) = All IsServable arrivals

module _ {F : Type 0} (f : FloatOps F) {S : Type 0} (link : OtpLink S) (ord : IsOrdered f)
    (enc : IsEncoded f) where
  -- What the loop comes to, with `n` replies.
  abbrev pub Serves : Run (List Event × List BankingPacket × AccountDb F × S) → ℕ → Type 0
  Serves run n =
      (events : List Event) × (replies : List BankingPacket) × (db : AccountDb F) × (s : S) × (run
        ≡ done (events, replies, db, s))
      × IsBalanced events
      × (length replies ≡ n)
      × All (IsReadable f) replies
      × IsValid f db

  serve_accepted-Serves :
      (client_fd : ℤ) (openssl : OpenSsl) (arrivals : List (Arrival F)) (db : AccountDb F) (s : S)
      → All IsServable arrivals
      → IsValid f db
      → Serves
          (serve_accepted f link client_fd openssl arrivals db s)
          (if openssl.ssl_new && openssl.handshake then served arrivals else 0)
  unfolding serve_accepted tls_accept_connection tls_close
  serve_accepted-Serves client_fd openssl arrivals db s ok v =
      let client : List Event → List Event =
        λ inner. taken (descriptor client_fd) ∷ inner ++ returned (descriptor client_fd) ∷ [] in
      let fd = eqb_ℤ-refl client_fd in
      elim (Bool-cases openssl.ssl_new) [
        | inr none_made ↦
            (client [], [], db, s, rw none_made refl, λ held. rw fd refl, rw none_made refl, tt, v)
        | inl made ↦ elim (Bool-cases openssl.handshake) [
          | inr failed ↦ (
            client (taken ssl_object ∷ returned ssl_object ∷ []),
            [],
            db,
            s,
            rw (made, failed) refl,
            λ held. rw fd refl,
            rw (made, failed) refl,
            tt,
            v,
          )
          | inl stands ↦
              let (replies, db', s', run, count, readable, v') =
                serve_connection-Readable f link ord enc arrivals db s ok v in
              (
                client (taken ssl_object ∷ shut_down ∷ returned ssl_object ∷ []),
                replies,
                db',
                s',
                rw (made, stands, run) refl,
                λ held. rw fd refl,
                rw (made, stands) count,
                readable,
                v',
              )
        ]
      ]

  -- Let the table be well formed, let every packet that any client sends announce between 12 and
  -- 1036 bytes and have a NUL among the first 20 bytes of the announced data, so that an id is a
  -- C string, and let the uninitialised structs have their sizes. Then a worker goes through any
  -- sequence of connections without a fault or a deadlock, whatever `accept` and the handshakes
  -- give. It answers every packet of the connections whose handshake succeeds, up to their ends,
  -- with a packet that the client can unpack; it closes every descriptor that it accepted and
  -- frees every SSL object, once and in order; and the table stays well formed.
  pub worker_main-Serves :
      (accepted : List (Accepted F)) (db : AccountDb F) (s : S)
      → All IsSound accepted
      → IsValid f db
      → Serves (worker_main f link accepted db s) (answered accepted)
  unfolding worker_main
  worker_main-Serves [] db s ok v = ([], [], db, s, refl, λ held. refl, refl, tt, v)
  worker_main-Serves (refused true ∷ rest) db s ok v =
      ([], [], db, s, refl, λ held. refl, refl, tt, v)
  worker_main-Serves (refused false ∷ rest) db s ok v = worker_main-Serves rest db s ok.1 v
  worker_main-Serves (connected client_fd openssl arrivals ∷ rest) db s ok v =
      let (events, replies, db', s', run, b, count, readable, v') =
        serve_accepted-Serves client_fd openssl arrivals db s ok.0 v in
      let (events', replies', db'', s'', runs, c, counts, all, w) =
        worker_main-Serves rest db' s' ok.1 v' in
      (
        events ++ events',
        replies ++ replies',
        db'',
        s'',
        rw (run, runs) refl,
        append-IsBalanced events events' b c,
        length-append replies replies' ∙ rw (count, counts) refl,
        append-All (IsReadable f) replies replies' readable all,
        w,
      )
