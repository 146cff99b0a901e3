-- ===== src/Server/Master/Startup.antt =====
-- The start of the master: it fails with all given back, or holds what it needs.
use ntut_network_and_system.Base.{
  ◌≡◌, refl, ◌∙◌, ap, ◌⊎◌, inl, inr, true, false, Bool-cases, Option, none, some, List, [], ◌∷◌,
  ◌++◌, if◌then◌else◌, Run, done,
}
use ntut_network_and_system.Base.Int.{ℤ, pos, ltb_ℤ}
use ntut_network_and_system.Float.{FloatOps, IsOrdered}
use ntut_network_and_system.Account.{account_init}
use ntut_network_and_system.Account.Invariant.{account_init-IsValid}
use ntut_network_and_system.Ipc.{shm_detached, shm_removed, attached, IpcContext, ipc_init_server}
use ntut_network_and_system.Ipc.Lifecycle.{cleanup-server}
use ntut_network_and_system.Resources.{
  Resource, ssl_ctx, descriptor, attachment, segment, gives_back, replay-gives_back, Event, taken,
  returned, replay, IsBalanced, replay-append, replay-closed,
}
use ntut_network_and_system.Tls.{
  SslContext, OpenSsl, tls_create_server_context, tls_cleanup_context,
}
use ntut_network_and_system.Server.Master.{
  Host, Master, ipc_events, signal_workers, wait_workers, last_events, fork_workers, max_workers,
  open_server, start_with, server_config,
}
use ntut_network_and_system.Server.Master.Segments.{ipc_init_server-cases}
use ntut_network_and_system.Server.Master.Signals.{
  listening, signal_workers-IsBalanced, wait_workers-IsBalanced,
}

module _ {F : Type 0} (f : FloatOps F) where
  -- The end of the process.
  pub last_events-replay :
      (m : Master F) (id : ℤ) (held : List Resource)
      → replay
          (last_events m (shm_detached ∷ shm_removed id ∷ []))
          (some (listening m ++ attachment ∷ segment id ∷ ssl_ctx ∷ held))
        ≡ some held
  unfolding tls_cleanup_context
  last_events-replay m id held =
      let all = listening m ++ attachment ∷ segment id ∷ ssl_ctx ∷ held in
      let close =
        if ltb_ℤ m.server_fd (pos 0) then [] else returned (descriptor m.server_fd) ∷ [] in
      let close_all = close ++ gives_back id in
      let waits = wait_workers m.worker_pids ++ close_all in
      replay-append (signal_workers m.worker_pids) waits (some all)
      ∙ ap (replay waits) (signal_workers-IsBalanced m.worker_pids all)
      ∙ replay-append (wait_workers m.worker_pids) close_all (some all)
      ∙ ap (replay close_all) (wait_workers-IsBalanced m.worker_pids all)
      ∙ elim (Bool-cases (ltb_ℤ m.server_fd (pos 0))) [
        | inl shut ↦ rw shut (replay-gives_back id held)
        | inr still ↦ rw still (
            replay-closed m.server_fd (gives_back id) (attachment ∷ segment id ∷ ssl_ctx ∷ held)
            ∙ replay-gives_back id held)
      ]

  -- What is held while the master waits for a signal.
  abbrev pub running : Host → ℤ → List Resource → List Resource
  running host id held = descriptor host.socket_fd ∷ attachment ∷ segment id ∷ ssl_ctx ∷ held

  abbrev gives_up : Host → ℤ → List Event
  gives_up host id =
      taken (descriptor host.socket_fd) ∷ returned (descriptor host.socket_fd) ∷ gives_back id

  replay-gives_up :
      (host : Host) (id : ℤ) (held : List Resource)
      → replay (gives_up host id) (some (attachment ∷ segment id ∷ ssl_ctx ∷ held)) ≡ some held
  replay-gives_up host id held =
      replay-closed host.socket_fd (gives_back id) (attachment ∷ segment id ∷ ssl_ctx ∷ held)
      ∙ replay-gives_back id held

  -- A start that fails, with all given back, or that comes to a master that waits; `before` is
  -- what was held at its beginning.
  abbrev pub Starts :
      Host → ℤ → (List Resource → List Resource) → Run (Option (Master F) × List Event) → Type 0
  Starts host id before run =
      (events : List Event) × (((run ≡ done (none, events))
          × ((held : List Resource) → replay events (some (before held)) ≡ some held))
        ⊎ ((m : Master F) × (run ≡ done (some m, events))
            × (listening m ≡ descriptor host.socket_fd ∷ [])
            × (m.ipc_ctx.shm_id ≡ id)
            × (ltb_ℤ id (pos 0) ≡ false)
            × ((held : List Resource)
                → replay events (some (before held)) ≡ some (running host id held))))

  pub open_server-Starts :
      (host : Host) (ctx : SslContext) (ipc_ctx : IpcContext F)
      → IsOrdered f
      → ipc_ctx.db ≡ attached (account_init f)
      → ltb_ℤ ipc_ctx.shm_id (pos 0) ≡ false
      → Starts host ipc_ctx.shm_id
          (λ held. attachment ∷ segment ipc_ctx.shm_id ∷ ssl_ctx ∷ held)
          (open_server f host ctx ipc_ctx)
  unfolding open_server tls_cleanup_context
  open_server-Starts host ctx ipc_ctx ord at made =
      let id = ipc_ctx.shm_id in
      let (cleaned, run, clean) =
        cleanup-server f ipc_ctx (account_init f) (account_init-IsValid f ord) at made in
      elim (Bool-cases (ltb_ℤ host.socket_fd (pos 0))) [
        | inl bad ↦ (gives_back id, inl (rw (bad, run) refl, λ held. replay-gives_back id held))
        | inr good ↦ elim (Bool-cases host.bind_ok) [
          | inr unbound ↦ (
            gives_up host id,
            inl (rw (good, unbound, run) refl, λ held. replay-gives_up host id held),
          )
          | inl bound ↦ elim (Bool-cases host.listen_ok) [
            | inr deaf ↦ (
              gives_up host id,
              inl (rw (good, bound, deaf, run) refl, λ held. replay-gives_up host id held),
            )
            | inl ready ↦ (
              taken (descriptor host.socket_fd) ∷ [],
              inr (
                record {
                  keep_running = true;
                  worker_pids = fork_workers max_workers 0 host.fork;
                  server_fd = host.socket_fd;
                  ssl_context = ctx;
                  ipc_ctx = ipc_ctx;
                },
                rw (good, bound, ready) refl,
                rw good refl,
                refl,
                made,
                λ held. refl,
              ),
            )
          ]
        ]
      ]

  -- The context: none with nothing held, or one that is held.
  abbrev pub Makes : Option SslContext × List Event → Type 0
  Makes (none, events) = IsBalanced events
  Makes (some ctx, events) = events ≡ taken ssl_ctx ∷ []

  pub create-Makes :
      (verify_client : ℤ) (ssl : OpenSsl)
      → Makes (tls_create_server_context ssl (server_config verify_client))
  unfolding tls_create_server_context
  create-Makes verify_client ssl = elim (Bool-cases ssl.ctx_new) [
    | inr e1 ↦ rw e1 (λ held. refl)
    | inl e1 ↦
        elim (Bool-cases (ssl.use_certificate (server_config verify_client).server_cert_path)) [
          | inr e2 ↦ rw (e1, e2) (λ held. refl)
          | inl e2 ↦
              elim (Bool-cases
                (ssl.use_private_key (server_config verify_client).server_key_path)) [
                  | inr e3 ↦ rw (e1, e2, e3) (λ held. refl)
                  | inl e3 ↦
                      elim (Bool-cases
                        (ssl.load_verify_locations (server_config verify_client).ca_cert_path)) [
                          | inr e4 ↦ rw (e1, e2, e3, e4) (λ held. refl)
                          | inl e4 ↦ rw (e1, e2, e3, e4) refl
                        ]
                ]
        ]
  ]

  pub start_with-Starts :
      (host : Host) (made : Option SslContext × List Event)
      → IsOrdered f
      → Makes made
      → Starts host (ipc_init_server f host.ipc).1.shm_id (λ held. held) (start_with f host made)
  unfolding start_with tls_cleanup_context
  start_with-Starts host (none, events) ord b = (events, inl (refl, b))
  start_with-Starts host (some ctx, events) ord e = elim (ipc_init_server-cases f host.ipc) [
    | inl (failed, back) ↦
        let made = ipc_events (ipc_init_server f host.ipc).0.1 in
        (
          taken ssl_ctx ∷ made ++ returned ssl_ctx ∷ [],
          inl (
            rw (failed, e) refl,
            λ held.
                replay-append made (returned ssl_ctx ∷ []) (some (ssl_ctx ∷ held))
                ∙ ap (replay (returned ssl_ctx ∷ [])) (back (ssl_ctx ∷ held)),
          ),
        )
    | inr (ok, at, there, made) ↦
        let id = (ipc_init_server f host.ipc).1.shm_id in
        let (opened, how) =
          open_server-Starts host ctx (ipc_init_server f host.ipc).1 ord at there in
        let all = taken ssl_ctx ∷ taken (segment id) ∷ taken attachment ∷ opened in
        elim how [
          | inl (run, back) ↦ (all, inl (rw (ok, e, made, run) refl, back))
          | inr (m, run, listens, same_id, positive, kept) ↦
              (all, inr (m, rw (ok, e, made, run) refl, listens, same_id, positive, kept))
        ]
  ]
