-- ===== src/Server/Master.antt =====
-- `main` and `signal_handler` of server/banking_server.c, the master process. What the system
-- calls return is a parameter, and the signals that arrive in `pause` are an input; log lines are
-- left out. The workers are `worker_main`; what reaches the master is the table as they leave it.
pub mod Signals
pub mod Segments
pub mod Startup
pub mod Shutdown
use ntut_network_and_system.Base.{
  ℕ, zero, suc, ◌+◌, ◌≡◌, refl, ◌∙◌, ap, ◌⊎◌, inl, inr, Bool, true, false, not, ◌||◌, ◌&&◌,
  Bool-cases, Option, none, some, List, [], ◌∷◌, ◌++◌, if◌then◌else◌, ltb, ◌==◌, Run, done, ◌>>=◌,
}
use ntut_network_and_system.Base.Int.{ℤ, pos, neg, ltb_ℤ, eqb_ℤ}
use ntut_network_and_system.Float.{FloatOps, IsOrdered}
use ntut_network_and_system.Account.{AccountDb, account_init}
use ntut_network_and_system.Account.Invariant.{IsValid, account_init-IsValid}
use ntut_network_and_system.Ipc.{
  DbPointer, IpcEvent, shm_created, shm_attached, stale_removed, shm_removed, shm_detached,
  attached, IpcContext, IpcSystem, create_shm, ipc_init_server, ipc_cleanup,
}
use ntut_network_and_system.Resources.{
  Resource, ssl_ctx, descriptor, attachment, segment, Event, taken, returned, signalled, waited,
  replay, IsBalanced, append-IsBalanced, replay-append,
}
use ntut_network_and_system.Tls.{
  TlsConfig, SslContext, OpenSsl, default_ca_cert, default_server_cert, default_server_key,
  tls_create_server_context, tls_cleanup_context,
}

abbrev pub max_workers : ℕ
max_workers = 5

-- `fork` gives the parent a pid, or fails with a negative number, for each worker in turn.
pub record Host : Type 0 where
  pub openssl : OpenSsl
  pub ipc : IpcSystem
  pub socket_fd : ℤ
  pub bind_ok : Bool
  pub listen_ok : Bool
  pub fork : ℕ → ℤ

-- The globals, and the locals of `main`, while the master waits for a signal.
pub record Master (F : Type 0) : Type 0 where
  pub keep_running : Bool
  pub worker_pids : List ℤ
  pub server_fd : ℤ
  pub ssl_context : SslContext
  pub ipc_ctx : IpcContext F

-- A worker that was not forked leaves the 0 of the static array.
unfoldable pub fork_workers : ℕ → ℕ → (ℕ → ℤ) → List ℤ
fork_workers zero i fork = []
fork_workers (suc n) i fork =
    let rest = fork_workers n (i + 1) fork in
    (if ltb_ℤ (fork i) (pos 0) then pos 0 else fork i) ∷ rest

unfoldable pub signal_workers : List ℤ → List Event
signal_workers [] = []
signal_workers (pid ∷ pids) =
    let rest = signal_workers pids in if ltb_ℤ (pos 0) pid then signalled pid ∷ rest else rest

unfoldable pub wait_workers : List ℤ → List Event
wait_workers [] = []
wait_workers (pid ∷ pids) =
    let rest = wait_workers pids in if ltb_ℤ (pos 0) pid then waited pid ∷ rest else rest

abbrev pub server_config : ℤ → TlsConfig
server_config verify_client = record {
  ca_cert_path = default_ca_cert;
  server_cert_path = default_server_cert;
  server_key_path = default_server_key;
  client_cert_path = none;
  client_key_path = none;
  verify_peer = verify_client;
}

-- What `ipc_init_server` takes, and what it and `ipc_cleanup` give back; a stale segment was never
-- taken.
abbrev pub ipc_events : List IpcEvent → List Event
ipc_events [] = []
ipc_events (shm_created n ∷ events) = taken (segment n) ∷ ipc_events events
ipc_events (shm_attached ∷ events) = taken attachment ∷ ipc_events events
ipc_events (stale_removed n ∷ events) = ipc_events events
ipc_events (shm_detached ∷ events) = returned attachment ∷ ipc_events events
ipc_events (shm_removed n ∷ events) = returned (segment n) ∷ ipc_events events

module _ {F : Type 0} where
  -- SIGINT is 2 and SIGTERM is 15.
  unfoldable pub signal_handler : ℕ → Master F → List Event × Master F
  signal_handler signum m =
      if (signum == 2 || signum == 15) && m.keep_running
      then (if ltb_ℤ m.server_fd (pos 0) then ([], record m { keep_running = false }) else (
        returned (descriptor m.server_fd) ∷ [],
        record m { keep_running = false; server_fd = neg 1 },
      ))
      else ([], m)

  -- The loop around `pause`, over the signals that arrive; none where it waits on.
  unfoldable pub wait_signals : List ℕ → Master F → Option (List Event × Master F)
  wait_signals [] m = if m.keep_running then none else some ([], m)
  wait_signals (signum ∷ rest) m =
      let (events, m') = signal_handler signum m in
      let later = wait_signals rest m' in
      if m.keep_running
      then elim later [ none ↦ none | some (events', m'') ↦ some (events ++ events', m'') ]
      else some ([], m)

  -- From the end of that loop on; `removed` is what `ipc_cleanup` gives back.
  abbrev pub last_events : Master F → List IpcEvent → List Event
  last_events m removed =
      signal_workers m.worker_pids
      ++ (wait_workers m.worker_pids
          ++ ((if ltb_ℤ m.server_fd (pos 0) then [] else returned (descriptor m.server_fd) ∷ [])
              ++ (ipc_events removed ++ tls_cleanup_context (some m.ssl_context))))

  -- The same, with the table as the workers leave it.
  unfoldable pub shut_down_server : Master F → AccountDb F → Run (List Event)
  shut_down_server m db = do
    (removed, left) ← ipc_cleanup (record m.ipc_ctx { db = attached db }) true
    done (last_events m removed)

module _ {F : Type 0} (f : FloatOps F) where
  -- The listening socket, with the TLS context and the shared memory made.
  unfoldable pub open_server :
      Host → SslContext → IpcContext F → Run (Option (Master F) × List Event)
  open_server host ctx ipc_ctx =
      let fd = descriptor host.socket_fd in
      let undo = λ (cleaned : List IpcEvent × DbPointer F).
        ipc_events cleaned.0 ++ tls_cleanup_context (some ctx) in
      if ltb_ℤ host.socket_fd (pos 0)
      then (do cleaned ← ipc_cleanup ipc_ctx true; done (none, undo cleaned))
      else if not host.bind_ok
      then (do
        cleaned ← ipc_cleanup ipc_ctx true
        done (none, taken fd ∷ returned fd ∷ undo cleaned))
      else if not host.listen_ok
      then (do
        cleaned ← ipc_cleanup ipc_ctx true
        done (none, taken fd ∷ returned fd ∷ undo cleaned))
      else done (
        some (record {
          keep_running = true;
          worker_pids = fork_workers max_workers 0 host.fork;
          server_fd = host.socket_fd;
          ssl_context = ctx;
          ipc_ctx = ipc_ctx;
        }),
        taken fd ∷ [],
      )

  -- From the shared memory on, with the context or NULL.
  unfoldable pub start_with :
      Host → Option SslContext × List Event → Run (Option (Master F) × List Event)
  start_with host (none, tls_events) = done (none, tls_events)
  start_with host (some ctx, tls_events) =
      let ((code, made), ipc_ctx) = ipc_init_server f host.ipc in
      if not (eqb_ℤ code (pos 0))
      then done (none, tls_events ++ (ipc_events made ++ tls_cleanup_context (some ctx)))
      else (do
        (master, events) ← open_server host ctx ipc_ctx
        done (master, tls_events ++ (ipc_events made ++ events)))

  -- The master that waits for a signal, or none where the process has ended with EXIT_FAILURE.
  unfoldable pub start_server : Host → ℤ → Run (Option (Master F) × List Event)
  start_server host verify_client =
      start_with host (tls_create_server_context host.openssl (server_config verify_client))

  -- The exit code, if the process ends, and the events. `verify_client` is `atoi(argv[2])`, or 0
  -- where there is no such argument.
  unfoldable pub server_main : ℕ → ℤ → Host → List ℕ → AccountDb F → Run (Option ℤ × List Event)
  server_main argc verify_client host signals db =
      if ltb argc 2 then done (some (pos 1), []) else do
        (master, events) ← start_server host verify_client
        elim master [
          | none ↦ done (some (pos 1), events)
          | some m ↦ elim (wait_signals signals m) [
            | none ↦ done (none, events)
            | some (events', m') ↦ do
              events'' ← shut_down_server m' db
              done (some (pos 0), events ++ (events' ++ events''))
          ]
        ]
