-- ===== src/Ipc/Lifecycle.antt =====
-- From the creation of the shared memory to its removal.
use ntut_network_and_system.Base.{
  ◌≡◌, refl, ◌⊎◌, inl, inr, true, false, Bool-cases, List, [], ◌∷◌, ◌++◌, All, length, done,
}
use ntut_network_and_system.Base.Int.{ℤ, pos, neg, ltb_ℤ}
use ntut_network_and_system.Float.{FloatOps, IsOrdered}
use ntut_network_and_system.Account.{AccountDb, destroyed, account_init}
use ntut_network_and_system.Account.Invariant.{IsValid, account_init-IsValid}
use ntut_network_and_system.Account.Cleanup.{IsDestroyed, account_cleanup-done}
use ntut_network_and_system.Account.Ledger.{Op, Fits, view, calls, posts}
use ntut_network_and_system.Account.Refine.{calls-Implements}
use ntut_network_and_system.Ipc.{
  attached, IpcContext, IpcEvent, shm_created, shm_removed, shm_detached, IpcSystem, create_shm,
  ipc_init_server, ipc_cleanup, detach_db,
}

-- A table that the server has cleaned up: its own lock and the lock of each account are destroyed.
abbrev pub IsCleaned : {F : Type 0} → AccountDb F → AccountDb F → Type 0
IsCleaned db cleaned =
    (cleaned.db_lock ≡ destroyed)
    × (length cleaned.accounts ≡ length db.accounts)
    × All IsDestroyed cleaned.accounts

pub detach_db-server :
    {F : Type 0} (f : FloatOps F) (db : AccountDb F)
    → IsValid f db
    → (cleaned : AccountDb F) × (detach_db (attached db) true
        ≡ done (shm_detached ∷ [], attached cleaned))
      × IsCleaned db cleaned
unfolding detach_db
detach_db-server f db v =
    let (db', run, own, long, all) = account_cleanup-done f db v in (db', rw run, (own, long, all))

pub cleanup-server :
    {F : Type 0} (f : FloatOps F) (ctx : IpcContext F) (db : AccountDb F)
    → IsValid f db
    → ctx.db ≡ attached db
    → ltb_ℤ ctx.shm_id (pos 0) ≡ false
    → (cleaned : AccountDb F) × (ipc_cleanup ctx true
        ≡ done (shm_detached ∷ shm_removed ctx.shm_id ∷ [], attached cleaned))
      × IsCleaned db cleaned
unfolding ipc_cleanup
cleanup-server f ctx db v at id =
    let (cleaned, run, clean) = detach_db-server f db v in (cleaned, rw (at, run, id) refl, clean)

module _ {F : Type 0} (f : FloatOps F) (ord : IsOrdered f) (ops : List (Op F))
    (fits : All Fits ops) where
  -- A start that succeeds, the calls on the new table, and the end.
  abbrev pub Lives : ℤ → IpcContext F → Type 0
  Lives code ctx =
      (code ≡ pos 0)
      × (ctx.db ≡ attached (account_init f))
      × (db : AccountDb F) × (calls f ops (account_init f)
          ≡ done ((posts f ops (view (account_init f))).0, db))
      × (cleaned : AccountDb F) × (ipc_cleanup (record ctx { db = attached db }) true
          ≡ done (shm_detached ∷ shm_removed ctx.shm_id ∷ [], attached cleaned))
      × IsCleaned db cleaned

  -- A start that fails leaves no segment of its own.
  abbrev pub Fails : ℤ → List IpcEvent → IpcContext F → Type 0
  Fails code events ctx =
      (code ≡ neg 1)
      × ((ltb_ℤ ctx.shm_id (pos 0) ≡ true)
          ⊎ ((before : List IpcEvent) × (events
                ≡ before ++ shm_created ctx.shm_id ∷ shm_removed ctx.shm_id ∷ [])))

  -- Starting the server's shared memory, whatever the system calls return, either succeeds or
  -- fails. Where it succeeds, the context holds a new table, every sequence of calls whose new
  -- ids fit runs on it to its end with the ledger's answers, and cleaning up afterwards destroys
  -- the table's lock and the lock of every account without a fault, detaches the table and
  -- removes the segment. Where it fails it returns -1, and either no segment was made or the one
  -- that was made was removed, last.
  pub lifecycle :
      (sys : IpcSystem)
      → let ((code, events), ctx) = ipc_init_server f sys in Lives code ctx ⊎ Fails code events ctx
  unfolding ipc_init_server
  lifecycle sys = elim (Bool-cases (ltb_ℤ (create_shm sys).0 (pos 0))) [
    | inl none_made ↦ rw none_made (inr (refl, inl none_made))
    | inr made ↦ elim (Bool-cases sys.attach_ok) [
      | inr failed ↦ rw (made, failed) (inr (refl, inr ((create_shm sys).1, refl)))
      | inl ok ↦
          let (db, run, v, same) =
            calls-Implements f (account_init f) ops ord (account_init-IsValid f ord) fits in
          let ctx : IpcContext F = record {
            shm_id = (create_shm sys).0;
            sem_id = pos 0;
            db = attached db;
          } in
          let (cleaned, tidy, clean) = cleanup-server f ctx db v refl made in
          rw (made, ok) (inl (refl, refl, db, run, cleaned, tidy, clean))
    ]
  ]
