-- ===== src/Ipc.antt =====
-- The shared memory that holds the table: common/include/ipc.h and common/src/ipc.c. What the
-- system calls return is a parameter, and the segments made and given back are listed in order. The
-- context is never NULL, and `account_init` succeeds on every table. Log lines are left out.
pub mod Lifecycle
use ntut_network_and_system.Base.{
  ◌≡◌, Bool, true, false, not, ◌&&◌, Option, none, some, List, [], ◌∷◌, ◌++◌, if◌then◌else◌, Run,
  done, ◌>>=◌,
}
use ntut_network_and_system.Base.Int.{ℤ, pos, neg, ltb_ℤ}
use ntut_network_and_system.Float.{FloatOps}
use ntut_network_and_system.Account.{AccountDb, account_init, account_cleanup}

-- `AccountDB *`: NULL, what `shmat` returns where it fails, or the table.
pub data DbPointer (F : Type 0) : Type 0 where
  null : DbPointer F
  map_failed : DbPointer F
  attached : AccountDb F → DbPointer F

pub record IpcContext (F : Type 0) : Type 0 where
  pub shm_id : ℤ
  pub sem_id : ℤ
  pub db : DbPointer F

-- `shmget` that makes a segment, `shmat`, `shmctl` with IPC_RMID on that segment or on one that
-- stood there before, and `shmdt`.
pub data IpcEvent : Type 0 where
  shm_created : ℤ → IpcEvent
  shm_attached : IpcEvent
  stale_removed : ℤ → IpcEvent
  shm_removed : ℤ → IpcEvent
  shm_detached : IpcEvent

-- The three calls of `shmget` in the order of the code, the first with `errno == EEXIST`; and
-- whether `shmat` succeeds.
pub record IpcSystem : Type 0 where
  pub new_shm : ℤ
  pub exists : Bool
  pub old_shm : ℤ
  pub second_shm : ℤ
  pub attach_ok : Bool

-- Creating the segment, an old one being removed first.
unfoldable pub create_shm : IpcSystem → ℤ × List IpcEvent
create_shm sys =
    if ltb_ℤ sys.new_shm (pos 0) && sys.exists
    then (
      sys.second_shm,
      if not (ltb_ℤ sys.old_shm (pos 0)) then stale_removed sys.old_shm ∷ [] else [],
    )
    else (sys.new_shm, [])

module _ {F : Type 0} (f : FloatOps F) where
  unfoldable pub ipc_init_server : IpcSystem → (ℤ × List IpcEvent) × IpcContext F
  unfolding create_shm
  ipc_init_server sys =
      let (shm_id, events) = create_shm sys in
      if ltb_ℤ shm_id (pos 0)
      then ((neg 1, events), record { shm_id = shm_id; sem_id = pos 0; db = null })
      else if not sys.attach_ok
      then (
        (neg 1, events ++ shm_created shm_id ∷ shm_removed shm_id ∷ []),
        record { shm_id = shm_id; sem_id = pos 0; db = map_failed },
      )
      else (
        (pos 0, events ++ shm_created shm_id ∷ shm_attached ∷ []),
        record { shm_id = shm_id; sem_id = pos 0; db = attached (account_init f) },
      )

module _ {F : Type 0} where
  -- A worker or client that attaches: what `shmget` returns, whether `shmat` succeeds, and the
  -- table in the segment.
  unfoldable pub ipc_attach_client : ℤ → Bool → AccountDb F → ℤ × IpcContext F
  ipc_attach_client shm_id attach_ok table =
      if ltb_ℤ shm_id (pos 0)
      then (neg 1, record { shm_id = shm_id; sem_id = pos 0; db = null })
      else if not attach_ok
      then (neg 1, record { shm_id = shm_id; sem_id = pos 0; db = map_failed })
      else (pos 0, record { shm_id = shm_id; sem_id = pos 0; db = attached table })

  abbrev pub ipc_get_db : IpcContext F → DbPointer F
  ipc_get_db ctx = ctx.db

  -- The table is given up: the server destroys its locks first. The events, and the table as it is
  -- left in the segment.
  unfoldable pub detach_db : DbPointer F → Bool → Run (List IpcEvent × DbPointer F)
  detach_db null is_server = done ([], null)
  detach_db map_failed is_server = done ([], map_failed)
  detach_db (attached db) is_server =
      if is_server
      then (do cleaned ← account_cleanup db; done (shm_detached ∷ [], attached cleaned))
      else done (shm_detached ∷ [], attached db)

  unfoldable pub ipc_cleanup : IpcContext F → Bool → Run (List IpcEvent × DbPointer F)
  unfolding detach_db
  ipc_cleanup ctx is_server = do
    (events, left) ← detach_db ctx.db is_server
    done (
      if is_server && not (ltb_ℤ ctx.shm_id (pos 0))
          then events ++ shm_removed ctx.shm_id ∷ []
          else events,
      left,
    )
