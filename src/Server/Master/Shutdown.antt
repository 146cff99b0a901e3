-- ===== src/Server/Master/Shutdown.antt =====
-- The master gives back all that it takes, however it ends.
use ntut_network_and_system.Base.{◌≡◌, Option, none, some, List, ◌++◌, Run, done, ◌>>=◌}
use ntut_network_and_system.Base.Int.{ℤ, pos}
use ntut_network_and_system.Float.{FloatOps}
use ntut_network_and_system.Account.{AccountDb}
use ntut_network_and_system.Ipc.{ipc_init_server}
use ntut_network_and_system.Resources.{Resource, Event, replay, IsBalanced}
use ntut_network_and_system.Server.Master.{Host, Master, shut_down_server}
use ntut_network_and_system.Server.Master.Startup.{running}

module _ {F : Type 0} (f : FloatOps F) where
  -- Where the process ends, all is given back; where it does not, the socket, the memory and the
  -- context are held.
  abbrev pub Leaves : Host → Option ℤ → List Event → Type 0
  Leaves host (some code) events = IsBalanced events
  Leaves host none events =
      (held : List Resource)
      → replay events (some held) ≡ some (running f host (ipc_init_server f host.ipc).1.shm_id held)

  -- A master that waits, and the signals that it gets.
  abbrev finish :
      List Event → AccountDb F → Option (List Event × Master F) → Run (Option ℤ × List Event)
  finish events db none = done (none, events)
  finish events db (some (events', m)) = do
    events'' ← shut_down_server m db
    done (some (pos 0), events ++ (events' ++ events''))
