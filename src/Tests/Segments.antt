-- ===== src/Tests/Segments.antt =====
-- Shared memory: a start where an old segment is in the way.
use ntut_network_and_system.Base.{◌⊎◌, true}
use ntut_network_and_system.Base.Int.{pos, neg}
use ntut_network_and_system.Float.Sample.{tiny_ops, tiny_IsOrdered}
use ntut_network_and_system.Ipc.{IpcSystem, ipc_init_server}
use ntut_network_and_system.Ipc.Lifecycle.{Lives, Fails, lifecycle}
use ntut_network_and_system.Tests.Accounts.{day, day-Fits}

abbrev restarted : IpcSystem
restarted = record {
  new_shm = neg 1;
  exists = true;
  old_shm = pos 7;
  second_shm = pos 8;
  attach_ok = true;
}

lifecycle_example :
    Lives tiny_ops tiny_IsOrdered day day-Fits
      (ipc_init_server tiny_ops restarted).0.0
      (ipc_init_server tiny_ops restarted).1
    ⊎ Fails tiny_ops tiny_IsOrdered day day-Fits
        (ipc_init_server tiny_ops restarted).0.0
        (ipc_init_server tiny_ops restarted).0.1
        (ipc_init_server tiny_ops restarted).1
lifecycle_example = lifecycle tiny_ops tiny_IsOrdered day day-Fits restarted
