-- ===== src/Tests/Processes.antt =====
-- A worker that accepts two connections, and a master that is told to stop.
use ntut_network_and_system.Base.{◌+◌, ◌==◌, if◌then◌else◌, ◌≡◌, true, false, List, [], ◌∷◌, fault}
use ntut_network_and_system.Base.Int.{pos, neg}
use ntut_network_and_system.Float.Sample.{Tiny, tiny_ops, tiny_IsOrdered, tiny_IsEncoded}
use ntut_network_and_system.Ipc.{attached}
use ntut_network_and_system.Otp.{blank_table}
use ntut_network_and_system.Tls.{OpenSsl, new_context}
use ntut_network_and_system.Server.Accept.{
  Accepted, refused, connected, worker_main, answered, Serves, worker_main-Serves,
}
use ntut_network_and_system.Server.Master.{Host, Master, shut_down_server}
use ntut_network_and_system.Workers.Killed.{killed-cleanup}
use ntut_network_and_system.Tests.Data.{opened_table, opened_table-IsValid}
use ntut_network_and_system.Tests.Exchanges.{link, arrivals, pays_in_packet-IsServable}
use ntut_network_and_system.Tests.Workers.{crossed, crossed-Reach, crossed-locked}

abbrev pub good_tls : OpenSsl
good_tls = record {
  ctx_new = true;
  use_certificate = λ path. true;
  use_private_key = λ path. true;
  load_verify_locations = λ path. true;
  ssl_new = true;
  handshake = true;
}

-- The second client fails the handshake; then the listening socket is closed.
abbrev two_clients : List (Accepted Tiny)
two_clients =
    refused false
    ∷ connected (pos 7) good_tls arrivals
    ∷ connected (pos 7) (record good_tls { handshake = false }) arrivals
    ∷ refused true
    ∷ []

worker_main-Serves_example :
    Serves tiny_ops link tiny_IsOrdered tiny_IsEncoded
      (worker_main tiny_ops link two_clients opened_table blank_table)
      (answered two_clients)
worker_main-Serves_example =
    worker_main-Serves tiny_ops link tiny_IsOrdered tiny_IsEncoded two_clients opened_table
      blank_table
      (
        tt,
        (
          (pays_in_packet-IsServable, (pays_in_packet-IsServable, (tt, tt))),
          ((pays_in_packet-IsServable, (pays_in_packet-IsServable, (tt, tt))), (tt, tt)),
        ),
      )
      opened_table-IsValid

-- The third worker cannot be forked.
abbrev host : Host
host = record {
  openssl = good_tls;
  ipc = record {
    new_shm = pos 3;
    exists = false;
    old_shm = pos 0;
    second_shm = pos 0;
    attach_ok = true;
  };
  socket_fd = pos 4;
  bind_ok = true;
  listen_ok = true;
  fork = λ i. if i == 2 then neg 1 else pos (100 + i);
}

abbrev master : Master Tiny
master = record {
  keep_running = false;
  worker_pids = pos 100 ∷ pos 101 ∷ [];
  server_fd = neg 1;
  ssl_context = new_context;
  ipc_ctx = record { shm_id = pos 3; sem_id = pos 0; db = attached opened_table };
}

-- Worker 0 holds the account's lock when it is killed.
killed-cleanup_example : shut_down_server master crossed.db ≡ fault
killed-cleanup_example =
    killed-cleanup tiny_ops opened_table crossed 0 master tiny_IsOrdered opened_table-IsValid
      crossed-Reach crossed-locked
