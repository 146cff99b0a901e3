-- ===== src/Server/Session.antt =====
-- The loop of `worker_main` over one connection, server/banking_server.c. What `tls_read` returns
-- is an input; the result of `tls_write` is ignored, as the code does.
use ntut_network_and_system.Base.{ℕ, List, [], ◌∷◌, if◌then◌else◌, codes, not, Run, done, ◌>>=◌}
use ntut_network_and_system.Base.Int.{pos, eqb_ℤ}
use ntut_network_and_system.Float.{FloatOps}
use ntut_network_and_system.Account.{AccountDb}
use ntut_network_and_system.Protocol.{BankingPacket, verify_packet_checksum}
use ntut_network_and_system.Response.{pack_response}
use ntut_network_and_system.Server.OtpClient.{OtpLink}
use ntut_network_and_system.Server.Request.{Locals, failure, process_request}

-- One `tls_read`: no bytes or an error, some bytes that are no whole packet, or a packet; with
-- what the locals of the round hold.
pub data Arrival (F : Type 0) : Type 0 where
  closed : Arrival F
  partial : ℕ → Arrival F
  whole : Locals F → BankingPacket → Arrival F

module _ {F : Type 0} (f : FloatOps F) {S : Type 0} (link : OtpLink S) where
  -- One round on a whole packet: the reply, the table and the OTP service after it.
  unfoldable pub serve_packet :
      Locals F → AccountDb F → S → BankingPacket → Run (BankingPacket × AccountDb F × S)
  serve_packet locals db s packet = do
    verified ← verify_packet_checksum packet
    if not (eqb_ℤ verified (pos 0))
        then (do
          (_, reply) ←
              pack_response f locals.rand_id locals.packet
                (failure f (codes "Checksum verification failed"))
          done (reply, db, s))
        else process_request f link locals db s packet

  -- The replies in order, and the table and the OTP service when the connection ends; the empty
  -- list is a connection on which nothing more has arrived.
  unfoldable pub serve_connection :
      List (Arrival F) → AccountDb F → S → Run (List BankingPacket × AccountDb F × S)
  serve_connection [] db s = done ([], db, s)
  serve_connection (closed ∷ rest) db s = done ([], db, s)
  serve_connection (partial n ∷ rest) db s = done ([], db, s)
  serve_connection (whole locals packet ∷ rest) db s = do
    (reply, db', s') ← serve_packet locals db s packet
    (replies, db'', s'') ← serve_connection rest db' s'
    done (reply ∷ replies, db'', s'')
