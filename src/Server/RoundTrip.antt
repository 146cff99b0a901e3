-- ===== src/Server/RoundTrip.antt =====
-- A whole exchange: the client packs a request, the worker serves the packet, the client unpacks
-- the reply.
use ntut_network_and_system.Base.{sym, ℕ, ◌≡◌, ap, ◌∙◌, ◌≤◌, List, length, arith, Run, done}
use ntut_network_and_system.Base.Int.{ℤ, pos}
use ntut_network_and_system.Float.{FloatOps, IsOrdered, IsEncoded}
use ntut_network_and_system.Account.{AccountDb, Outcome}
use ntut_network_and_system.Account.Invariant.{IsValid}
use ntut_network_and_system.Account.Ledger.{Op, create, deposit, withdraw, query, view, post, call}
use ntut_network_and_system.Account.Refine.{call-Implements}
use ntut_network_and_system.Account.Total.{IsCode, post-IsCode}
use ntut_network_and_system.Protocol.{BankingPacket, op_response, pack_request}
use ntut_network_and_system.Protocol.Codec.{packed, pack_request-packed, verify-packed}
use ntut_network_and_system.Response.{response_bytes, response_of, unpack_response}
use ntut_network_and_system.Response.RoundTrip.{
  IsSized, pack_response-packed, unpack_response-packed, response_of-bytes,
}
use ntut_network_and_system.Server.OtpClient.{OtpLink}
use ntut_network_and_system.Server.Request.{
  answer_balance, answer_withdraw, answer_deposit, answer_create, Locals, process_request,
}
use ntut_network_and_system.Server.Session.{serve_packet}
use ntut_network_and_system.Server.Handlers.{IsFrame, answer-IsSized}
use ntut_network_and_system.Server.Wire.{
  IsId, id_of, opcode_of, struct_of, received, post-received, Fits-received, length-struct,
  answer_to, answer_to-db, answer_to-status, dispatch-call,
}

packed_inj :
    {p q : BankingPacket}
    → ◌≡◌ {A = Run (ℤ × BankingPacket)} (done (pos 0, p)) (done (pos 0, q))
    → p ≡ q
packed_inj h = cc

module _ {F : Type 0} (f : FloatOps F) {S : Type 0} (link : OtpLink S) (ord : IsOrdered f)
    (enc : IsEncoded f) (locals : Locals F) (frame : IsFrame locals) where
  answer_to-IsSized :
      (op : Op F) (o : Outcome F) → IsCode o.code → IsSized (answer_to f locals op o).0
  unfolding answer_create answer_deposit answer_withdraw answer_balance
  answer_to-IsSized (create id b) o c = answer-IsSized o c _ _
  answer_to-IsSized (deposit id x) o c = answer-IsSized o c _ _
  answer_to-IsSized (withdraw id x) o c = answer-IsSized o c _ _
  answer_to-IsSized (query id) o c = answer-IsSized o c _ _

  pub length-struct_of : (op : Op F) → IsId (id_of f op) → length (struct_of f op) ≤ 1024
  length-struct_of (create id b) ok = omega (arith, length-struct f id b enc ok.id_length)
  length-struct_of (deposit id x) ok = omega (arith, length-struct f id x enc ok.id_length)
  length-struct_of (withdraw id x) ok = omega (arith, length-struct f id x enc ok.id_length)
  length-struct_of (query id) ok = omega (arith, ok.id_length)

  -- The packet that the client sends for an operation is served by that operation on the table.
  serve-packed :
      (op : Op F) (rand_id : ℕ) (db : AccountDb F) (s : S) (o : Outcome F)
      → IsId (id_of f op)
      → call f (received f op) db ≡ done o
      → IsCode o.code
      → serve_packet f link locals db s (packed rand_id (opcode_of f op) (struct_of f op))
        ≡ done (
          packed locals.rand_id op_response (response_bytes f (answer_to f locals op o).0),
          o.db,
          s,
        )
  unfolding serve_packet process_request
  serve-packed op rand_id db s o ok run c = rw (
    verify-packed rand_id (opcode_of f op) (struct_of f op) (length-struct_of op ok),
    dispatch-call f link ord enc locals frame op rand_id db s ok,
    run,
    pack_response-packed f enc (answer_to f locals op o).0 (answer_to-IsSized op o c) locals.rand_id
        locals.packet,
    answer_to-db f locals op o,
  )

  -- Take a well-formed table, an id that is a C string in its 20 bytes, and a server whose
  -- uninitialised structs have their sizes. When the client packs the request struct of a
  -- creation, a deposit, a withdrawal or a query and sends the packet, the worker answers it.
  -- The client unpacks that answer, into any struct of 268 bytes, to the handler's response to
  -- the call, and its status is the code that the ledger answers. The call writes the balance
  -- that the ledger reports, and the table afterwards is well formed and stands for the ledger's
  -- new state. The numbers' order and their 8 bytes are as the hypotheses on `double` say.
  pub exchange-Implements :
      (op : Op F) (rand_id : ℕ) (old packet : BankingPacket) (db : AccountDb F) (s : S)
      (block : List ℕ)
      → IsValid f db
      → IsId (id_of f op)
      → pack_request rand_id old (opcode_of f op) (struct_of f op) (length (struct_of f op))
        ≡ done (pos 0, packet)
      → length block ≡ 268
      → (o : Outcome F) × (reply : BankingPacket) × (bytes : List ℕ) × (serve_packet f link locals
            db s packet
          ≡ done (reply, o.db, s))
        × (unpack_response reply block ≡ done (pos 0, bytes))
        × (response_of f bytes ≡ (answer_to f locals op o).0)
        × ((response_of f bytes).status ≡ (post f op (view db)).code)
        × (o.written ≡ (post f op (view db)).reported)
        × IsValid f o.db
        × (view o.db ≡ (post f op (view db)).ledger)
  exchange-Implements op rand_id old packet db s block v ok sent size =
      let same = post-received f op db ok in
      let (o, run, code, written, v', ledger) =
        call-Implements f db (received f op) ord v (Fits-received f op ok) in
      let c : IsCode o.code = rw code (post-IsCode f (received f op) (view db)) in
      let r = (answer_to f locals op o).0 in
      let sized = answer_to-IsSized op o c in
      let is = packed_inj (
        sym sent
        ∙ pack_request-packed rand_id old (opcode_of f op) (struct_of f op)
            (length-struct_of op ok)) in
      (
        o,
        packed locals.rand_id op_response (response_bytes f r),
        response_bytes f r,
        rw is (serve-packed op rand_id db s o ok run c),
        unpack_response-packed f enc r sized locals.rand_id block size,
        response_of-bytes f enc r sized,
        ap (λ x. x.status) (response_of-bytes f enc r sized)
            ∙ answer_to-status f locals op o
            ∙ code
            ∙ ap (λ e. e.code) same,
        written ∙ ap (λ e. e.reported) same,
        v',
        ledger ∙ ap (λ e. e.ledger) same,
      )
