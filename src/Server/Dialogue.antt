-- ===== src/Server/Dialogue.antt =====
-- A whole connection of one client: any sequence of requests for table operations.
use ntut_network_and_system.Base.{
  ℕ, ◌≡◌, refl, ap, ◌∙◌, List, [], ◌∷◌, length, All, Option, Run, done, ◌>>=◌,
}
use mathlib.Core.Path.{subst}
use ntut_network_and_system.Base.Int.{ℤ, pos}
use ntut_network_and_system.Float.{FloatOps, IsOrdered, IsEncoded}
use ntut_network_and_system.Account.{AccountDb}
use ntut_network_and_system.Account.Invariant.{IsValid}
use ntut_network_and_system.Account.Ledger.{Op, view, posts}
use ntut_network_and_system.Protocol.{BankingPacket, pack_request}
use ntut_network_and_system.Protocol.Codec.{packed, pack_request-packed}
use ntut_network_and_system.Response.{response_of, unpack_response}
use ntut_network_and_system.Server.OtpClient.{OtpLink}
use ntut_network_and_system.Server.Request.{Locals}
use ntut_network_and_system.Server.Session.{Arrival, whole, serve_connection}
use ntut_network_and_system.Server.Handlers.{IsFrame}
use ntut_network_and_system.Server.Wire.{IsId, id_of, opcode_of, struct_of}
use ntut_network_and_system.Server.RoundTrip.{exchange-Implements, length-struct_of}

module _ {F : Type 0} (f : FloatOps F) where
  -- One request of the client: the operation, the value of `rand` and the struct that the client
  -- packs into, and the uninitialised variables of the server that serves it.
  pub record Turn : Type 0 where
    pub op : Op F
    pub rand_id : ℕ
    pub old : BankingPacket
    pub locals : Locals F

  -- The packets that the client packs for its requests, as they arrive.
  unfoldable pub packets : List Turn → Run (List (Arrival F))
  packets [] = done []
  packets (r ∷ rs) = do
    (code, packet) ←
        pack_request r.rand_id r.old (opcode_of f r.op) (struct_of f r.op)
          (length (struct_of f r.op))
    rest ← packets rs
    done (whole r.locals packet ∷ rest)

  abbrev pub ops_of : List Turn → List (Op F)
  ops_of [] = []
  ops_of (r ∷ rs) = r.op ∷ ops_of rs

  -- A turn whose id is a C string in its 20 bytes, and whose uninitialised structs have their
  -- sizes.
  abbrev pub IsTurn : Turn → Type 0
  IsTurn r = IsId (id_of f r.op) × IsFrame r.locals

  -- The client unpacks each reply, into a struct that held `block`, to the status of the answer.
  abbrev pub Tells : List ℕ → List BankingPacket → List (ℤ × Option F) → Type 0
  Tells block [] [] = Unit
  Tells block (reply ∷ replies) ((code, reported) ∷ answers) =
      ((bytes : List ℕ) × (unpack_response reply block ≡ done (pos 0, bytes))
        × ((response_of f bytes).status ≡ code))
      × Tells block replies answers
  Tells block [] (a ∷ answers) = ⊥
  Tells block (reply ∷ replies) [] = ⊥

  -- Take a well-formed table, any sequence of creations, deposits, withdrawals and queries whose
  -- ids are C strings in their 20 bytes, and for each of them any numbers that `rand` gives the
  -- client and the server, any packet struct that the client packs into, and any values of the
  -- server's uninitialised variables, whose structs have their sizes. The client packs a packet
  -- for each. When it sends them over one connection, the worker's loop over it ends, with one
  -- reply to each packet in order. The client unpacks each reply, into any struct of 268 bytes,
  -- to a response whose status is the code that the ledger gives for that operation in the
  -- sequence. The table afterwards is well formed and stands for the ledger's state. The
  -- numbers' order and their 8 bytes are as the hypotheses on `double` say.
  pub serve_connection-Implements :
      {S : Type 0} (link : OtpLink S) (block : List ℕ) (turns : List Turn) (db : AccountDb F)
      (s : S)
      → IsOrdered f
      → IsEncoded f
      → length block ≡ 268
      → All IsTurn turns
      → IsValid f db
      → (arrivals : List (Arrival F)) × (replies : List BankingPacket) × (db' : AccountDb F)
        × (packets turns ≡ done arrivals)
        × (serve_connection f link arrivals db s ≡ done (replies, db', s))
        × Tells block replies (posts f (ops_of turns) (view db)).0
        × IsValid f db'
        × (view db' ≡ (posts f (ops_of turns) (view db)).1)
  unfolding packets serve_connection posts
  serve_connection-Implements link block [] db s ord enc size turns v =
      ([], [], db, refl, refl, tt, v, refl)
  serve_connection-Implements link block (r ∷ rs) db s ord enc size ((id, frame), later) v =
      let packet = packed r.rand_id (opcode_of f r.op) (struct_of f r.op) in
      let sent =
        pack_request-packed r.rand_id r.old (opcode_of f r.op) (struct_of f r.op)
          (length-struct_of f link ord enc r.locals frame r.op id) in
      let (o, reply, bytes, run, unpack, same, status, written, v', ledger) =
        exchange-Implements f link ord enc r.locals frame r.op r.rand_id r.old packet db s block v
          id sent size in
      let (arrivals, replies, db', sends, runs, tells, w, sames) =
        serve_connection-Implements link block rs o.db s ord enc size later v' in
      (
        whole r.locals packet ∷ arrivals,
        reply ∷ replies,
        db',
        rw (sent, sends) refl,
        rw (run, runs),
        (
          (bytes, unpack, status),
          subst (λ l. Tells block replies (posts f (ops_of rs) l).0) ledger tells,
        ),
        w,
        sames ∙ ap (λ l. (posts f (ops_of rs) l).1) ledger,
      )
