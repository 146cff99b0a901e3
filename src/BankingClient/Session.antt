-- ===== src/BankingClient/Session.antt =====
-- A user at the menus of the client, with a worker of the banking server at the other end.
use ntut_network_and_system.Base.{
  ℕ, ◌+◌, ◌≡◌, refl, sym, ◌∙◌, ◌≤◌, ◌<◌, true, Option, none, some, List, [], ◌∷◌, ◌++◌, arith,
  length, length-append, drop, length-drop, lt-ltb, Run, done, blocked, fault,
}
use ntut_network_and_system.Base.Int.{pos}
use ntut_network_and_system.CString.{IsText, terminated-nul}
use ntut_network_and_system.Float.{FloatOps, IsOrdered, IsEncoded}
use ntut_network_and_system.Account.{AccountDb}
use ntut_network_and_system.Account.Invariant.{IsValid}
use ntut_network_and_system.Account.Ledger.{Op, create, deposit, withdraw, query, view, post}
use ntut_network_and_system.Protocol.{BankingPacket}
use ntut_network_and_system.Protocol.Codec.{pack_request-packed}
use ntut_network_and_system.Response.{response_of, unpack_response}
use ntut_network_and_system.Server.OtpClient.{OtpLink}
use ntut_network_and_system.Server.Request.{Locals}
use ntut_network_and_system.Server.Session.{serve_packet}
use ntut_network_and_system.Server.Handlers.{IsFrame}
use ntut_network_and_system.Server.Wire.{IsId, id_of, opcode_of, struct_of, length-struct}
use ntut_network_and_system.Server.RoundTrip.{exchange-Implements}
use ntut_network_and_system.BankingClient.{
  pack_request, TlsLink, Frame, scan_word, Printed, Choice, create_account, make_deposit,
  make_withdrawal, check_balance, no_choice, scanned, printed, receive_response, send_request,
  request_and_print, menu_create_account, menu_deposit, menu_withdraw, menu_check_balance, choose,
}

-- The worker behind a connection: the table, the OTP service, and the reply not yet read.
abbrev pub Worker : Type 0 → Type 0 → Type 0
Worker F S = AccountDb F × S × Option BankingPacket

-- A connection that loses nothing: what is written is served, and the reply is read.
unfoldable pub worker_link :
    {F : Type 0} {S : Type 0} → FloatOps F → OtpLink S → Locals F → TlsLink (Worker F S)
worker_link f otp locals = record {
  tls_write = λ p w. elim (serve_packet f otp locals w.0 w.1 p) [
    | done (reply, db, s) ↦ (true, (db, s, some reply))
    | blocked ↦ (true, (w.0, w.1, none))
    | fault ↦ (true, (w.0, w.1, none))
  ];
  tls_read = λ old w. (w.2, (w.0, w.1, none));
}

-- The operation that a choice asks for, with the id in an array that held `old`.
abbrev pub typed_id : List ℕ → List ℕ → List ℕ
typed_id word old = word ++ 0 ∷ drop (length word + 1) old

abbrev pub word_of_choice : {F : Type 0} → Choice F → List ℕ
word_of_choice (create_account word number) = word
word_of_choice (make_deposit word number) = word
word_of_choice (make_withdrawal word number) = word
word_of_choice (check_balance word) = word
word_of_choice no_choice = []

typed_id-IsId :
    (word old : List ℕ)
    → IsText word
    → length old ≡ 20
    → length word < 20
    → IsId (typed_id word old)
typed_id-IsId word old text size short = record {
  id_length =
      length-append word (0 ∷ drop (length word + 1) old)
      ∙ omega (arith, length-drop (length word + 1) old);
  id_terminated = terminated-nul word (drop (length word + 1) old);
}

scan_word-done :
    (word old : List ℕ)
    → length old ≡ 20
    → length word < 20
    → scan_word old word ≡ done (typed_id word old)
unfolding scan_word
scan_word-done word old size short = rw (lt-ltb (length word) (length old) (omega arith)) refl

tls_write-served :
    {F : Type 0} (f : FloatOps F) {S : Type 0} (otp : OtpLink S) (locals : Locals F)
    (db db' : AccountDb F) (s s' : S) (packet reply : BankingPacket)
    → serve_packet f otp locals db s packet ≡ done (reply, db', s')
    → (worker_link f otp locals).tls_write packet (db, s, none) ≡ (true, (db', s', some reply))
unfolding worker_link
tls_write-served f otp locals db db' s s' packet reply serve = ground arith

receive_response-served :
    {F : Type 0} (f : FloatOps F) {S : Type 0} (otp : OtpLink S) (locals : Locals F)
    (frame : Frame F) (db : AccountDb F) (s : S) (reply : BankingPacket) (bytes : List ℕ)
    → unpack_response reply frame.response ≡ done (pos 0, bytes)
    → receive_response f (worker_link f otp locals) frame (db, s, some reply)
      ≡ done ((pos 0, bytes), (db, s, none))
unfolding receive_response worker_link
receive_response-served f otp locals frame db s reply bytes unpack = rw unpack refl

-- A request that the worker serves, from packing it to unpacking the answer.
request_and_print_runs :
    {F : Type 0} (f : FloatOps F) {S : Type 0} (otp : OtpLink S) (locals : Locals F)
    (frame : Frame F) (opcode size : ℕ) (req_data bytes : List ℕ) (db db' : AccountDb F) (s s' : S)
    (packet reply : BankingPacket)
    → pack_request frame.rand_id frame.req_packet opcode req_data size ≡ done (pos 0, packet)
    → serve_packet f otp locals db s packet ≡ done (reply, db', s')
    → unpack_response reply frame.response ≡ done (pos 0, bytes)
    → request_and_print f (worker_link f otp locals) frame opcode req_data size (db, s, none)
      ≡ done (some (printed f (response_of f bytes)), (db', s', none))
unfolding request_and_print send_request
request_and_print_runs f otp locals frame opcode size req_data bytes db db' s s' packet reply pack
      serve unpack =
    rw (
      pack,
      tls_write-served f otp locals db db' s s' packet reply serve,
      receive_response-served f otp locals frame db' s' reply bytes unpack,
    )

module _ {F : Type 0} (f : FloatOps F) {S : Type 0} (otp : OtpLink S) (ord : IsOrdered f)
    (enc : IsEncoded f) (locals : Locals F) (ready : IsFrame locals) (frame : Frame F)
    (db : AccountDb F) (s : S) (v : IsValid f db) where
  -- What is printed for an operation, and the worker after it.
  abbrev pub Prints : Op F → Run (Option (Printed F) × Worker F S) → Type 0
  Prints op run =
      (shown : Printed F) × (db' : AccountDb F) × (run ≡ done (some shown, (db', s, none)))
      × (shown.status ≡ (post f op (view db)).code)
      × IsValid f db'
      × (view db' ≡ (post f op (view db)).ledger)

  request_and_print-Prints :
      (op : Op F) (size : ℕ)
      → IsId (id_of f op)
      → length (struct_of f op) ≡ size
      → size ≤ 1024
      → length frame.response ≡ 268
      → Prints op (
          request_and_print f
            (worker_link f otp locals)
            frame
            (opcode_of f op)
            (struct_of f op)
            size
            (db, s, none))
  request_and_print-Prints op size ok len small room =
      let pack =
        pack_request-packed frame.rand_id frame.req_packet (opcode_of f op) (struct_of f op)
          (omega arith) in
      let (o, reply, bytes, serve, unpack, same, status, written, v', ledger) =
        exchange-Implements f otp ord enc locals ready op frame.rand_id frame.req_packet _ db s
          frame.response v ok pack room in
      (
        printed f (response_of f bytes),
        o.db,
        request_and_print_runs f otp locals frame (opcode_of f op) size (struct_of f op) bytes db
            o.db s s _ reply (rw (sym len) pack) serve unpack,
        status,
        v',
        ledger,
      )

  -- A choice is answered as the ledger answers the operation that it asks for; an invalid one
  -- does nothing.
  abbrev pub Answers : Choice F → Run (Option (Printed F) × Worker F S) → Type 0
  Answers (create_account word number) run =
      Prints (create (typed_id word frame.account_id) (scanned number frame.amount)) run
  Answers (make_deposit word number) run =
      Prints (deposit (typed_id word frame.account_id) (scanned number frame.amount)) run
  Answers (make_withdrawal word number) run =
      Prints (withdraw (typed_id word frame.account_id) (scanned number frame.amount)) run
  Answers (check_balance word) run = Prints (query (typed_id word frame.account_id)) run
  Answers no_choice run = run ≡ done (none, (db, s, none))

  module _ (room : length frame.response ≡ 268) (slot : length frame.account_id ≡ 20) where
    -- At the other end is a worker with a well-formed table, on a connection that loses nothing.
    -- The word that the user types is a text of fewer than 20 characters, and the uninitialised
    -- variables of the client and the server have their sizes. Then each of the four menus
    -- prints an answer whose status is the code that the ledger gives for the operation, on the
    -- id and the amount as they stand in the request struct after the input, and the worker's
    -- table afterwards is well formed and stands for the ledger's new state; an invalid choice
    -- does nothing.
    pub choose-Answers :
        (c : Choice F)
        → IsText (word_of_choice c)
        → length (word_of_choice c) < 20
        → Answers c (choose f (worker_link f otp locals) frame c (db, s, none))
    unfolding choose menu_create_account menu_deposit menu_withdraw menu_check_balance
    choose-Answers (create_account word number) text short =
        let id = typed_id-IsId word frame.account_id text slot short in
        rw (scan_word-done word frame.account_id slot short) (
          request_and_print-Prints
            (create (typed_id word frame.account_id) (scanned number frame.amount)) 28 id
            (length-struct f (typed_id word frame.account_id) (scanned number frame.amount) enc
              id.id_length)
            (omega arith) room)
    choose-Answers (make_deposit word number) text short =
        let id = typed_id-IsId word frame.account_id text slot short in
        rw (scan_word-done word frame.account_id slot short) (
          request_and_print-Prints
            (deposit (typed_id word frame.account_id) (scanned number frame.amount)) 28 id
            (length-struct f (typed_id word frame.account_id) (scanned number frame.amount) enc
              id.id_length)
            (omega arith) room)
    choose-Answers (make_withdrawal word number) text short =
        let id = typed_id-IsId word frame.account_id text slot short in
        rw (scan_word-done word frame.account_id slot short) (
          request_and_print-Prints
            (withdraw (typed_id word frame.account_id) (scanned number frame.amount)) 28 id
            (length-struct f (typed_id word frame.account_id) (scanned number frame.amount) enc
              id.id_length)
            (omega arith) room)
    choose-Answers (check_balance word) text short =
        let id = typed_id-IsId word frame.account_id text slot short in
        rw (scan_word-done word frame.account_id slot short) (
          request_and_print-Prints (query (typed_id word frame.account_id)) 20 id id.id_length
            (omega arith) room)
    choose-Answers no_choice text short = refl
