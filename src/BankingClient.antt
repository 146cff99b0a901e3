-- ===== src/BankingClient.antt =====
-- The interactive client: `send_request`, the four menus and the switch of `main`,
-- client/banking_client.c. The TLS connection is a parameter, and so is what the user types: the
-- word that `scanf("%s")` reads and the number that `scanf("%lf")` reads, if it reads one. What a
-- menu prints of an answer is its result.
pub mod Session
use ntut_network_and_system.Base.{
  ℕ, ◌+◌, ◌≡◌, Bool, true, false, not, Option, none, some, List, [], ◌∷◌, ◌++◌, if◌then◌else◌, ltb,
  length, drop, Run, done, fault, ◌>>=◌,
}
use ntut_network_and_system.Base.Int.{ℤ, pos, neg, eqb_ℤ}
use ntut_network_and_system.CString.{c_str}
use ntut_network_and_system.Float.{FloatOps}
use ntut_network_and_system.Protocol.{
  BankingPacket, op_create_account, op_deposit, op_withdraw, op_balance, pack_request,
}
use ntut_network_and_system.Response.{BankingResponse, response_of, unpack_response}

-- `tls_write`, which succeeds or not, and `tls_read` into a packet, which gives none where it
-- fails or ends; with the state of the other end.
pub record TlsLink (S : Type 0) : Type 0 where
  pub tls_write : BankingPacket → S → Bool × S
  pub tls_read : BankingPacket → S → Option BankingPacket × S

-- The uninitialised variables of a menu and of `send_request`, and the `rand()` of the request.
pub record Frame (F : Type 0) : Type 0 where
  pub account_id : List ℕ
  pub amount : F
  pub response : List ℕ
  pub req_packet : BankingPacket
  pub resp_packet : BankingPacket
  pub rand_id : ℕ

-- `scanf("%s", dest)`: the word and a NUL, which must fit.
unfoldable pub scan_word : List ℕ → List ℕ → Run (List ℕ)
scan_word dest word =
    if ltb (length word) (length dest)
    then done (word ++ 0 ∷ drop (length word + 1) dest)
    else fault

-- What a menu prints: the status, the message, and the balance if the status is 0.
pub record Printed (F : Type 0) : Type 0 where
  pub status : ℤ
  pub message : List ℕ
  pub balance : Option F

-- The user's choice at the main menu.
pub data Choice (F : Type 0) : Type 0 where
  create_account : List ℕ → Option F → Choice F
  make_deposit : List ℕ → Option F → Choice F
  make_withdrawal : List ℕ → Option F → Choice F
  check_balance : List ℕ → Choice F
  no_choice : Choice F

-- The value of a variable after `scanf("%lf")`.
abbrev pub scanned : {F : Type 0} → Option F → F → F
scanned none old = old
scanned (some x) old = x

module _ {F : Type 0} (f : FloatOps F) where
  abbrev pub printed : BankingResponse F → Printed F
  printed r = record {
    status = r.status;
    message = c_str r.message;
    balance = if eqb_ℤ r.status (pos 0) then some r.balance else none;
  }

  module _ {S : Type 0} (link : TlsLink S) (frame : Frame F) where
    -- After the request has been written.
    unfoldable pub receive_response : S → Run ((ℤ × List ℕ) × S)
    receive_response s =
        let (got, s') = link.tls_read frame.resp_packet s in
        elim got [
          | none ↦ done ((neg 1, frame.response), s')
          | some resp_packet ↦ do
            (code, response) ← unpack_response resp_packet frame.response
            if not (eqb_ℤ code (pos 0))
                then done ((neg 1, response), s')
                else done ((pos 0, response), s')
        ]

    -- The result, and the caller's response struct afterwards.
    unfoldable pub send_request : ℕ → List ℕ → ℕ → S → Run ((ℤ × List ℕ) × S)
    unfolding receive_response
    send_request opcode req_data req_size s = do
      (code, req_packet) ← pack_request frame.rand_id frame.req_packet opcode req_data req_size
      if not (eqb_ℤ code (pos 0))
          then done ((neg 1, frame.response), s)
          else (let (sent, s') = link.tls_write req_packet s in
              if not sent then done ((neg 1, frame.response), s') else receive_response s')

    -- The end of each menu: the request, and what is printed of the answer.
    unfoldable pub request_and_print : ℕ → List ℕ → ℕ → S → Run (Option (Printed F) × S)
    unfolding send_request
    request_and_print opcode req_data req_size s = do
      ((code, response), s') ← send_request opcode req_data req_size s
      done (if eqb_ℤ code (pos 0) then some (printed (response_of f response)) else none, s')

    unfoldable pub menu_create_account : List ℕ → Option F → S → Run (Option (Printed F) × S)
    unfolding scan_word request_and_print
    menu_create_account word number s = do
      id ← scan_word frame.account_id word
      request_and_print op_create_account (id ++ f.to_bytes (scanned number frame.amount)) 28 s

    unfoldable pub menu_deposit : List ℕ → Option F → S → Run (Option (Printed F) × S)
    unfolding scan_word request_and_print
    menu_deposit word number s = do
      id ← scan_word frame.account_id word
      request_and_print op_deposit (id ++ f.to_bytes (scanned number frame.amount)) 28 s

    unfoldable pub menu_withdraw : List ℕ → Option F → S → Run (Option (Printed F) × S)
    unfolding scan_word request_and_print
    menu_withdraw word number s = do
      id ← scan_word frame.account_id word
      request_and_print op_withdraw (id ++ f.to_bytes (scanned number frame.amount)) 28 s

    unfoldable pub menu_check_balance : List ℕ → S → Run (Option (Printed F) × S)
    unfolding scan_word request_and_print
    menu_check_balance word s = do
      id ← scan_word frame.account_id word
      request_and_print op_balance id 20 s

    -- The switch of `main`; an invalid choice only prints a line.
    unfoldable pub choose : Choice F → S → Run (Option (Printed F) × S)
    unfolding menu_create_account menu_deposit menu_withdraw menu_check_balance
    choose (create_account word number) s = menu_create_account word number s
    choose (make_deposit word number) s = menu_deposit word number s
    choose (make_withdrawal word number) s = menu_withdraw word number s
    choose (check_balance word) s = menu_check_balance word s
    choose no_choice s = done (none, s)
