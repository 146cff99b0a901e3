-- ===== src/Server/Request.antt =====
-- `process_request`, server/banking_server.c: a function for each case of its switch. A request
-- struct is the block of bytes that `unpack_request` filled, and the pointer to a `char` array in
-- it is the block from that array on.
use ntut_network_and_system.Base.{
  ℕ, Option, none, some, List, ◌++◌, if◌then◌else◌, ◌==◌, ◌||◌, ◌&&◌, not, Bool, fault, take, drop,
  replicate, codes, Run, done, ◌>>=◌,
}
use ntut_network_and_system.Base.Int.{ℤ, pos, neg, eqb_ℤ}
use ntut_network_and_system.CString.{c_str, terminated, snprintf}
use ntut_network_and_system.Float.{FloatOps}
use ntut_network_and_system.Account.{
  AccountDb, Outcome, account_create, account_deposit, account_withdraw, account_get_balance,
}
use ntut_network_and_system.Memory.{ntohs}
use ntut_network_and_system.Protocol.{
  BankingPacket, unpack_request, op_create_account, op_deposit, op_withdraw, op_balance, op_req_otp,
  op_login, status_success, status_error,
}
use ntut_network_and_system.Response.{BankingResponse, blank_response, pack_response}
use ntut_network_and_system.Server.OtpClient.{OtpLink, request_otp_generation, verify_otp_remote}

-- What a call of `process_request` finds in its uninitialised variables, and the `rand()` that
-- numbers its answer.
pub record Locals (F : Type 0) : Type 0 where
  pub block : ℕ → List ℕ
  pub number : F
  pub packet : BankingPacket
  pub rand_id : ℕ

-- The `double` behind the 20 bytes of an id; and the `otp` there in a `LoginRequest`.
abbrev pub amount_field : {F : Type 0} → FloatOps F → List ℕ → F
amount_field f block = f.of_bytes (take 8 (drop 20 block))

abbrev pub otp_field : List ℕ → List ℕ
otp_field block = drop 20 block

-- The value of an output variable after the call.
abbrev pub after_call : {F : Type 0} → Option F → F → F
after_call none old = old
after_call (some new) old = new

-- `response.message`, which is all zeros before it is written.
abbrev pub print_message : List ℕ → List ℕ
print_message text = snprintf (replicate 256 0) text

-- A message with the id's `%s` reads the id up to its NUL, which is a fault where the struct that it
-- stands in has none.
abbrev pub with_id : {A : Type 0} → List ℕ → Bool → A → Run A
with_id id shown answer = if not (terminated id) && shown then fault else done answer

module _ {F : Type 0} (f : FloatOps F) where
  abbrev pub failure : List ℕ → BankingResponse F
  failure text = record (blank_response f) { status = status_error; message = print_message text }

  abbrev pub success : List ℕ → BankingResponse F
  success text = record (blank_response f) { status = status_success; message = print_message text }

  abbrev pub invalid_format : BankingResponse F
  invalid_format = failure (codes "Invalid request format")

  abbrev pub create_message : ℤ → List ℕ → List ℕ
  create_message result id =
      if eqb_ℤ result (pos 0)
      then codes "Account " ++ (c_str id ++ codes " created successfully")
      else if eqb_ℤ result (neg 4)
      then codes "Account " ++ (c_str id ++ codes " already exists")
      else if eqb_ℤ result (neg 5)
      then codes "Database full, cannot create account"
      else codes "Failed to create account"

  unfoldable pub answer_create : Outcome F → List ℕ → F → BankingResponse F × AccountDb F
  answer_create o req initial = (
    record {
      status = o.code;
      message = print_message (create_message o.code req);
      balance = initial;
    },
    o.db,
  )

  unfoldable pub process_create :
      Locals F → AccountDb F → BankingPacket → Run (BankingResponse F × AccountDb F)
  process_create locals db packet = do
    (unpacked, req) ← unpack_request packet (locals.block 28) 28
    if eqb_ℤ unpacked (pos 0)
        then (do
          o ← account_create f db req (amount_field f req)
          with_id req (eqb_ℤ o.code (pos 0) || eqb_ℤ o.code (neg 4))
              (answer_create o req (amount_field f req)))
        else done (invalid_format, db)

  abbrev pub deposit_message : ℤ → List ℕ → F → List ℕ
  deposit_message result id amount =
      if eqb_ℤ result (pos 0)
      then codes "Deposited " ++ (f.format_2f amount ++ (codes " to account " ++ c_str id))
      else if eqb_ℤ result (neg 2)
      then codes "Account " ++ (c_str id ++ codes " not found")
      else codes "Deposit failed"

  -- `new_balance` is not initialised: where the call does not write it, the answer carries what
  -- stood in it.
  unfoldable pub answer_deposit : Outcome F → List ℕ → F → F → BankingResponse F × AccountDb F
  answer_deposit o req amount old = (
    record {
      status = o.code;
      message = print_message (deposit_message o.code req amount);
      balance = after_call o.written old;
    },
    o.db,
  )

  unfoldable pub process_deposit :
      Locals F → AccountDb F → BankingPacket → Run (BankingResponse F × AccountDb F)
  process_deposit locals db packet = do
    (unpacked, req) ← unpack_request packet (locals.block 28) 28
    if eqb_ℤ unpacked (pos 0)
        then (do
          o ← account_deposit f db req (amount_field f req)
          with_id req (eqb_ℤ o.code (pos 0) || eqb_ℤ o.code (neg 2))
              (answer_deposit o req (amount_field f req) locals.number))
        else done (invalid_format, db)

  abbrev pub withdraw_message : ℤ → List ℕ → F → List ℕ
  withdraw_message result id amount =
      if eqb_ℤ result (pos 0)
      then codes "Withdrew " ++ (f.format_2f amount ++ (codes " from account " ++ c_str id))
      else if eqb_ℤ result (neg 2)
      then codes "Account " ++ (c_str id ++ codes " not found")
      else if eqb_ℤ result (neg 3)
      then codes "Insufficient funds"
      else codes "Withdrawal failed"

  unfoldable pub answer_withdraw : Outcome F → List ℕ → F → F → BankingResponse F × AccountDb F
  answer_withdraw o req amount old = (
    record {
      status = o.code;
      message = print_message (withdraw_message o.code req amount);
      balance = after_call o.written old;
    },
    o.db,
  )

  unfoldable pub process_withdraw :
      Locals F → AccountDb F → BankingPacket → Run (BankingResponse F × AccountDb F)
  process_withdraw locals db packet = do
    (unpacked, req) ← unpack_request packet (locals.block 28) 28
    if eqb_ℤ unpacked (pos 0)
        then (do
          o ← account_withdraw f db req (amount_field f req)
          with_id req (eqb_ℤ o.code (pos 0) || eqb_ℤ o.code (neg 2))
              (answer_withdraw o req (amount_field f req) locals.number))
        else done (invalid_format, db)

  abbrev pub balance_message : ℤ → List ℕ → F → List ℕ
  balance_message result id balance =
      if eqb_ℤ result (pos 0)
      then codes "Account " ++ (c_str id ++ (codes " balance: " ++ f.format_2f balance))
      else if eqb_ℤ result (neg 2)
      then codes "Account " ++ (c_str id ++ codes " not found")
      else codes "Query failed"

  unfoldable pub answer_balance : Outcome F → List ℕ → F → BankingResponse F × AccountDb F
  answer_balance o req old = (
    record {
      status = o.code;
      message = print_message (balance_message o.code req (after_call o.written old));
      balance = after_call o.written old;
    },
    o.db,
  )

  unfoldable pub process_balance :
      Locals F → AccountDb F → BankingPacket → Run (BankingResponse F × AccountDb F)
  process_balance locals db packet = do
    (unpacked, req) ← unpack_request packet (locals.block 20) 20
    if eqb_ℤ unpacked (pos 0)
        then (do
          o ← account_get_balance db req
          with_id req (eqb_ℤ o.code (pos 0) || eqb_ℤ o.code (neg 2))
              (answer_balance o req locals.number))
        else done (invalid_format, db)

  module _ {S : Type 0} (link : OtpLink S) where
    unfoldable pub process_req_otp : Locals F → S → BankingPacket → Run (BankingResponse F × S)
    process_req_otp locals s packet = do
      (unpacked, req) ← unpack_request packet (locals.block 20) 20
      if eqb_ℤ unpacked (pos 0)
          then (do
            ((ok, otp_code), s') ← request_otp_generation link req (replicate 10 0) s
            if ok
                then done (success (codes "OTP Generated: " ++ c_str otp_code), s')
                else done (failure (codes "OTP Generation Failed"), s'))
          else done (invalid_format, s)

    unfoldable pub process_login : Locals F → S → BankingPacket → Run (BankingResponse F × S)
    process_login locals s packet = do
      (unpacked, req) ← unpack_request packet (locals.block 30) 30
      if eqb_ℤ unpacked (pos 0)
          then (do
            (ok, s') ← verify_otp_remote link req (otp_field req) s
            if ok
                then done (success (codes "Login Successful"), s')
                else done (failure (codes "Invalid OTP"), s'))
          else done (invalid_format, s)

    -- The switch on the operation code: the answer, the table and the OTP service after it.
    unfoldable pub dispatch :
        Locals F → AccountDb F → S → BankingPacket → Run (BankingResponse F × AccountDb F × S)
    dispatch locals db s packet =
        let opcode = ntohs packet.header.op_code in
        if opcode == op_create_account
        then (do (r, db') ← process_create locals db packet; done (r, db', s))
        else if opcode == op_deposit
        then (do (r, db') ← process_deposit locals db packet; done (r, db', s))
        else if opcode == op_withdraw
        then (do (r, db') ← process_withdraw locals db packet; done (r, db', s))
        else if opcode == op_req_otp
        then (do (r, s') ← process_req_otp locals s packet; done (r, db, s'))
        else if opcode == op_login
        then (do (r, s') ← process_login locals s packet; done (r, db, s'))
        else if opcode == op_balance
        then (do (r, db') ← process_balance locals db packet; done (r, db', s))
        else done (failure (codes "Unknown operation"), db, s)

    -- The packet that is sent back, the table and the OTP service after the request.
    unfoldable pub process_request :
        Locals F → AccountDb F → S → BankingPacket → Run (BankingPacket × AccountDb F × S)
    process_request locals db s packet = do
      (response, db', s') ← dispatch locals db s packet
      (_, reply) ← pack_response f locals.rand_id locals.packet response
      done (reply, db', s')
