-- ===== src/Server/Wire.antt =====
-- From the client's request packet to the ledger and back: a request for one of the four table
-- operations, packed by `pack_request`, is answered with what the ledger answers.
use ntut_network_and_system.Base.{
  >>=_assoc, Option-cases, ℕ, ◌≡◌, refl, sym, ap, ◌∙◌, ◌≤◌, inl, inr, true, List, ◌++◌, arith,
  append-nil, if◌then◌else◌, length, take, length-append, drop-append, take_all, drop_all, some,
  done, ◌>>=◌,
}
use ntut_network_and_system.Base.Int.{pos}
use ntut_network_and_system.CString.{
  str_eq, terminated, str_eq_trans, c_str-str_eq, c_str-append, terminated-append_left,
  length-c_str,
}
use ntut_network_and_system.Float.{FloatOps, IsOrdered, IsEncoded}
use ntut_network_and_system.Account.{
  account_get_balance, account_withdraw, account_deposit, account_create, AccountDb, Outcome,
}
use ntut_network_and_system.Account.View.{balance_of, account_find_congr}
use ntut_network_and_system.Account.Ledger.{
  Op, create, deposit, withdraw, query, Ledger, credit, view, Fits, post, call,
}
use ntut_network_and_system.Memory.{ntohs-htons}
use ntut_network_and_system.Protocol.{
  op_create_account, op_deposit, op_withdraw, op_balance, unpack_request,
}
use ntut_network_and_system.Protocol.Codec.{packed, unpack_request-packed}
use ntut_network_and_system.Response.{BankingResponse}
use ntut_network_and_system.Server.OtpClient.{OtpLink}
use ntut_network_and_system.Server.Request.{
  answer_balance, process_balance, process_withdraw, answer_withdraw, answer_deposit,
  process_deposit, answer_create, process_create, Locals, amount_field, dispatch,
}
use ntut_network_and_system.Server.Handlers.{IsFrame}

-- The id in a request struct: a C string in an array of 20 bytes.
pub record IsId (id : List ℕ) : Type 0 where
  pub id_length : length id ≡ 20
  pub id_terminated : terminated id ≡ true

module _ {F : Type 0} (f : FloatOps F) where
  abbrev pub id_of : Op F → List ℕ
  id_of (create id b) = id
  id_of (deposit id x) = id
  id_of (withdraw id x) = id
  id_of (query id) = id

  -- The operation code and the request struct of an operation, as the clients fill them in.
  abbrev pub opcode_of : Op F → ℕ
  opcode_of (create id b) = op_create_account
  opcode_of (deposit id x) = op_deposit
  opcode_of (withdraw id x) = op_withdraw
  opcode_of (query id) = op_balance

  abbrev pub struct_of : Op F → List ℕ
  struct_of (create id b) = id ++ f.to_bytes b
  struct_of (deposit id x) = id ++ f.to_bytes x
  struct_of (withdraw id x) = id ++ f.to_bytes x
  struct_of (query id) = id

  -- The operation as the server reads it: the id is a pointer to the start of the struct.
  abbrev pub received : Op F → Op F
  received (create id b) = create (id ++ f.to_bytes b) b
  received (deposit id x) = deposit (id ++ f.to_bytes x) x
  received (withdraw id x) = withdraw (id ++ f.to_bytes x) x
  received (query id) = query id

-- What stands behind the NUL of an id changes nothing.
str_eq-tail : (id tail : List ℕ) → terminated id ≡ true → str_eq (id ++ tail) id ≡ true
str_eq-tail id tail t =
    c_str-str_eq (id ++ tail) id (terminated-append_left id tail t) t (c_str-append id tail t)

module _ {F : Type 0} where
  balance_of-tail :
      (db : AccountDb F) (id tail : List ℕ)
      → terminated id ≡ true
      → balance_of db (id ++ tail) ≡ balance_of db id
  unfolding balance_of
  balance_of-tail db id tail t =
      ground (arith, account_find_congr db (id ++ tail) id (str_eq-tail id tail t))

  test-tail :
      (l : Ledger F) (id tail : List ℕ) (b : F)
      → terminated id ≡ true
      → (other : List ℕ)
      → (if str_eq (id ++ tail) other then some b else l.funds other)
        ≡ (if str_eq id other then some b else l.funds other)
  test-tail l id tail b t other = rw (str_eq_trans (id ++ tail) id other (str_eq-tail id tail t))

  credit-tail :
      (l : Ledger F) (id tail : List ℕ) (b : F)
      → terminated id ≡ true
      → credit l (id ++ tail) b ≡ credit l id b
  unfolding credit
  credit-tail l id tail b t =
      λ i. record { opened = l.opened; funds = λ other. test-tail l id tail b t other i }

module _ {F : Type 0} (f : FloatOps F) where
  -- The ledger answers the operation received as it answers the one sent.
  pub post-received :
      (op : Op F) (db : AccountDb F)
      → IsId (id_of f op)
      → post f (received f op) (view db) ≡ post f op (view db)
  unfolding post
  post-received (create id b) db ok = ground (
    arith,
    balance_of-tail db id (f.to_bytes b) ok.id_terminated,
    credit-tail (view db) id (f.to_bytes b) b ok.id_terminated,
  )
  post-received (deposit id x) db ok = elim (Option-cases (balance_of db id)) [
    | inl absent ↦ ground (arith, balance_of-tail db id (f.to_bytes x) ok.id_terminated)
    | inr (b, have) ↦ ground (
      arith,
      balance_of-tail db id (f.to_bytes x) ok.id_terminated,
      credit-tail (view db) id (f.to_bytes x) (f.add b x) ok.id_terminated,
    )
  ]
  post-received (withdraw id x) db ok = elim (Option-cases (balance_of db id)) [
    | inl absent ↦ ground (arith, balance_of-tail db id (f.to_bytes x) ok.id_terminated)
    | inr (b, have) ↦ ground (
      arith,
      balance_of-tail db id (f.to_bytes x) ok.id_terminated,
      credit-tail (view db) id (f.to_bytes x) (f.sub b x) ok.id_terminated,
    )
  ]
  post-received (query id) db ok = refl

  -- Its ids fit, since they come from 20 bytes with a NUL.
  pub Fits-received : (op : Op F) → IsId (id_of f op) → Fits (received f op)
  Fits-received (create id b) ok = (
    terminated-append_left id (f.to_bytes b) ok.id_terminated,
    rw (c_str-append id (f.to_bytes b) ok.id_terminated)
        (omega (arith, length-c_str id ok.id_terminated, ok.id_length)),
  )
  Fits-received (deposit id x) ok = tt
  Fits-received (withdraw id x) ok = tt
  Fits-received (query id) ok = tt

  -- The amount that the server reads is the amount that was sent.
  amount_field-struct :
      (id : List ℕ) (x : F) → IsEncoded f → length id ≡ 20 → amount_field f (id ++ f.to_bytes x) ≡ x
  amount_field-struct id x enc size =
      ap f.of_bytes (
        ap (take 8) (drop-append 20 id (f.to_bytes x) size)
        ∙ take_all 8 (f.to_bytes x) (omega (arith, enc.length_bytes x)))
      ∙ enc.of_to_bytes x

  -- Unpacking a request struct into an uninitialised one of its size.
  pub unpack_struct :
      (rand_id opcode : ℕ) (bytes block : List ℕ) (n : ℕ)
      → length bytes ≡ n
      → length block ≡ n
      → n ≤ 1024
      → unpack_request (packed rand_id opcode bytes) block n ≡ done (pos 0, bytes)
  unpack_struct rand_id opcode bytes block n size size' h = rw (
    sym size',
    unpack_request-packed rand_id opcode bytes block (omega (arith, size, size'))
        (omega (arith, size)),
    drop_all (length bytes) block (omega (arith, size, size')),
    append-nil bytes,
  )

  pub length-struct :
      (id : List ℕ) (x : F) → IsEncoded f → length id ≡ 20 → length (id ++ f.to_bytes x) ≡ 28
  length-struct id x enc size = length-append id (f.to_bytes x) ∙ omega (arith, enc.length_bytes x)

  module _ (locals : Locals F) where
    -- What the server answers, given what the call on the table returned.
    abbrev pub answer_to : Op F → Outcome F → BankingResponse F × AccountDb F
    answer_to (create id b) o = answer_create f o (id ++ f.to_bytes b) b
    answer_to (deposit id x) o = answer_deposit f o (id ++ f.to_bytes x) x locals.number
    answer_to (withdraw id x) o = answer_withdraw f o (id ++ f.to_bytes x) x locals.number
    answer_to (query id) o = answer_balance f o id locals.number

    pub answer_to-db : (op : Op F) (o : Outcome F) → (answer_to op o).1 ≡ o.db
    unfolding answer_create answer_deposit answer_withdraw answer_balance
    answer_to-db (create id b) o = refl
    answer_to-db (deposit id x) o = refl
    answer_to-db (withdraw id x) o = refl
    answer_to-db (query id) o = refl

    pub answer_to-status : (op : Op F) (o : Outcome F) → (answer_to op o).0.status ≡ o.code
    unfolding answer_create answer_deposit answer_withdraw answer_balance
    answer_to-status (create id b) o = refl
    answer_to-status (deposit id x) o = refl
    answer_to-status (withdraw id x) o = refl
    answer_to-status (query id) o = refl

  module _ {S : Type 0} (link : OtpLink S) (ord : IsOrdered f) (enc : IsEncoded f)
      (locals : Locals F) (frame : IsFrame locals) where
    -- Each operation's case of the switch, on the packet that the client sends.
    pub dispatch-call :
        (op : Op F) (rand_id : ℕ) (db : AccountDb F) (s : S)
        → IsId (id_of f op)
        → dispatch f link locals db s (packed rand_id (opcode_of f op) (struct_of f op)) ≡ (
            call f (received f op) db >>= λ o.
            done ((answer_to locals op o).0, (answer_to locals op o).1, s))
    unfolding dispatch call process_create process_deposit process_withdraw process_balance
    dispatch-call (create id b) rand_id db s ok =
        rw
          (
            ntohs-htons op_create_account (omega arith),
            unpack_struct rand_id op_create_account (id ++ f.to_bytes b) (locals.block 28) 28
                (length-struct id b enc ok.id_length) (frame 28) (omega arith),
            amount_field-struct id b enc ok.id_length,
            terminated-append_left id (f.to_bytes b) ok.id_terminated,
          )
          (>>=_assoc (account_create f db (id ++ f.to_bytes b) b) _ _)
    dispatch-call (deposit id x) rand_id db s ok =
        rw
          (
            ntohs-htons op_deposit (omega arith),
            unpack_struct rand_id op_deposit (id ++ f.to_bytes x) (locals.block 28) 28
                (length-struct id x enc ok.id_length) (frame 28) (omega arith),
            amount_field-struct id x enc ok.id_length,
            terminated-append_left id (f.to_bytes x) ok.id_terminated,
          )
          (>>=_assoc (account_deposit f db (id ++ f.to_bytes x) x) _ _)
    dispatch-call (withdraw id x) rand_id db s ok =
        rw
          (
            ntohs-htons op_withdraw (omega arith),
            unpack_struct rand_id op_withdraw (id ++ f.to_bytes x) (locals.block 28) 28
                (length-struct id x enc ok.id_length) (frame 28) (omega arith),
            amount_field-struct id x enc ok.id_length,
            terminated-append_left id (f.to_bytes x) ok.id_terminated,
          )
          (>>=_assoc (account_withdraw f db (id ++ f.to_bytes x) x) _ _)
    dispatch-call (query id) rand_id db s ok =
        rw
          (
            ntohs-htons op_balance (omega arith),
            unpack_struct rand_id op_balance id (locals.block 20) 20 ok.id_length (frame 20)
                (omega arith),
            ok.id_terminated,
          )
          (>>=_assoc (account_get_balance db id) _ _)
