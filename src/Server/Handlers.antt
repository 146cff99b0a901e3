-- ===== src/Server/Handlers.antt =====
-- Each handler of the account table ends with a whole response and a well-formed table.
use ntut_network_and_system.Base.{
  le-ltb, drop, ◌++◌, ◌≤◌, take, true, ◌∙◌, sym, ℕ, ◌≡◌, refl, ◌⊎◌, inl, inr, List, arith, length,
  replicate, codes, Run, done,
}
use ntut_network_and_system.Base.Int.{ℤ, pos, neg, IsInt}
use ntut_network_and_system.CString.{
  length-snprintf, terminated, terminated-append_left, terminated-take,
}
use ntut_network_and_system.Float.{FloatOps, IsOrdered}
use ntut_network_and_system.Account.{AccountDb, Outcome}
use ntut_network_and_system.Account.Invariant.{IsValid}
use ntut_network_and_system.Account.Ledger.{create, deposit, withdraw, query, call}
use ntut_network_and_system.Account.Total.{IsCode, call-Settles}
use ntut_network_and_system.Protocol.{BankingPacket, data_length, unpack_request}
use ntut_network_and_system.Memory.{memcpy-done}
use ntut_network_and_system.Protocol.Bounds.{
  InBounds, data_length-le, verdict, verify-InBounds, unpack_request_safe,
}
use ntut_network_and_system.Response.{BankingResponse}
use ntut_network_and_system.Response.RoundTrip.{IsSized}
use ntut_network_and_system.Server.Request.{
  invalid_format, answer_create, answer_withdraw, answer_balance, answer_deposit, Locals, failure,
  print_message, amount_field, process_create, process_deposit, process_withdraw, process_balance,
}

-- An uninitialised struct of `n` bytes is a block of `n` bytes.
abbrev pub IsFrame : {F : Type 0} → Locals F → Type 0
IsFrame locals = (n : ℕ) → length (locals.block n) ≡ n

IsCode-IsInt : (c : ℤ) → IsCode c → IsInt c
IsCode-IsInt c (inl h) = rw h (omega arith)
IsCode-IsInt c (inr (inl h)) = rw h (omega arith)
IsCode-IsInt c (inr (inr (inl h))) = rw h (omega arith)
IsCode-IsInt c (inr (inr (inr h))) = rw h (omega arith)

pub length-print_message : (text : List ℕ) → length (print_message text) ≡ 256
length-print_message text = length-snprintf (replicate 256 0) text (omega arith)

-- The data that a packet announces hold a NUL in their first 20 bytes, so that the id at their start
-- is a C string in its array.
abbrev pub IsNamed : BankingPacket → Type 0
IsNamed p = terminated (take (data_length p) (take 20 p.payload)) ≡ true

-- Where the checksum is right and the data fit, they are copied to the start of the block.
unpack_copies :
    (p : BankingPacket) (block : List ℕ)
    → length p.payload ≡ 1024
    → InBounds p
    → verdict p ≡ pos 0
    → data_length p ≤ length block
    → unpack_request p block (length block)
      ≡ done (pos 0, take (data_length p) p.payload ++ drop (data_length p) block)
unfolding unpack_request
unpack_copies p block whole b good fits = rw (
  verify-InBounds p whole b,
  good,
  le-ltb (data_length p) (length block) fits,
  memcpy-done block p.payload (data_length p) (omega (arith, data_length-le p whole b, whole)) fits,
)

-- Unpacking into a struct of `n` bytes ends, with 0 and a C string at its start, or with -1.
pub unpack_into :
    (p : BankingPacket) (block : List ℕ) (n : ℕ)
    → length p.payload ≡ 1024
    → InBounds p
    → IsNamed p
    → length block ≡ n
    → ((out : List ℕ) × (unpack_request p block n ≡ done (pos 0, out)) × (terminated out ≡ true))
      ⊎ ((out : List ℕ) × (unpack_request p block n ≡ done (neg 1, out)))
unpack_into p block n whole b named size =
    let (code, out, run, len, verdicts) = unpack_request_safe p whole block b in
    elim verdicts [
      | inl (zero_code, ok, fits) ↦ inl (
        take (data_length p) p.payload ++ drop (data_length p) block,
        rw (sym size) (unpack_copies p block whole b ok fits),
        terminated-append_left (take (data_length p) p.payload) (drop (data_length p) block)
            (terminated-take (data_length p) 20 p.payload named),
      )
      | inr (minus, same) ↦ inr (out, rw (sym size) (run ∙ rw minus refl))
    ]

pub failure-IsSized : {F : Type 0} (f : FloatOps F) (text : List ℕ) → IsSized (failure f text)
failure-IsSized f text = record {
  status_range = omega arith;
  message_length = length-print_message text;
}

pub answer-IsSized :
    {F : Type 0} (o : Outcome F)
    → IsCode o.code
    → (text : List ℕ) (b : F)
    → IsSized (record { status = o.code; message = print_message text; balance = b })
answer-IsSized o code text b = record {
  status_range = IsCode-IsInt o.code code;
  message_length = length-print_message text;
}

module _ {F : Type 0} (f : FloatOps F) (ord : IsOrdered f) (locals : Locals F)
    (frame : IsFrame locals) (db : AccountDb F) (v : IsValid f db) (p : BankingPacket)
    (whole : length p.payload ≡ 1024) (b : InBounds p) (named : IsNamed p) where
  -- A handler of the table has ended well.
  abbrev pub Ends : Run (BankingResponse F × AccountDb F) → Type 0
  Ends m =
      (r : BankingResponse F) × (db' : AccountDb F) × (m ≡ done (r, db'))
      × IsSized r
      × IsValid f db'

  pub invalid_format-IsSized : IsSized (invalid_format f)
  invalid_format-IsSized = failure-IsSized f (codes "Invalid request format")

  pub process_create-Ends : Ends (process_create f locals db p)
  unfolding process_create answer_create call
  process_create-Ends = elim (unpack_into p (locals.block 28) 28 whole b named (frame 28)) [
    | inr (out, run) ↦ (invalid_format f, db, rw run, invalid_format-IsSized, v)
    | inl (req, run, ended) ↦
        let (o, ends, code, v') = call-Settles f db (create req (amount_field f req)) ord v in
        (
          (answer_create f o req (amount_field f req)).0,
          o.db,
          rw (run, ends, ended),
          answer-IsSized o code _ _,
          v',
        )
  ]

  pub process_deposit-Ends : Ends (process_deposit f locals db p)
  unfolding process_deposit answer_deposit call
  process_deposit-Ends = elim (unpack_into p (locals.block 28) 28 whole b named (frame 28)) [
    | inr (out, run) ↦ (invalid_format f, db, rw run, invalid_format-IsSized, v)
    | inl (req, run, ended) ↦
        let (o, ends, code, v') = call-Settles f db (deposit req (amount_field f req)) ord v in
        (
          (answer_deposit f o req (amount_field f req) locals.number).0,
          o.db,
          rw (run, ends, ended),
          answer-IsSized o code _ _,
          v',
        )
  ]

  pub process_withdraw-Ends : Ends (process_withdraw f locals db p)
  unfolding process_withdraw answer_withdraw call
  process_withdraw-Ends = elim (unpack_into p (locals.block 28) 28 whole b named (frame 28)) [
    | inr (out, run) ↦ (invalid_format f, db, rw run, invalid_format-IsSized, v)
    | inl (req, run, ended) ↦
        let (o, ends, code, v') = call-Settles f db (withdraw req (amount_field f req)) ord v in
        (
          (answer_withdraw f o req (amount_field f req) locals.number).0,
          o.db,
          rw (run, ends, ended),
          answer-IsSized o code _ _,
          v',
        )
  ]

  pub process_balance-Ends : Ends (process_balance f locals db p)
  unfolding process_balance answer_balance call
  process_balance-Ends = elim (unpack_into p (locals.block 20) 20 whole b named (frame 20)) [
    | inr (out, run) ↦ (invalid_format f, db, rw run, invalid_format-IsSized, v)
    | inl (req, run, ended) ↦
        let (o, ends, code, v') = call-Settles f db (query req) ord v in
        (
          (answer_balance f o req locals.number).0,
          o.db,
          rw (run, ends, ended),
          answer-IsSized o code _ _,
          v',
        )
  ]
