-- ===== src/Tests/Exchanges.antt =====
-- Whole exchanges with the banking server.
use ntut_network_and_system.Base.{
  length-replicate, ℕ, zero, suc, some_eq, ◌≡◌, refl, List, [], ◌∷◌, ◌++◌, codes, replicate, length,
  All, some, false, done, arith,
}
use mathlib.Core.Path.{subst}
use ntut_network_and_system.Base.Int.{pos}
use ntut_network_and_system.CString.{terminated, c_str}
use ntut_network_and_system.Float.Sample.{Tiny, num, tiny_ops, tiny_IsOrdered, tiny_IsEncoded}
use ntut_network_and_system.Account.{AccountDb, Outcome}
use ntut_network_and_system.Account.Invariant.{IsValid}
use ntut_network_and_system.Account.Ledger.{query, posts, Op, deposit, withdraw, view, post}
use ntut_network_and_system.Memory.{htonl}
use ntut_network_and_system.Protocol.{BankingPacket, op_deposit, op_req_otp, op_login, blank_packet}
use ntut_network_and_system.Protocol.Codec.{packed, pack_request-packed, length-packed}
use ntut_network_and_system.Response.{BankingResponse, response_of, unpack_response}
use ntut_network_and_system.Otp.{OtpEntry, decimal, blank_table, find_entry, free_or_same}
use ntut_network_and_system.Otp.Issue.{IsTable, IsSized, code_of}
use ntut_network_and_system.Server.OtpClient.{OtpLink}
use ntut_network_and_system.Server.Request.{Locals, print_message, process_req_otp, process_login}
use ntut_network_and_system.Server.Session.{Arrival, partial, whole, serve_packet, serve_connection}
use ntut_network_and_system.Server.Wire.{struct_of, answer_to}
use ntut_network_and_system.Server.Handlers.{IsFrame}
use ntut_network_and_system.Server.Dialogue.{
  Turn, packets, ops_of, Tells, serve_connection-Implements,
}
use ntut_network_and_system.Server.RoundTrip.{exchange-Implements}
use ntut_network_and_system.Server.Login.{otp_service, generation}
use ntut_network_and_system.Server.LoginExchange.{login_exchange}
use ntut_network_and_system.Server.Serve.{IsServable, IsReadable, served, serve_connection-Readable}
use ntut_network_and_system.Tests.Data.{
  alice, alice-IsId, opened_table, opened_table-IsValid, stack, stack-IsFrame,
}

abbrev pub link : OtpLink (List OtpEntry)
link = otp_service 4242 1000

abbrev pays_in : Op Tiny
pays_in = deposit alice (num (pos 20))

abbrev pays_in_bytes : List ℕ
pays_in_bytes = struct_of tiny_ops pays_in

abbrev pays_in_packet : BankingPacket
pays_in_packet = packed 5 op_deposit pays_in_bytes

abbrev client_struct : List ℕ
client_struct = replicate 268 0

-- Another call of the server's handlers, on a stack with other bytes.
abbrev other_stack : Locals Tiny
other_stack = record stack { rand_id = 77; block = λ n. replicate n 200; number = num (pos 1) }

other_stack-IsFrame : IsFrame other_stack
other_stack-IsFrame n = length-replicate n 200

-- A deposit, a withdrawal that is refused, and a query.
abbrev orders : List (Turn tiny_ops)
orders =
    record { op = pays_in; rand_id = 5; old = blank_packet 0 0; locals = stack }
    ∷ record {
      op = withdraw alice (num (pos 90));
      rand_id = 61;
      old = pays_in_packet;
      locals = other_stack;
    }
    ∷ record { op = query alice; rand_id = 7; old = blank_packet 0 0; locals = stack }
    ∷ []

serve_connection-Implements_example :
    (arrivals : List (Arrival Tiny)) × (replies : List BankingPacket) × (db' : AccountDb Tiny)
    × (packets tiny_ops orders ≡ done arrivals)
    × (serve_connection tiny_ops link arrivals opened_table blank_table
        ≡ done (replies, db', blank_table))
    × Tells tiny_ops client_struct replies
        (posts tiny_ops (ops_of tiny_ops orders) (view opened_table)).0
    × IsValid tiny_ops db'
    × (view db' ≡ (posts tiny_ops (ops_of tiny_ops orders) (view opened_table)).1)
serve_connection-Implements_example =
    serve_connection-Implements tiny_ops link client_struct orders opened_table blank_table
      tiny_IsOrdered tiny_IsEncoded refl
      (
        (alice-IsId, stack-IsFrame),
        ((alice-IsId, other_stack-IsFrame), ((alice-IsId, stack-IsFrame), tt)),
      )
      opened_table-IsValid

exchange-Implements_example :
    (o : Outcome Tiny) × (reply : BankingPacket) × (bytes : List ℕ) × (serve_packet tiny_ops link
        stack opened_table blank_table pays_in_packet
      ≡ done (reply, o.db, blank_table))
    × (unpack_response reply client_struct ≡ done (pos 0, bytes))
    × (response_of tiny_ops bytes ≡ (answer_to tiny_ops stack pays_in o).0)
    × ((response_of tiny_ops bytes).status ≡ (post tiny_ops pays_in (view opened_table)).code)
    × (o.written ≡ (post tiny_ops pays_in (view opened_table)).reported)
    × IsValid tiny_ops o.db
    × (view o.db ≡ (post tiny_ops pays_in (view opened_table)).ledger)
exchange-Implements_example =
    exchange-Implements tiny_ops link tiny_IsOrdered tiny_IsEncoded stack stack-IsFrame pays_in 5
      (blank_packet 0 0) pays_in_packet opened_table blank_table client_struct opened_table-IsValid
      alice-IsId (pack_request-packed 5 (blank_packet 0 0) op_deposit pays_in_bytes (omega arith))
      refl

-- A packet, the same packet again, and half of one.
abbrev pub arrivals : List (Arrival Tiny)
arrivals = whole stack pays_in_packet ∷ whole stack pays_in_packet ∷ partial 500 ∷ []

pub pays_in_packet-IsServable : IsServable (whole stack pays_in_packet)
unfolding htonl terminated
pays_in_packet-IsServable = (
  stack-IsFrame,
  length-packed 5 op_deposit pays_in_bytes (omega arith),
  record { at_least = omega arith; at_most = omega arith },
  refl,
)

serve_connection-Readable_example :
    (replies : List BankingPacket) × (db' : AccountDb Tiny) × (s' : List OtpEntry)
    × (serve_connection tiny_ops link arrivals opened_table blank_table ≡ done (replies, db', s'))
    × (length replies ≡ served arrivals)
    × All (IsReadable tiny_ops) replies
    × IsValid tiny_ops db'
serve_connection-Readable_example =
    serve_connection-Readable tiny_ops link tiny_IsOrdered tiny_IsEncoded arrivals opened_table
      blank_table (pays_in_packet-IsServable, (pays_in_packet-IsServable, (tt, tt)))
      opened_table-IsValid

abbrev slot : OtpEntry
slot = record { account = replicate 32 0; otp = replicate 8 0; expiry = 0; used = false }

one_slot-IsTable : IsTable (slot ∷ [])
one_slot-IsTable zero e h =
    subst IsSized (some_eq h) (record { account_length = refl; otp_length = refl })
one_slot-IsTable (suc i) e h = cc

one_slot-room : find_entry (free_or_same (generation alice).account) 0 (slot ∷ []) ≡ some 0
unfolding find_entry
one_slot-room = refl

-- The code for the random number 4242, as the user types it into an array of ten bytes.
abbrev typed : List ℕ
typed = codes "104242" ++ replicate 4 0

typed-decimal : c_str typed ≡ decimal (code_of 4242)
unfolding c_str decimal
typed-decimal = refl

login_exchange_example :
    (r r' : BankingResponse Tiny) × (db' db'' : List OtpEntry) × (process_req_otp tiny_ops
        (otp_service 4242 1000)
        stack
        (slot ∷ [])
        (packed 5 op_req_otp alice)
      ≡ done (r, db'))
    × (r.status ≡ pos 0)
    × (r.message ≡ print_message (codes "OTP Generated: " ++ decimal (code_of 4242)))
    × (process_login tiny_ops (otp_service 8 1060) stack db' (packed 6 op_login (alice ++ typed))
        ≡ done (r', db''))
    × (r'.status ≡ pos 0)
    × (r'.message ≡ print_message (codes "Login Successful"))
login_exchange_example =
    login_exchange tiny_ops stack stack alice typed (slot ∷ []) 0 4242 1000 5 6 8 1060 stack-IsFrame
      stack-IsFrame alice-IsId one_slot-IsTable one_slot-room refl typed-decimal

abbrev overdraws : Op Tiny
overdraws = withdraw alice (num (pos 60))
