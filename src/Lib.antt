-- ===== src/Lib.antt =====
-- A banking system in C: a server with an account table in shared memory, its packet protocol over
-- TLS, a service for one-time passwords (OTP), an interactive client, a client library, and two
-- stress clients.
--
-- How the parts interact. A client packs a request struct into a packet (`pack_request`) and sends
-- it. A worker of the banking server reads the packet, verifies its checksum, unpacks it into a
-- request struct, calls the account table or the OTP service, and packs the response
-- (`process_request`). The OTP service keeps a table of codes and answers one request per
-- connection. The client library has its own framing, which it does not share with the server.
--
-- The files and the code they model:
--   Account        common/include/account.h, common/src/account.c: the table, each entry and the
--                  table with its lock, and the functions `account_*` under their own names.
--     Account/Ledger is the specification: a ledger with a balance per id and four operations.
--     Account/Find, Locks, View, Closed and Cleanup are the lemmas; Invariant says what a well-formed
--     table is; Refine, Total and Faults are the theorems.
--   Workers        the same functions as the steps of workers that use the table at the same time; a
--                  step is what no other worker can see half done.
--     Workers/Atomic is the specification: calls that take effect at one moment. Moves, Guards,
--     Invariant, Locking, Locals, Preserve, Views, Effects and Alone are the lemmas; Linear,
--     Progress, Finish, Quiet and Killed are the theorems. Solo compares the steps with the calls of
--     Account.
--   Memory         memcpy, and the byte orders of a little-endian host.
--   CString        the C string functions that the code calls.
--   Crypto         common/src/crypto.c; Crypto/Sum describes the checksum as a sum.
--   Protocol       common/include/protocol.h, common/src/protocol.c: packets.
--   Response       `BankingResponse`, its bytes, and the two functions of common/src/protocol.c that
--                  pack and unpack it.
--   Otp            common/include/otp_ipc.h and `handle_client` of otp_server/otp_server.c.
--   Server         server/banking_server.c: Server/OtpClient is the client of the OTP service,
--                  Server/Request is `process_request`, a function per case of its switch, and
--                  Server/Session is the loop of `worker_main` over one connection.
--     Server/Wire, Handlers, Total, Login and Replies are about single requests; RoundTrip,
--     LoginExchange, Serve and Dialogue put the client, the server and the OTP service together.
--     Server/Accept is the loop of `worker_main` over the connections, and Server/Master is `main`
--     with its signal handler; Master/Signals, Segments, Startup and Shutdown say what it
--     gives back.
--   Resources      what a process takes and gives back, in order.
--   Tls            common/include/tls_wrapper.h and common/src/tls_wrapper.c.
--   BankingClient  client/banking_client.c: `send_request`, the menus and the switch of `main`;
--                  BankingClient/Session puts a worker of the server at the other end.
--   StressClient   stress_test/stress_client.c: a thread's requests, its counters and its resources.
--     Rounds, Counts and Requests are about them.
--   StressTest     client/src/stress_test.c, on the library of ClientCore. StressTest/Exchanges are the
--     lemmas, Totals the theorem; StressTest/Main is client/src/main.c.
--   Ipc            common/include/ipc.h and common/src/ipc.c; Ipc/Lifecycle runs the table in it.
--   ClientCore     client/include/client_core.h and client/src/client_core.c.
--   Base, Float    shared helpers; the operations and laws of `double`, with an instance of them in
--                  Float/Sample.
--   Tests          concrete inputs, and the theorems applied to them.
--
-- How C is modelled. A `char` array is the list of its bytes; one that is passed as a string ends at
-- its NUL, or at the end of the list. Integers are natural numbers with the wrap-around written out,
-- or mathematical integers where the code's `int` stays in range. A `double` is a value of a type F
-- with operations and, as hypotheses, the laws of IEEE 754 that the code relies on; NaN satisfies
-- them. Uninitialised variables, `rand()` and `time()` are parameters. A computation is `done`, or
-- `blocked` on a mutex that is held, or a `fault`: an access outside an object, or a misuse of a
-- mutex. So a theorem that says `done` excludes a deadlock and such an access. Where the server prints
-- or copies an id from a request struct, reading it on past the end of the struct is a fault too;
-- every other string is read up to the end of its list at most.
--
-- Bounds and fuel. The searches and copies recurse on the list or the count that the C loop runs
-- over. Only `decimal`, the digits that `%d` prints, has fuel: ten digits, enough for every `int`.
-- The loops over a connection, and over connections, recurse on the list of what arrives. A call is
-- at most seven steps of its worker.
--
-- What is not modelled: the interleavings of the workers are those of the calls of the account
-- table alone. Left out are the handlers of SIGCHLD and of SIGTERM in a worker
-- (server/banking_server.c), what OpenSSL does, log lines, the start and the end of the interactive
-- client, and the reports that the stress clients print. What a socket delivers is an input: a
-- request to the OTP service is the struct as it stands after the read.
pub mod Base
pub mod Float
pub mod CString
pub mod Account
pub mod Memory
pub mod Crypto
pub mod Protocol
pub mod Otp
pub mod Resources
pub mod Tls
pub mod Response
pub mod Workers
pub mod Server
pub mod StressClient
pub mod StressTest
pub mod ClientCore
pub mod BankingClient
pub mod Ipc
pub mod Tests
