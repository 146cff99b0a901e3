-- ===== src/Server.antt =====
-- The banking server's request handling, server/banking_server.c: its calls of the OTP service,
-- `process_request`, and the loop of `worker_main` over one connection. The OTP service behind
-- its socket is a parameter, and so is what uninitialised locals hold.
pub mod OtpClient
pub mod Request
pub mod Session
pub mod Handlers
pub mod Total
pub mod Wire
pub mod RoundTrip
pub mod Replies
pub mod Login
pub mod LoginExchange
pub mod Serve
pub mod Accept
pub mod Master
pub mod Dialogue
