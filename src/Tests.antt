-- ===== src/Tests.antt =====
-- Concrete inputs: each theorem with hypotheses applied to one, and the values of some runs.
mod Data
mod Accounts
mod Packets
mod Codes
mod Exchanges
mod Connections
mod Menus
mod Segments
mod Workers
mod Processes
mod Stress
