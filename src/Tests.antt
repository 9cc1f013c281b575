-- ===== src/Tests.antt =====
-- Runs of the program, on concrete data.
mod Servers
mod Wires
mod Limits
mod Clients
mod Records
mod Replays
mod Operators
mod Forwards
mod Handshakes
mod Worlds
mod Lifecycles
mod Schemas
