-- ===== src/Tests.antt =====
-- The theorems at concrete inputs, and runs of the code.
mod Machine
mod Servers
mod Sending
mod Reading
mod Toy
mod Working
mod Texts
mod Earlier
mod Exchanges
mod Deliveries
mod Accepting
mod Logging
mod Signals
mod Waking
mod Echoes
mod Conversations
mod Sleeping
mod Tables
