-- ===== src/Async.antt =====
-- src/02_async, the earlier message server, whose lengths are of 16 bits with a sign, and its test
-- client.
pub mod Wire
pub mod Layout
pub mod Session
pub mod Logic
pub mod Pool
pub mod Server
pub mod Client
pub mod Exchange
pub mod Conversation
