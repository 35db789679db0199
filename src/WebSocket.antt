-- ===== src/WebSocket.antt =====
-- src/04_beast-websocket: a connection (Connection.cpp, Connection.h) with the strings that its
-- writes refer to, and the table of connections (ConnectionManager.h).
pub mod Sends
pub mod Order
pub mod Accepting
use boost_asio.Common.{
  ℕ, ◌+◌, Bool, true, false, Option, none, some, ◌>>=◌, List, [], ◌∷◌, ◌++◌, Bytes, length,
  get_elem?, set, leb, if◌then◌else◌,
}
use boost_asio.Map.{assign, erase, nat_eq}

-- What the buffer of a write in progress refers to: a string of the caller of `AsyncSend`, or the
-- front of the queue, which stays where it is until it is popped.
pub data Source : Type 0 where
  argument : ℕ → Source
  queue_front : Source

pub record Connection : Type 0 where
  pub uid : ℕ
  pub send_queue : List Bytes
  pub writing : Option Source
  pub reading : Bool

-- The strings of the callers, where a destroyed one is `none`; the manager's table; and the
-- messages that the peer has been sent in full.
pub record Memory : Type 0 where
  pub strings : List (Option Bytes)
  pub connections : List (ℕ × ℕ)
  pub delivered : List Bytes

unfoldable pub new_connection : ℕ → Connection
new_connection uid = record { uid = uid; send_queue = []; writing = none; reading = false }

-- ConnectionManager::AddConnection
unfoldable pub add_connection : ℕ → Memory → Memory
add_connection uid m = record m { connections = assign uid uid m.connections }

-- ConnectionManager::RemoveConnection
unfoldable pub remove_connection : ℕ → Memory → Memory
remove_connection uid m = record m { connections = erase uid m.connections }

unfoldable pub new_string : Bytes → Memory → ℕ × Memory
new_string s m = (length m.strings, record m { strings = m.strings ++ some s ∷ [] })

unfoldable pub destroy_string : ℕ → Memory → Memory
destroy_string i m = record m { strings = set m.strings i none }

unfoldable pub string_at : ℕ → Memory → Option Bytes
string_at i m = do cell ← get_elem? m.strings i; cell

-- AsyncSend, up to the initiation of the write. `none` is a string that is gone.
unfoldable pub async_send : ℕ → Connection → Memory → Option Connection
unfolding string_at
async_send i c m = do
  message ← string_at i m
  let queued = record c { send_queue = c.send_queue ++ message ∷ [] }
  some (
      if leb 2 (length queued.send_queue)
      then queued
      else record queued { writing = some (argument i) })

-- The bytes that a write sends are those its buffer refers to when it is carried out.
unfoldable pub buffer_of : Source → Connection → Memory → Option Bytes
unfolding string_at
buffer_of (argument i) c m = string_at i m
buffer_of queue_front c m = elim c.send_queue [ [] ↦ none | message ∷ _ ↦ some message ]

-- The handler of SendCallback on success: pop, and write the next front.
unfoldable pub next_message : Connection → Option Connection
next_message c = elim c.send_queue [
  | [] ↦ none
  | _ ∷ [] ↦ some (record c { send_queue = []; writing = none })
  | _ ∷ next ∷ rest ↦ some (record c { send_queue = next ∷ rest; writing = some queue_front })
]

-- A write that completes, and its handler
unfoldable pub write_completes : Bool → Connection → Memory → Option (Connection × Memory)
unfolding buffer_of next_message remove_connection
write_completes failed c m = do
  source ← c.writing
  let sent : Option (Connection × Memory) = do
    message ← buffer_of source c m
    c' ← next_message c
    some (c', record m { delivered = m.delivered ++ message ∷ [] })
  if failed then some (record c { writing = none }, remove_connection c.uid m) else sent

-- Start: an `async_read` is under way.
unfoldable pub start : Connection → Connection
start c = record c { reading = true }

-- The handler of AsyncAccept. `failed`: its error code, or an exception of `remote_endpoint`, which is
-- caught.
unfoldable pub on_accept : Bool → Connection → Memory → Connection × Memory
unfolding add_connection start
on_accept failed c m = if failed then (c, m) else (start c, add_connection c.uid m)

-- The handler of `Start`: the data stands in a local variable of the handler.
unfoldable pub on_read : Bool → Bytes → Connection → Memory → Option (Connection × Memory)
unfolding new_string async_send start destroy_string remove_connection
on_read failed recv_data c m =
    let (i, m') = new_string recv_data m in
    let received : Option (Connection × Memory) = do
      sent ← async_send i c m'
      some (start sent, destroy_string i m')
    in if failed then some (record c { reading = false }, remove_connection c.uid m) else received
