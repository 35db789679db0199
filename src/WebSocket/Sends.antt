-- ===== src/WebSocket/Sends.antt =====
-- What the writes of src/04_beast-websocket/Connection.cpp send.
use boost_asio.Common.{
  ◌≡◌, refl, true, false, Option, none, some, List, [], ◌∷◌, ◌++◌, Bytes, length, get_elem?,
  get_elem?-append_end, set,
}
use boost_asio.WebSocket.{
  argument, Connection, Memory, new_string, destroy_string, string_at, async_send, buffer_of,
  write_completes, on_read, start,
}

get_elem?-append_end_set :
    (xs : List (Option Bytes)) (x y : Option Bytes)
    → get_elem? (set (xs ++ x ∷ []) (length xs) y) (length xs) ≡ some y
get_elem?-append_end_set [] x y = refl
get_elem?-append_end_set (z ∷ xs) x y = get_elem?-append_end_set xs x y

-- A message that arrives at a connection with no write in progress is echoed by a write whose
-- buffer is a string that no longer exists: the write cannot be carried out.
pub on_read-dangles :
    (data_read : Bytes) (c : Connection) (m : Memory)
    → c.send_queue ≡ []
    → (c' : Connection) × (m' : Memory) × (on_read false data_read c m ≡ some (c', m'))
      × (c'.send_queue ≡ data_read ∷ [])
      × (write_completes false c' m' ≡ none)
unfolding on_read async_send new_string string_at destroy_string write_completes buffer_of start
on_read-dangles data_read c m idle = (
  record c {
    send_queue = data_read ∷ [];
    writing = some (argument (length m.strings));
    reading = true;
  },
  record m { strings = set (m.strings ++ some data_read ∷ []) (length m.strings) none },
  (rw (get_elem?-append_end m.strings (some data_read)) rw (idle) refl),
  refl,
  (rw (get_elem?-append_end_set m.strings (some data_read) none) refl),
)
