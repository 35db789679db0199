-- ===== src/Echo.antt =====
-- The first echo programs: src/01_base/server.cpp with src/01_base/client.cpp, and src/main.cpp. What a
-- read or a write comes to is an argument. `none` is a read outside an array.
pub mod Sessions
pub mod Accepting
use boost_asio.Common.{
  ℕ, zero, suc, Bool, true, false, Option, none, some, ◌>>=◌, List, [], ◌∷◌, ◌++◌, Bytes,
  if◌then◌else◌, take, ◌==◌, not,
}
use boost_asio.Memory.{memcpy}
use boost_asio.Async.Client.{zeros}

-- MAX_LEN of both programs of src/01_base
abbrev pub max_len : ℕ
max_len = 1024

-- read_some with its error code; it reads as many bytes as the array has, at most.
pub data Read : Type 0 where
  received : Bytes → Read
  eof failed : Read

-- The text in an array of chars, up to its first zero
unfoldable pub text_of : Bytes → Option Bytes
text_of [] = none
text_of (b ∷ chars) =
    let rest : Option Bytes = (do s ← text_of chars; some (b ∷ s)) in
    if b == 0 then some [] else rest

-- `char data[MAX_LEN] = {0}`, a read into it, and the text in it
unfoldable pub message_of : Bytes → Option Bytes
unfolding zeros text_of
message_of bytes = do data_chars ← memcpy (zeros max_len) 0 bytes; text_of data_chars

-- One turn of the loop of `session`: what is read, whether the socket has a remote endpoint, and how
-- many bytes write_some takes
pub record Turn : Type 0 where
  pub read : Read
  pub has_endpoint : Bool
  pub accepted : ℕ

-- Where `session` stands: it waits for a read, has left the loop, or has caught an exception.
pub data End : Type 0 where
  waits left caught : End

-- The first turn of several, and what the others come to
unfoldable pub session_turn : Turn → Option (List Bytes × End) → Option (List Bytes × End)
unfolding message_of
session_turn turn rest = elim turn.read [
  | eof ↦ some ([], left)
  | failed ↦ some ([], caught)
  | received bytes ↦
      let answered : Option (List Bytes × End) = do
        msg ← message_of bytes
        (out, end) ← rest
        some (take turn.accepted msg ∷ out, end)
      in if turn.has_endpoint then answered else some ([], caught)
]

-- `session` of server.cpp: what it writes, and where it ends
unfoldable pub session : List Turn → Option (List Bytes × End)
unfolding session_turn
session [] = some ([], waits)
session (turn ∷ turns) = session_turn turn (session turns)

-- `main` of client.cpp, from its `receive` on: what is printed
unfoldable pub client_prints : Read → Option (Option Bytes)
unfolding message_of
client_prints (received bytes) = do printed ← message_of bytes; some (some printed)
client_prints _ = some none

-- `main` of client.cpp: the code that it returns, what it sends, and what it prints. The arguments are the
-- error code of `connect`, 0 for none, the line that is read, how many of its bytes `send` takes, where
-- it does not throw, and what `receive` comes to.
unfoldable pub client_main : ℕ → Bytes → Option ℕ → Read → Option (ℕ × Bytes × Option Bytes)
unfolding client_prints
client_main ec msg taken answer =
    let answered : Option (ℕ × Bytes × Option Bytes) = elim taken [
      | none ↦ some (0, [], none)
      | some n ↦ do printed ← client_prints answer; some (0, take n msg, printed)
    ] in
    if not (ec == 0) then some (ec, [], none) else answered

-- `handler` of src/main.cpp: a text of the bytes that were read, written whole, or an exception
unfoldable pub handler : Read → Bool → List Bytes × End
handler (received bytes) true = (bytes ∷ [], left)
handler _ _ = ([], caught)
