-- ===== src/Tests/Echoes.antt =====
-- The echo programs at concrete reads, and the accept loop of src/04_beast-websocket.
use boost_asio.Common.{ℕ, zero, suc, ◌≡◌, refl, none, some, List, [], ◌∷◌, ◌++◌, map, take, arith}
use boost_asio.Memory.{c_string}
use boost_asio.Wire.Machines.{filled, length-filled}
use boost_asio.StringTool.Affixes.{HasNoZero}
use boost_asio.Logic.{text}
use boost_asio.Echo.{max_len, session, waits}
use boost_asio.Echo.Sessions.{Chunk, turn_of, session-turn_of}
use boost_asio.Tests.Machine.{hi}

abbrev chunks : List Chunk
chunks = (hi, 1024) ∷ (text "ab" ++ 0 ∷ text "cd", 1) ∷ []

filled-HasNoZero : (n : ℕ) → HasNoZero (filled 65 n)
filled-HasNoZero zero = tt
filled-HasNoZero (suc n) = (ground arith, filled-HasNoZero n)

session-turn_of_example :
    (session (map turn_of chunks) ≡ some (map (λ c. take c.1 (c_string c.0)) chunks, waits))
    × (session (map turn_of chunks ++ turn_of (filled 65 max_len, 7) ∷ []) ≡ none)
session-turn_of_example =
    session-turn_of chunks (filled 65 max_len) 7 [] (omega arith, (omega arith, tt))
      (length-filled 65 max_len) (filled-HasNoZero max_len)

sends_back : map (λ c. take c.1 (c_string c.0)) chunks ≡ hi ∷ text "a" ∷ []
unfolding c_string
sends_back = refl
