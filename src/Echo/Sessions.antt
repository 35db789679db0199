-- ===== src/Echo/Sessions.antt =====
-- What the echo programs of src/01_base and src/main.cpp send back.
use mathlib.Core.List.{append-nil}
use boost_asio.Common.{
  ℕ, ◌≤◌, ◌<◌, ◌≡◌, refl, ap, ◌∙◌, true, none, some, List, [], ◌∷◌, ◌++◌, map, Bytes, All, length,
  take, drop, take_all, length-drop, arith, ◌==◌, Bool-cases, inl, inr,
}
use boost_asio.Memory.{c_string, memcpy-append}
use boost_asio.StringTool.Affixes.{HasNoZero}
use boost_asio.Async.Client.{zeros}
use boost_asio.Async.Client.Buffers.{length-zeros}
use boost_asio.Async.Client.Answers.{zeros_left, no_more}
use boost_asio.Echo.{
  max_len, received, text_of, message_of, Turn, waits, session_turn, session, client_prints,
  client_main, handler,
}

text_of-zero : (s rest : Bytes) → text_of (s ++ 0 ∷ rest) ≡ some (c_string s)
unfolding text_of c_string
text_of-zero [] rest = refl
text_of-zero (b ∷ s) rest = elim (Bool-cases (b == 0)) [
  | inl ends ↦ rw ends refl
  | inr more ↦ rw more (rw (text_of-zero s rest) refl)
]

text_of-none : (s : Bytes) → HasNoZero s → text_of s ≡ none
unfolding text_of
text_of-none [] free = refl
text_of-none (b ∷ s) free = ground (arith, text_of-none s free.1)

-- An array that is not full has a zero behind what was read.
pub message_of-short :
    (bytes : Bytes) → length bytes < max_len → message_of bytes ≡ some (c_string bytes)
unfolding message_of
message_of-short bytes fits =
    let (t, behind) = zeros_left (length bytes) max_len fits in
    rw (memcpy-append [] (zeros max_len) bytes (omega (arith, length-zeros max_len)), behind)
      (text_of-zero bytes t)

pub message_of-full :
    (bytes : Bytes) → length bytes ≡ max_len → HasNoZero bytes → message_of bytes ≡ none
unfolding message_of
message_of-full bytes full free =
    rw
      (
        memcpy-append [] (zeros max_len) bytes (omega (arith, length-zeros max_len)),
        no_more (drop (length bytes) (zeros max_len))
            (omega (arith, length-drop (length bytes) (zeros max_len), length-zeros max_len)),
        append-nil bytes,
      )
      (text_of-none bytes free)

-- Bytes that a read left in the array of `session`, fewer than it holds, and how many were taken back
abbrev pub Chunk : Type 0
Chunk = Bytes × ℕ

abbrev pub IsShort : Chunk → Type 0
IsShort c = length c.0 < max_len

abbrev pub turn_of : Chunk → Turn
turn_of c = record { read = received c.0; has_endpoint = true; accepted = c.1 }

-- What is sent back for reads of fewer than MAX_LEN bytes each: of each, the bytes before its first zero, as
-- many as write_some takes.
pub session-before_zero :
    (chunks : List Chunk)
    → All IsShort chunks
    → session (map turn_of chunks) ≡ some (map (λ c. take c.1 (c_string c.0)) chunks, waits)
unfolding session session_turn
session-before_zero [] short = refl
session-before_zero (c ∷ chunks) short =
    rw (message_of-short c.0 short.0, session-before_zero chunks short.1) refl

c_string-HasNoZero : (s : Bytes) → HasNoZero s → c_string s ≡ s
unfolding c_string
c_string-HasNoZero [] free = refl
c_string-HasNoZero (b ∷ s) free = ground (arith, c_string-HasNoZero s free.1)

-- A read of MAX_LEN bytes with no zero among them leaves no zero in the array, and the text that is printed
-- and sent back goes on behind it, whatever is read afterwards.
pub session-full :
    (bytes : Bytes) (accepted : ℕ) (turns : List Turn)
    → length bytes ≡ max_len
    → HasNoZero bytes
    → session (turn_of (bytes, accepted) ∷ turns) ≡ none
unfolding session session_turn
session-full bytes accepted turns full free = rw (message_of-full bytes full free) refl

session-later :
    (chunks : List Chunk) (turns : List Turn)
    → All IsShort chunks
    → session turns ≡ none
    → session (map turn_of chunks ++ turns) ≡ none
unfolding session session_turn
session-later [] turns short ended = ended
session-later (c ∷ chunks) turns short ended =
    rw (message_of-short c.0 short.0, session-later chunks turns short.1 ended) refl

-- For reads of fewer than MAX_LEN bytes each, the bytes before the first zero of each are sent back, as many
-- as write_some takes. If a read of MAX_LEN bytes with no zero among them follows, no zero is left in the
-- array, and the text that is printed and sent back goes on behind it, whatever is read afterwards.
pub session-turn_of :
    (chunks : List Chunk) (bytes : Bytes) (accepted : ℕ) (turns : List Turn)
    → All IsShort chunks
    → length bytes ≡ max_len
    → HasNoZero bytes
    → (session (map turn_of chunks) ≡ some (map (λ c. take c.1 (c_string c.0)) chunks, waits))
      × (session (map turn_of chunks ++ turn_of (bytes, accepted) ∷ turns) ≡ none)
session-turn_of chunks bytes accepted turns short full free = (
  session-before_zero chunks short,
  session-later chunks (turn_of (bytes, accepted) ∷ turns) short
      (session-full bytes accepted turns full free),
)

-- A text with no zero, of fewer than MAX_LEN bytes, that arrives in one read and is taken back in one write
-- is sent back as it was, also by the handler of src/main.cpp, and the client prints it as it was sent.
pub session-client_prints :
    (msg : Bytes) (accepted : ℕ)
    → length msg < max_len
    → length msg ≤ accepted
    → HasNoZero msg
    → (session (turn_of (msg, accepted) ∷ []) ≡ some ((handler (received msg) true).0, waits))
      × ((handler (received msg) true).0 ≡ msg ∷ [])
      × (client_prints (received msg) ≡ some (some msg))
unfolding session session_turn client_prints handler
session-client_prints msg accepted fits taken free =
    let whole : message_of msg ≡ some msg =
      message_of-short msg fits ∙ ap some (c_string-HasNoZero msg free) in
    ((rw (whole, take_all accepted msg taken) refl), refl, (rw (whole) refl))

-- A line with no zero, of fewer than MAX_LEN bytes, that the client sends, and that the session reads and takes
-- back in one piece each, is what the client prints before it returns 0.
pub client_main-session :
    (msg : Bytes) (accepted : ℕ)
    → length msg < max_len
    → length msg ≤ accepted
    → HasNoZero msg
    → (bytes : Bytes) × (client_main 0 msg (some accepted) (received bytes)
        ≡ some (0, msg, some msg))
      × (session (turn_of (msg, accepted) ∷ []) ≡ some (bytes ∷ [], waits))
unfolding client_main
client_main-session msg accepted fits taken free =
    let (echoed, same, printed) = session-client_prints msg accepted fits taken free in
    (
      msg,
      (rw (printed, take_all accepted msg taken) refl),
      echoed ∙ ap (λ out. some (out, waits)) same,
    )
