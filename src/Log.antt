-- ===== src/Log.antt =====
-- src/05_ftp/include/AsyncLogSystem.h: the text of a message. The time of day is an argument, and
-- so are the arguments of a call, as the strings that `to_string` makes of them.
pub mod Placeholders
pub mod Queue
pub mod System
use boost_asio.Common.{
  ℕ, zero, suc, ◌+◌, Bool, true, false, ◌||◌, ◌&&◌, not, Option, none, some, ◌>>=◌, List, [], ◌∷◌,
  ◌++◌, Bytes, if◌then◌else◌, take, drop, length, ◌==◌, map,
}
use boost_asio.Logic.{text}

-- The enumeration has the values 0 to 3, and the code provides for others.
pub data LogLevel : Type 0 where
  debug : LogLevel
  info : LogLevel
  warn : LogLevel
  error : LogLevel
  unknown : LogLevel

-- to_string(LogLevel)
unfoldable pub level_string : LogLevel → Bytes
level_string debug = text "DEBUG"
level_string info = text "INFO"
level_string warn = text "WARN"
level_string error = text "ERROR"
level_string unknown = text "UNKNOWN"

unfoldable pub opening : ℕ → Bool
opening b = b == b'{'

unfoldable pub closing : ℕ → Bool
closing b = b == b'}'

-- std::string::find("{}", 0)
unfoldable pub find_placeholder : Bytes → Option ℕ
unfolding opening closing
find_placeholder [] = none
find_placeholder (a ∷ []) = none
find_placeholder (a ∷ b ∷ s) =
    let later = find_placeholder (b ∷ s) in
    if opening a && closing b then some 0 else elim later [ none ↦ none | some i ↦ some (suc i) ]

unfoldable pub join_all : List Bytes → Bytes
join_all [] = []
join_all (a ∷ rest) = a ++ join_all rest

-- One turn of the first loop of FormatMessage: the argument that is put in, and those left
unfoldable pub next_argument : List Bytes → Bytes × List Bytes
next_argument [] = (text "{}", [])
next_argument (a ∷ rest) = (a, rest)

-- The loops of FormatMessage, from the position on at which `rest` stands in the format. The fuel
-- is for the first; its end is `none`.
unfoldable pub format_loop : ℕ → Bytes → List Bytes → Option Bytes
unfolding find_placeholder next_argument join_all
format_loop zero rest args = none
format_loop (suc n) rest args = elim (find_placeholder rest) [
  | none ↦ some (rest ++ join_all args)
  | some placeholder ↦ (do
    after ← format_loop n (drop (placeholder + 2) rest) (next_argument args).1
    some (take placeholder rest ++ (next_argument args).0 ++ after))
]

-- FormatMessage
unfoldable pub format_message : LogLevel → Bytes → Bytes → List Bytes → Option Bytes
unfolding level_string format_loop
format_message level current_time fmt args = do
  formatted ← format_loop (suc (length fmt)) fmt args
  some (text "[" ++ level_string level ++ text "] " ++ current_time ++ text ": " ++ formatted)
