-- ===== src/Tests/Toy.antt =====
-- JSON and base64 are stood in for by a toy: a text is its first byte, a digit, as the number of a
-- part, and the rest of it as the part.
use mathlib.Core.Option
use boost_asio.Common.{ℕ, ◌-◌, Bool, true, false, Option, none, some, List, [], ◌∷◌, ◌++◌, Bytes}
use boost_asio.Map.{find, assign, bytes_eq}
use boost_asio.Logic.{text}
use boost_asio.Logic.Codec.{Libraries}

pub data Leaf : Type 0 where
  str : Bytes → Leaf
  int : ℕ → Leaf

pub data Value : Type 0 where
  leaf : Leaf → Value
  object : List (Bytes × Leaf) → Value

abbrev pub toy_parse : Bytes → Bool × Value
toy_parse [] = (false, object [])
toy_parse (b ∷ rest) = (
  true,
  object (
      (text "data", str rest)
      ∷ (text "seq", int (b - 48))
      ∷ (text "name", str (text "f"))
      ∷ (text "total_size", int 4)
      ∷ (text "trans_size", int 2)
      ∷ []),
)

abbrev pub toy_put : Bytes → Value → Value → Option Value
toy_put key (leaf l) (object m) = some (object (assign key l m))
toy_put key _ _ = none

abbrev pub toy_member : Bytes → Value → Option Value
toy_member key (object m) = Option.map leaf (find key m)
toy_member key (leaf l) = none

abbrev pub toy_string : Value → Option Bytes
toy_string (leaf (str s)) = some s
toy_string _ = none

abbrev pub toy_int : Value → Option ℕ
toy_int (leaf (int n)) = some n
toy_int _ = none

abbrev pub toy : (Bytes → Bool) → Libraries
toy opens = record {
  Value = Value;
  parse = toy_parse;
  null = object [];
  from_string = λ s. leaf (str s);
  from_int = λ n. leaf (int n);
  put = toy_put;
  member = toy_member;
  as_string = toy_string;
  as_int = toy_int;
  to_styled_string = λ v. text "{}";
  base64_decode = λ s. some s;
  join = λ dir name. dir ++ b'/' ∷ name;
  opens = opens;
}
