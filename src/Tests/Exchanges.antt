-- ===== src/Tests/Exchanges.antt =====
-- The client and the server of src/02_async together, with the toy for JSON, whose texts are all "{}".
use boost_asio.Common.{refl, true, [], ◌∷◌, Bytes, arith}
use boost_asio.Map.{assign, nat_eq, bytes_eq, bytes_beq}
use boost_asio.Logic.{text}
use boost_asio.Async.Exchange.{IsText, Greets}
use boost_asio.Tests.Toy.{Value, object, str, int, toy}

abbrev pub braces : Bytes
braces = text "{}"

pub braces-IsText : IsText braces
braces-IsText = record { some_byte = omega arith; fits = omega arith; free = ground arith }

abbrev pub greeting : Value
greeting =
    object ((text "role", str (text "client")) ∷ (text "data", str (text "hello world")) ∷ [])

pub greeting-Greets : Greets (toy (λ p. true)) greeting
unfolding assign bytes_beq
greeting-Greets = (object ((text "role", str (text "client")) ∷ []), refl, refl)

abbrev pub reply : Value
reply = object (
    (text "data", str (text "}"))
    ∷ (text "seq", int 75)
    ∷ (text "name", str (text "f"))
    ∷ (text "total_size", int 4)
    ∷ (text "trans_size", int 2)
    ∷ (text "role", str (text "server"))
    ∷ [])
