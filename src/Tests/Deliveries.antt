-- ===== src/Tests/Deliveries.antt =====
-- An upload of two parts from the connection to the file, with the toy for JSON and base64.
use boost_asio.Common.{◌≡◌, refl, true, some, List, [], ◌∷◌, Bytes, map, All, arith}
use boost_asio.Map.{find, nat_eq, bytes_eq}
use boost_asio.Wire.Machines.{little_endian, little_endian-IsHost}
use boost_asio.Session.{new_session}
use boost_asio.Reader.{Reader, feed, start}
use boost_asio.Reader.Stream.{stream_of}
use boost_asio.Logic.{System, returns, text, deal_msg}
use boost_asio.Logic.Files.{contents}
use boost_asio.Logic.Posts.{Sent, part, message_of}
use boost_asio.Logic.Delivery.{stopping, IsUpload, feed-contents}
use boost_asio.Tests.Machine.{empty_world}
use boost_asio.Tests.Toy.{toy}
use boost_asio.Tests.Working.{first-IsPart, second-IsPart}

abbrev first : Sent
first = record { message = record { id = 1003; body = text "0ab" }; seq = 0; bytes = text "ab" }

abbrev second : Sent
second = record { message = record { id = 1003; body = text "1cd" }; seq = 1; bytes = text "cd" }

abbrev files : List (Bytes × Bytes)
files = (text "s/f", text "old") ∷ (text "s/fg", text "kept") ∷ []

both-IsUpload : All (IsUpload (toy (λ p. true)) (text "f")) (first ∷ second ∷ [])
both-IsUpload = (
  ((omega arith, omega arith, omega arith), refl, first-IsPart (λ p. true)),
  (((omega arith, omega arith, omega arith), refl, second-IsPart (λ p. true)), tt),
)

feed-contents_example :
    (r : Reader) × (after : System) × (feed 5 little_endian
        (stream_of (map message_of (first ∷ second ∷ [])))
        (start (new_session little_endian 7) empty_world)
      ≡ some r)
    × (deal_msg (toy (λ p. true)) little_endian (stopping 7 r [] files (text "s"))
        ≡ some (returns after))
    × (find (text "s/f") after.files ≡ some (contents (map part (first ∷ second ∷ []))))
    × (find (text "s/fg") after.files ≡ find (text "s/fg") files)
feed-contents_example =
    feed-contents (toy (λ p. true)) little_endian little_endian-IsHost 7 empty_world first
      (second ∷ []) 5 (text "f") (text "s/f") (text "s/fg") [] files (text "s") (λ e. cc) refl
      both-IsUpload refl (omega arith, tt) (omega arith) (omega arith) refl refl

whole : contents (map part (first ∷ second ∷ [])) ≡ text "abcd"
whole = refl
