-- ===== src/Tests/Conversations.antt =====
-- The main of the client of src/02_async with its server, with the toy for JSON, whose texts are all "{}".
use boost_asio.Common.{◌≡◌, refl, true, ◌++◌, Bytes, map}
use boost_asio.Map.{assign, bytes_eq, bytes_beq}
use boost_asio.Wire.Machines.{little_endian, little_endian-IsHost, big_endian, big_endian-IsHost}
use boost_asio.Async.Wire.{ok}
use boost_asio.Async.Client.Running.{main, send_num, wires, greetings, printed_of}
use boost_asio.Async.Conversation.{Serves, same, main-Serves}
use boost_asio.Tests.Earlier.{session, world}
use boost_asio.Tests.Exchanges.{braces, braces-IsText, greeting, greeting-Greets, reply}
use boost_asio.Tests.Toy.{toy}

main-Serves_example :
    (stream : Bytes) × Serves
      (toy (λ p. true))
      little_endian
      (greetings send_num braces)
      session
      world
      stream
    × ((more : Bytes)
        → main (toy (λ p. true)) big_endian 0 (stream ++ more)
          ≡ ok (record {
            code = 0;
            sent = wires (greetings send_num braces);
            printed = map printed_of (same send_num braces);
          }))
unfolding assign bytes_beq
main-Serves_example =
    main-Serves (toy (λ p. true)) (toy (λ p. true)) little_endian big_endian little_endian-IsHost
      big_endian-IsHost session world greeting reply braces braces
      (record { head_fits = refl; none_queued = refl; none_written = refl; none_posted = refl })
      greeting-Greets refl braces-IsText refl refl braces-IsText
