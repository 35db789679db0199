-- ===== src/Tests/Earlier.antt =====
-- The server and the client of src/02_async at concrete messages.
use boost_asio.Common.{
  ◌⊎◌, ◌+◌, ◌<◌, ◌≤◌, ◌^◌, ◌≡◌, ◌≢◌, refl, true, false, none, [], ◌∷◌, ◌++◌, map, arith,
}
use boost_asio.Memory.{c_string}
use boost_asio.Map.{find, assign, nat_eq, bytes_eq, bytes_beq}
use boost_asio.Wire.Host.{bytes16}
use boost_asio.Wire.Machines.{little_endian, little_endian-IsHost}
use boost_asio.Logic.{text}
use boost_asio.Async.Wire.{ok, fault, pos, msg_node, new_chars, max_len}
use boost_asio.Async.Session.{
  Session, World, Reader, returned, new_session, send_view, await_head, exceeds,
}
use boost_asio.Async.Session.Reading.{
  taken, posts, IsTaken, reads_of, run_reads, run_reads-messages,
}
use boost_asio.Async.Session.Sending.{sends, here, next, IsValid, new_session-Reaches}
use boost_asio.Async.Client.{test_recv}
use boost_asio.Async.Client.Answers.{test_recv-wire}
use boost_asio.Async.Logic.{System, Round, goes_on, deal_msg}
use boost_asio.Async.Logic.Answer.{answered, answering, send_view-idle, deal_msg-hello}
use boost_asio.Tests.Machine.{hi}
use boost_asio.Tests.Toy.{object, str, int, toy}

abbrev pub session : Session
session = record {
  id = 7;
  writing = [];
  send_queue = [];
  recv_msg_node = none;
  recv_head_node = record {
    cur_len = 0;
    total_len = pos 4;
    chars = 0xaa ∷ 0xaa ∷ 0xaa ∷ 0xaa ∷ 0xaa ∷ [];
    msg_id = 0xffff;
  };
}

abbrev pub world : World
world = record { nodes = []; sessions = (7, 7) ∷ []; msg_queue = [] }

is_new : new_session little_endian 7 ≡ ok session
unfolding new_session msg_node new_chars
is_new = refl

send_view_runs : send_view little_endian hi 1001 session ≡ ok (answering hi 1001 session)
send_view_runs =
    (send_view-idle little_endian little_endian-IsHost hi 1001 session (omega arith) refl).0
      (omega arith)

new_session-Reaches_example : IsValid (answering hi 1001 session)
new_session-Reaches_example =
    new_session-Reaches little_endian 7 session (answering hi 1001 session) is_new
      (next here (sends hi 1001 send_view_runs))

hi-IsTaken : IsTaken (1001, hi)
unfolding exceeds
hi-IsTaken = record {
  id_short = omega arith;
  id_small = refl;
  some_byte = omega arith;
  small = omega arith;
}

run_reads-messages_example :
    (r : Reader) × (run_reads little_endian
        (reads_of ((1001, hi) ∷ (1001, hi) ∷ []))
        (await_head session world)
      ≡ ok r)
    × (r.co ≡ returned)
    × (r.world.nodes ≡ map taken ((1001, hi) ∷ (1001, hi) ∷ []))
    × (r.world.msg_queue ≡ posts 7 0 ((1001, hi) ∷ (1001, hi) ∷ []))
    × (r.world.sessions ≡ (7, 7) ∷ [])
run_reads-messages_example =
    run_reads-messages little_endian little_endian-IsHost ((1001, hi) ∷ (1001, hi) ∷ []) session
      world refl (hi-IsTaken, (hi-IsTaken, tt)) (omega arith)

test_recv-wire_example :
    ((2 < max_len)
      × (test_recv little_endian ((bytes16 1001 ++ bytes16 2) ++ (hi ++ text "rest"))
          ≡ ok ((1001, 2, hi), text "rest")))
    ⊎ ((max_len ≤ 2)
        × (test_recv little_endian ((bytes16 1001 ++ bytes16 2) ++ (hi ++ text "rest")) ≡ fault))
test_recv-wire_example =
    test_recv-wire little_endian little_endian-IsHost 1001 hi (text "rest") (omega arith)
      (ground arith) (omega arith)

-- The worker has the message `hi` of the id HelloWorld.
abbrev posted : System
posted = record {
  world = record world {
    nodes = taken (1001, hi) ∷ [];
    msg_queue = record { session = 7; recv_node = 0 } ∷ [];
  };
  objects = (7, session) ∷ [];
  stop = false;
}

abbrev root : (toy (λ p. true)).Value
root = object (
    (text "data", str (text "i"))
    ∷ (text "seq", int 56)
    ∷ (text "name", str (text "f"))
    ∷ (text "total_size", int 4)
    ∷ (text "trans_size", int 2)
    ∷ (text "role", str (text "server"))
    ∷ [])

deal_msg-hello_example :
    ((2 + 4 < 2 ^ 15)
      × (deal_msg (toy (λ p. true)) little_endian posted
          ≡ ok (
              goes_on (
                answered
                  (toy (λ p. true))
                  little_endian
                  little_endian-IsHost
                  posted
                  (record { session = 7; recv_node = 0 })
                  []
                  (answering (text "{}") 1001 session)))))
    ⊎ ((2 ^ 15 ≤ 2 + 4) × ((r : Round) → deal_msg (toy (λ p. true)) little_endian posted ≢ ok r))
unfolding find assign c_string bytes_beq
deal_msg-hello_example =
    deal_msg-hello (toy (λ p. true)) little_endian little_endian-IsHost posted
      (record { session = 7; recv_node = 0 }) [] (taken (1001, hi)) root session refl refl refl refl
      refl refl refl
