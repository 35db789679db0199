-- ===== src/Tests/Reading.antt =====
use mathlib.Core.List.{flatten}
use boost_asio.Common.{◌^◌, ◌≡◌, refl, some, none, ◌⊎◌, List, [], ◌∷◌, ◌++◌, map, All, arith, true}
use boost_asio.Map.{nat_eq}
use boost_asio.Wire.Machines.{little_endian, little_endian-IsHost, big_endian, big_endian-IsHost}
use boost_asio.Wire.Node.{MsgNode}
use boost_asio.Wire.Layout.{sent}
use boost_asio.World.{World, remove_session}
use boost_asio.Session.{Session, new_session}
use boost_asio.Session.Queue.{Run, run, fresh}
use boost_asio.Reader.{Reader, reading_msg, returned, await_head, on_head, on_msg, start, feed}
use boost_asio.Reader.Message.{head, delivered}
use boost_asio.Reader.Stream.{Message, IsTaken, stream_of, read_node}
use boost_asio.Reader.Arrival.{Arrived, feed-messages}
use boost_asio.Reader.Rejected.{oversized_head-overwrites}
use boost_asio.Reader.Ending.{feed-ends}
use boost_asio.Reader.EndToEnd.{sent_messages, run-feed}
use boost_asio.Tests.Machine.{empty_world, hi}
use boost_asio.Tests.Sending.{events}

abbrev two_messages : List Message
two_messages = record { id = 1001; body = hi } ∷ record { id = 1003; body = hi } ∷ []

two-IsTaken : All IsTaken two_messages
two-IsTaken =
    ((omega arith, omega arith, omega arith), ((omega arith, omega arith, omega arith), tt))

feed-messages_example :
    (r : Reader) × (feed 5 little_endian
        (stream_of two_messages)
        (start (new_session little_endian 7) empty_world)
      ≡ some r)
    × Arrived (new_session little_endian 7) empty_world two_messages r
feed-messages_example =
    feed-messages little_endian little_endian-IsHost 7 empty_world two_messages 5 two-IsTaken
      (omega arith) (omega arith)

run-feed_example :
    (r : Run) × (r' : Reader) × (run little_endian events (fresh little_endian 7 empty_world)
      ≡ some r)
    × (feed 5 big_endian
          (flatten (r.out ++ map sent r.session.send_queue))
          (start (new_session big_endian 8) empty_world)
        ≡ some r')
    × Arrived (new_session big_endian 8) empty_world (sent_messages events) r'
run-feed_example =
    run-feed little_endian big_endian little_endian-IsHost big_endian-IsHost 7 8 empty_world
      empty_world events 5 two-IsTaken (omega arith) (omega arith) (omega arith)

feed-ends_example :
    (feed 4 little_endian hi (await_head (new_session little_endian 7) empty_world) ≡ none)
    ⊎ ((r' : Reader) × (feed 4 little_endian hi
            (await_head (new_session little_endian 7) empty_world)
          ≡ some r')
        × (r'.co ≡ returned))
feed-ends_example =
    feed-ends little_endian 4 hi (await_head (new_session little_endian 7) empty_world)
      (omega arith)

-- A session that has read `hi` into the node 0, and the world then.
abbrev old_session : Session
old_session = record {
  id = 7;
  sock = record { is_open = true; writing = [] };
  send_queue = [];
  recv_msg_node = some 0;
  recv_head_node = record {
    cur_len = 0;
    total_len = 6;
    chars = 3 ∷ 233 ∷ 0 ∷ 0 ∷ 0 ∷ 2 ∷ 0 ∷ [];
    msg_id = 0xffff;
  };
}

abbrev hi_node : MsgNode
hi_node = read_node (record { id = 1001; body = hi })

abbrev old_world : World
old_world = record empty_world { nodes = hi_node ∷ [] }

oversized_head-overwrites_example :
    (r : Reader) × (on_head big_endian (head 1003 (2 ^ 31)) old_session old_world ≡ some r)
    × (r.co ≡ reading_msg)
    × (on_msg (b'n' ∷ b'o' ∷ []) r.session r.world
        ≡ some (
            await_head r.session
              (delivered 7 0 hi_node (b'n' ∷ b'o' ∷ []) (remove_session 7 old_world))))
oversized_head-overwrites_example =
    oversized_head-overwrites big_endian big_endian-IsHost 1003 (2 ^ 31) (b'n' ∷ b'o' ∷ [])
      old_session old_world 0 hi_node refl refl refl refl refl (omega arith) (omega arith)
      (omega arith) (omega arith)
