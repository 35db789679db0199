-- ===== src/Tests/Sending.antt =====
use boost_asio.Common.{◌≡◌, refl, none, some, true, List, [], ◌∷◌, ◌++◌, map, All, arith}
use boost_asio.Wire.Machines.{little_endian, little_endian-IsHost}
use boost_asio.Wire.Layout.{layout, sent}
use boost_asio.World.{remove_session}
use boost_asio.Session.{Session, write_done}
use boost_asio.Session.Queue.{Event, Fits, sends, completes, Run, run, fresh}
use boost_asio.Session.Order.{messages, run-messages}
use boost_asio.Session.Failure.{write_done-silences}
use boost_asio.Tests.Machine.{empty_world, hi}

abbrev pub events : List Event
events = sends hi 1001 ∷ sends hi 1003 ∷ completes ∷ []

events_fit : All Fits events
events_fit = ((omega arith, omega arith), ((omega arith, omega arith), (tt, tt)))

run-messages_example :
    (r : Run) × (run little_endian events (fresh little_endian 7 empty_world) ≡ some r)
    × (r.out ++ map sent r.session.send_queue ≡ messages events)
run-messages_example =
    run-messages little_endian little_endian-IsHost 7 empty_world events events_fit (omega arith)

abbrev writing_session : Session
writing_session = record {
  id = 7;
  sock = record { is_open = true; writing = sent (layout hi 1001) ∷ [] };
  send_queue = layout hi 1001 ∷ [];
  recv_msg_node = none;
  recv_head_node = layout hi 1001;
}

write_done-silences_example :
    (s' : Session) × (r : Run) × (write_done true writing_session empty_world
      ≡ some (s', remove_session 7 empty_world))
    × (run little_endian events
          (record { session = s'; world = remove_session 7 empty_world; out = [] })
        ≡ some r)
    × (r.out ≡ [])
    × (r.session.sock.writing ≡ [])
write_done-silences_example =
    write_done-silences little_endian little_endian-IsHost writing_session empty_world
      (layout hi 1001) [] [] events refl refl events_fit
