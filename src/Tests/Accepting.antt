-- ===== src/Tests/Accepting.antt =====
-- A server of src/05_ftp that accepts a connection.
use boost_asio.Common.{◌≡◌, refl, ◌<◌, arith, length, false, true, none, some, [], ◌∷◌, get_elem?}
use boost_asio.Map.{find, assign, nat_eq}
use boost_asio.Wire.Machines.{little_endian}
use boost_asio.Session.{new_session, stop as stop_session}
use boost_asio.Pool.{replicate, new_pool, get_io_service}
use boost_asio.Reader.{start}
use boost_asio.Server.{
  Held, Server, listening, new_server, start_accept, destroy, start_session, insert_session,
  accept_fails, accept_starts, accept_saves, connected, handler_accept, session_ends, stop,
}
use boost_asio.Server.Steps.{here, next, starts, saves}
use boost_asio.Server.Signal.{on_signal, on_signal-Reaches}
use boost_asio.Server.Race.{session_ends-accept_saves}

abbrev held : Held
held = record { session = new_session little_endian 7; io = 0; running = false }

abbrev waiting : Server
waiting = record (listening 2) { pool = record (new_pool 2) { next = 1 }; accepting = some held }

new_server_runs : new_server little_endian 2 7 ≡ some waiting
unfolding new_server listening start_accept new_pool
new_server_runs = refl

abbrev begun : Server
begun = record (start_session held waiting) { starting = true }

started : accept_starts waiting ≡ some begun
unfolding accept_starts listening
started = refl

abbrev begun_held : Held
begun_held = record held {
  session = (start (connected held.session) waiting.world).session;
  running = true;
}

abbrev serving : Server
serving = record (insert_session 7 begun) {
  pool = record (new_pool 2) { next = 0 };
  accepting = some (record { session = new_session little_endian 8; io = 1; running = false });
  starting = false;
}

saved : accept_saves little_endian 8 begun ≡ some serving
unfolding accept_saves insert_session start_session start_accept listening new_pool new_session
saved = refl

accepted : handler_accept little_endian 8 false true waiting ≡ some serving
unfolding handler_accept accept_starts accept_saves insert_session start_session start_accept
    listening new_pool new_session
accepted = refl

abbrev failed : Server
failed = record waiting {
  pool = record (new_pool 2) {
    io_services = record { stopped = true } ∷ record { stopped = false } ∷ [];
    next = 0;
  };
  accepting = some (record { session = new_session little_endian 8; io = 1; running = false });
}

-- The destructor of the session that was not accepted stops the context that it shares.
accept_fails_stops : accept_fails little_endian 8 waiting ≡ some failed
unfolding accept_fails destroy start_accept listening new_pool new_session
    boost_asio.World.remove_session boost_asio.Map.erase
accept_fails_stops = refl

-- Stop while the coroutine of the session runs
stop_running :
    stop (λ i. false) serving
    ≡ some (record serving {
      world = record serving.world { sessions = [] };
      objects =
          assign 7
            (record begun_held { session = stop_session begun_held.session })
            serving.objects;
    })
unfolding stop insert_session start_session listening new_session assign find
stop_running = refl

-- Stop when the session is over and the table alone holds it
stop_alone :
    stop (λ i. false) (record serving { objects = (7, record begun_held { running = false }) ∷ [] })
    ≡ none
unfolding stop insert_session start_session listening new_session assign find
stop_alone = refl

next_context : get_io_service waiting.pool ≡ some (1, record (new_pool 2) { next = 0 })
unfolding get_io_service new_pool
next_context = refl

idle : waiting.starting ≡ false
unfolding listening
idle = refl

inside : 0 < length waiting.pool.io_services
unfolding new_pool
inside = omega arith

session_ends-accept_saves_example :
    (begun : Server) × (accept_starts waiting ≡ some begun)
    × ((early : Server) × (session_ends held.session.id true begun ≡ some early)
        × ((late : Server) × (accept_saves little_endian 8 early ≡ some late)
            × (find held.session.id late.world.sessions ≡ some held.session.id)
            × ((y : Held) × (find held.session.id late.objects ≡ some y) × (y.running ≡ false))))
    × ((saved : Server) × (accept_saves little_endian 8 begun ≡ some saved)
        × ((gone : Server) × (session_ends held.session.id false saved ≡ some gone)
            × (find held.session.id gone.world.sessions ≡ none)
            × (find held.session.id gone.objects ≡ none)
            × (get_elem? gone.pool.io_services 0 ≡ some (record { stopped = true }))))
session_ends-accept_saves_example =
    session_ends-accept_saves little_endian 8 1 waiting held (record (new_pool 2) { next = 0 }) true
      refl idle next_context inside

on_signal-Reaches_example :
    (srv' : Server) × (on_signal serving ≡ some srv')
    × (srv'.pool.io_services ≡ replicate 2 (record { stopped = true }))
    × (srv'.pool.joined ≡ replicate 2 true)
    × (srv'.stopped ≡ true)
    × (srv'.world ≡ serving.world)
    × (srv'.objects ≡ serving.objects)
on_signal-Reaches_example =
    on_signal-Reaches little_endian 2 7 waiting serving new_server_runs
      (next (next here (starts started)) (saves 8 saved))
