-- ===== src/Server.antt =====
-- src/05_ftp/Server.cpp and include/Server.h: accepting connections, and the table of the sessions.
-- `HandlerAccept` is cut into the two steps that another thread sees, since the coroutine that `Start`
-- sets going runs on a thread of the pool. A session is held by its coroutine, by the table, by the handler
-- that accepts it, and by its writes and the messages that it has posted; when the last of them lets it go, its
-- destructor runs.
pub mod Steps
pub mod Race
pub mod Signal
use boost_asio.Common.{
  ℕ, Bool, true, false, not, ◌&&◌, ◌||◌, Option, none, some, ◌>>=◌, List, [], ◌∷◌, if◌then◌else◌,
  ◌==◌,
}
use boost_asio.Map.{find, assign, erase, nat_eq}
use boost_asio.Wire.Host.{Host}
use boost_asio.World.{World}
use boost_asio.Session.{Session, new_session, stop as stop_session}
use boost_asio.Reader.{Reader, start, on_exception}
use boost_asio.Pool.{IoServicePool, new_pool, get_io_service, destroy_session}

-- A session with its context, and whether its coroutine runs
pub record Held : Type 0 where
  pub session : Session
  pub io : ℕ
  pub running : Bool

pub record Server : Type 0 where
  -- with `_sessions`
  pub world : World
  -- the sessions that have been started and not been destroyed, by their ids
  pub objects : List (ℕ × Held)
  pub pool : IoServicePool
  -- the session that waits for a connection, or that HandlerAccept has at hand
  pub accepting : Option Held
  -- HandlerAccept has called `Start` and has not saved the session yet.
  pub starting : Bool
  -- `stop` of the context of the acceptor
  pub stopped : Bool

-- Server::StartAccept, with the uuid of the new session
unfoldable pub start_accept : Host → ℕ → Server → Option Server
unfolding get_io_service new_session
start_accept h id srv = do
  (io, pool) ← get_io_service srv.pool
  some (record srv {
    pool = pool;
    accepting = some (record { session = new_session h id; io = io; running = false });
    starting = false;
  })

-- The constructor, before its StartAccept, with a pool of so many contexts
unfoldable pub listening : ℕ → Server
unfolding new_pool
listening size = record {
  world = record { nodes = []; sessions = []; inbox = record { msg_queue = []; stop = false } };
  objects = [];
  pool = new_pool size;
  accepting = none;
  starting = false;
  stopped = false;
}

-- Server::Server
unfoldable pub new_server : Host → ℕ → ℕ → Option Server
unfolding start_accept listening
new_server h size id = start_accept h id (listening size)

-- The destructor of a session that nothing holds any more
unfoldable pub destroy : Held → Server → Server
unfolding destroy_session
destroy x srv =
    let (pool, world) = destroy_session x.io x.session srv.pool srv.world in
    record srv { pool = pool; world = world; objects = erase x.session.id srv.objects }

-- A connection opens the socket of the session that waited for it.
abbrev pub connected : Session → Session
connected s = record s { sock = record { is_open = true; writing = s.sock.writing } }

-- `newSession->Start()`
unfoldable pub start_session : Held → Server → Server
unfolding start
start_session x srv =
    let r = start (connected x.session) srv.world in
    record srv {
      world = r.world;
      objects = assign x.session.id (record x { session = r.session; running = true }) srv.objects;
    }

-- `_sessions[newSession->Id()] = newSession`
unfoldable pub insert_session : ℕ → Server → Server
insert_session id srv = record srv {
  world = record srv.world { sessions = assign id id srv.world.sessions };
}

-- HandlerAccept with an error code: the session that it was for goes when it returns.
unfoldable pub accept_fails : Host → ℕ → Server → Option Server
unfolding start_accept destroy
accept_fails h next srv = do
  x ← srv.accepting
  srv' ← if srv.starting then none else start_accept h next srv
  some (destroy x srv')

-- HandlerAccept without an error, up to `Start`
unfoldable pub accept_starts : Server → Option Server
unfolding start_session
accept_starts srv = do
  x ← srv.accepting
  if srv.starting then none else some (record (start_session x srv) { starting = true })

-- The rest of HandlerAccept
unfoldable pub accept_saves : Host → ℕ → Server → Option Server
unfolding insert_session start_accept
accept_saves h next srv = do
  x ← srv.accepting
  if srv.starting then start_accept h next (insert_session x.session.id srv) else none

-- Server::HandlerAccept. `remote_endpoint` throws if the peer has gone, out of `ioc.run()`.
unfoldable pub handler_accept : Host → ℕ → Bool → Bool → Server → Option Server
unfolding accept_fails accept_starts accept_saves
handler_accept h next ec has_endpoint srv =
    let saved : Option Server = (do started ← accept_starts srv; accept_saves h next started) in
    if ec then accept_fails h next srv else if has_endpoint then saved else none

-- HandlerAccept holds the session that it has started.
unfoldable pub is_starting : ℕ → Server → Bool
is_starting id srv = elim srv.accepting [
  | none ↦ false
  | some x ↦ srv.starting && x.session.id == id
]

-- The coroutine of a session ends, at the end of the connection, and lets the session go; `queued` says
-- whether a message that the session has posted, or a write that is under way, still holds it.
unfoldable pub session_ends : ℕ → Bool → Server → Option Server
unfolding on_exception is_starting destroy
session_ends id queued srv = do
  x ← find id srv.objects
  let r = on_exception x.session srv.world
  let x' : Held = record x { session = r.session; running = false }
  let srv' : Server = record srv { world = r.world; objects = assign id x' srv.objects }
  if not x.running
      then none
      else some (if queued || is_starting id srv then srv' else destroy x' srv')

abbrev pub in_table : ℕ → Server → Bool
in_table id srv = elim (find id srv.world.sessions) [ none ↦ false | some a ↦ true ]

-- The last message or write of a session is over, and lets the session go.
unfoldable pub session_released : ℕ → Server → Option Server
unfolding is_starting destroy
session_released id srv = do
  x ← find id srv.objects
  some (if x.running || (in_table id srv || is_starting id srv) then srv else destroy x srv)

-- The loop of Stop over the table
unfoldable pub stop_sessions : List (ℕ × ℕ) → List (ℕ × Held) → Option (List (ℕ × Held))
unfolding stop_session
stop_sessions [] objects = some objects
stop_sessions ((_, a) ∷ table) objects = do
  x ← find a objects
  stop_sessions table (assign a (record x { session = stop_session x.session }) objects)

-- Whether the table alone holds a session, where `queued` says which sessions a message or a write holds
unfoldable pub any_alone : (ℕ → Bool) → List (ℕ × ℕ) → List (ℕ × Held) → Bool
any_alone queued [] objects = false
any_alone queued ((_, a) ∷ table) objects =
    elim (find a objects) [ none ↦ false | some x ↦ not (x.running || queued a) ]
    || any_alone queued table objects

-- Server::Stop. The destructor of a session that the table alone holds erases from the table while that is
-- being cleared, which is a fault.
unfoldable pub stop : (ℕ → Bool) → Server → Option Server
unfolding stop_sessions any_alone
stop queued srv = do
  objects ← stop_sessions srv.world.sessions srv.objects
  if any_alone queued srv.world.sessions objects
      then none
      else some (record srv { world = record srv.world { sessions = [] }; objects = objects })
