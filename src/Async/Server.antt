-- ===== src/Async/Server.antt =====
-- src/02_async/Server.h and server.cpp, and what RunServer.cpp does at a signal. A session runs on a context
-- of the pool. The coroutines are resumed one at a time; a read of an open socket is pending until bytes
-- come or the socket is closed.
pub mod Contexts
pub mod Signal
use boost_asio.Common.{
  ℕ, zero, suc, Bool, true, false, ◌&&◌, ◌||◌, Option, none, some, List, [], ◌∷◌, if◌then◌else◌,
  ◌==◌,
}
use boost_asio.Map.{find, assign, nat_eq}
use boost_asio.Wire.Host.{Host}
use boost_asio.Async.Wire.{Outcome, ok, throws, fault, ◌>>=◌, checked}
use boost_asio.Async.Session.{
  Session, World, new_session, Co, reading_head, reading_msg, returned, Read, resume_at, start,
}
use boost_asio.Async.Pool.{IoServicePool, new_pool, get_io_service, stop as stop_pool}

-- A session with its coroutine, its socket and its context
pub record Connection : Type 0 where
  pub session : Session
  pub co : Co
  pub is_open : Bool
  pub io : ℕ

pub record Server : Type 0 where
  -- with `_sessions`
  pub world : World
  -- the sessions that were accepted, by their ids
  pub objects : List (ℕ × Connection)
  pub pool : IoServicePool
  -- the session that waits for a connection
  pub accepting : Option Connection

-- Server::StartAccept, with the uuid of the new session
unfoldable pub start_accept : Host → ℕ → Server → Outcome Server
unfolding get_io_service new_session
start_accept h id srv = do
  (io, pool) ← checked (get_io_service srv.pool)
  s ← new_session h id
  ok (record srv {
    pool = pool;
    accepting = some (record { session = s; co = reading_head; is_open = false; io = io });
  })

-- The constructor, before its StartAccept, with a pool of so many contexts
unfoldable pub listening : ℕ → Server
unfolding new_pool
listening size = record {
  world = record { nodes = []; sessions = []; msg_queue = [] };
  objects = [];
  pool = new_pool size;
  accepting = none;
}

unfoldable pub new_server : Host → ℕ → ℕ → Outcome Server
unfolding start_accept listening
new_server h size id = start_accept h id (listening size)

-- `newSession->Start()` on a connection that has opened the socket, and the assignment to the table
unfoldable pub save_session : Connection → Server → Server
unfolding start
save_session conn srv =
    let r = start conn.session srv.world in
    let id = conn.session.id in
    record srv {
      world = record r.world { sessions = assign id id r.world.sessions };
      objects = (id, record conn { session = r.session; co = r.co; is_open = true }) ∷ srv.objects;
    }

-- Server::HandlerAccept. `remote_endpoint` throws if the peer has gone.
unfoldable pub handler_accept : Host → ℕ → Bool → Bool → Server → Outcome Server
unfolding save_session start_accept
handler_accept h next ec has_endpoint srv = do
  conn ← checked srv.accepting
  let saved : Outcome Server = if has_endpoint then ok (save_session conn srv) else throws
  srv' ← if ec then ok srv else saved
  start_accept h next srv'

-- What a read of a session comes to, and its coroutine up to the next one
unfoldable pub resume : Host → ℕ → Read → Server → Outcome Server
unfolding resume_at
resume h id read srv = do
  conn ← checked (find id srv.objects)
  r ← resume_at h conn.co read conn.session srv.world
  ok (record srv {
    world = r.world;
    objects = assign id (record conn { session = r.session; co = r.co }) srv.objects;
  })

-- Session::Stop, on the object of that id
unfoldable pub close_session : ℕ → List (ℕ × Connection) → List (ℕ × Connection)
close_session id [] = []
close_session id ((i, conn) ∷ objects) =
    (i, record conn { is_open = if i == id then false else conn.is_open })
    ∷ close_session id objects

-- The loop of Stop over the table
unfoldable pub stop_sessions : List (ℕ × ℕ) → List (ℕ × Connection) → List (ℕ × Connection)
unfolding close_session
stop_sessions [] objects = objects
stop_sessions ((_, id) ∷ table) objects = stop_sessions table (close_session id objects)

-- Server::Stop
unfoldable pub stop : Server → Server
unfolding stop_sessions
stop srv = record srv {
  world = record srv.world { sessions = [] };
  objects = stop_sessions srv.world.sessions srv.objects;
}

-- A coroutine that reads from an open socket
abbrev pub is_reading : Connection → Bool
is_reading conn = elim conn.co [
  | reading_head ↦ conn.is_open
  | reading_msg ↦ conn.is_open
  | returned ↦ false
]

-- Whether a read is pending on a context
unfoldable pub pending : List (ℕ × Connection) → ℕ → Bool
pending [] i = false
pending ((_, conn) ∷ objects) i = (conn.io == i && is_reading conn) || pending objects i

-- The handler of the signals in `main`: `server.Stop()`, `ioc.stop()`, which ends the accepting, and
-- `iocPool.Stop()`. `none`: it does not return, as long as nothing comes from the peers.
unfoldable pub on_signal : Server → Option Server
unfolding stop pending stop_pool
on_signal srv =
    let stopped = stop srv in
    elim (stop_pool (pending stopped.objects) stopped.pool) [
      | none ↦ none
      | some pool ↦ some (record stopped { pool = pool; accepting = none })
    ]
