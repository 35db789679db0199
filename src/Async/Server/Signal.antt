-- ===== src/Async/Server/Signal.antt =====
-- The handler of the signals in src/02_async/RunServer.cpp: whether it returns.
use boost_asio.Common.{
  ℕ, ◌≡◌, refl, sym, ap, ◌∙◌, Bool, true, false, not, ◌&&◌, ◌||◌, none, some, List, [], ◌∷◌, map,
  All, arith, if◌then◌else◌, ◌==◌, Bool-cases, inl, inr,
}
use boost_asio.Wire.Host.{Host}
use boost_asio.Pool.{replicate}
use boost_asio.Async.Session.{reading_head, reading_msg, returned}
use boost_asio.Async.Pool.{join_threads, stop as stop_pool}
use boost_asio.Async.Pool.Joining.{
  any_from, join_threads-replicate, any_from-false, any_from-or, any_from-one,
}
use boost_asio.Async.Server.{
  Connection, Server, close_session, stop_sessions, stop, is_reading, pending, on_signal,
}
use boost_asio.Async.Server.Contexts.{RunsBelow, Inv, Reaches, Reaches-Inv}

unfoldable any_reading : List (ℕ × Connection) → Bool
any_reading [] = false
any_reading ((_, conn) ∷ objects) = is_reading conn || any_reading objects

-- Whether the table names the id of a session
unfoldable pub names : List (ℕ × ℕ) → ℕ → Bool
names [] i = false
names ((_, id) ∷ table) i = (i == id) || names table i

-- Whether a session that is not in the table reads from its socket
unfoldable pub any_stray : List (ℕ × ℕ) → List (ℕ × Connection) → Bool
any_stray table [] = false
any_stray table ((i, conn) ∷ objects) =
    (is_reading conn && not (names table i)) || any_stray table objects

pending-any_reading :
    (size : ℕ) (objects : List (ℕ × Connection))
    → All (RunsBelow size) objects
    → any_from (pending objects) 0 size ≡ any_reading objects
unfolding pending any_reading
pending-any_reading size [] below = any_from-false 0 size
pending-any_reading size ((i, conn) ∷ objects) below =
    any_from-or (λ j. (conn.io == j) && is_reading conn) (pending objects) 0 size
    ∙ rw
        (
          any_from-one conn.io 0 size (is_reading conn) (omega arith) (omega (arith, below.0)),
          pending-any_reading size objects below.1,
        )
        refl

any_stray-none : (objects : List (ℕ × Connection)) → any_stray [] objects ≡ any_reading objects
unfolding any_stray any_reading names
any_stray-none [] = refl
any_stray-none ((i, conn) ∷ objects) = ground (arith, any_stray-none objects)

open_and_not :
    (is_open closes : Bool) → (if closes then false else is_open) ≡ (is_open && not closes)
open_and_not is_open closes = ground arith

closed_reads :
    (conn : Connection) (closes : Bool)
    → is_reading (record conn { is_open = if closes then false else conn.is_open })
      ≡ (is_reading conn && not closes)
closed_reads conn closes =
    elim conn.co
      as (λ c.
        is_reading (record conn { co = c; is_open = if closes then false else conn.is_open })
        ≡ (is_reading (record conn { co = c }) && not closes)) [
          | reading_head ↦ open_and_not conn.is_open closes
          | reading_msg ↦ open_and_not conn.is_open closes
          | returned ↦ refl
        ]

or_not : (a b c : Bool) → ((a && not b) && not c) ≡ (a && not (b || c))
or_not a b c = ground arith

any_stray-close_session :
    (k id : ℕ) (table : List (ℕ × ℕ)) (objects : List (ℕ × Connection))
    → any_stray table (close_session id objects) ≡ any_stray ((k, id) ∷ table) objects
unfolding any_stray close_session names
any_stray-close_session k id table [] = refl
any_stray-close_session k id table ((i, conn) ∷ objects) =
    rw
      (
        closed_reads conn (i == id),
        or_not (is_reading conn) (i == id) (names table i),
        any_stray-close_session k id table objects,
      )
      refl

any_reading-stop_sessions :
    (table : List (ℕ × ℕ)) (objects : List (ℕ × Connection))
    → any_reading (stop_sessions table objects) ≡ any_stray table objects
unfolding stop_sessions
any_reading-stop_sessions [] objects = sym (any_stray-none objects)
any_reading-stop_sessions ((k, id) ∷ table) objects =
    any_reading-stop_sessions table (close_session id objects)
    ∙ any_stray-close_session k id table objects

close_session-below :
    (size id : ℕ) (objects : List (ℕ × Connection))
    → All (RunsBelow size) objects
    → All (RunsBelow size) (close_session id objects)
unfolding close_session
close_session-below size id [] below = tt
close_session-below size id ((i, conn) ∷ objects) below =
    (below.0, close_session-below size id objects below.1)

stop_sessions-below :
    (size : ℕ) (table : List (ℕ × ℕ)) (objects : List (ℕ × Connection))
    → All (RunsBelow size) objects
    → All (RunsBelow size) (stop_sessions table objects)
unfolding stop_sessions
stop_sessions-below size [] objects below = below
stop_sessions-below size ((k, id) ∷ table) objects below =
    stop_sessions-below size table (close_session id objects)
      (close_session-below size id objects below)

-- The server when the handler has returned
unfoldable pub ended : ℕ → Server → Server
ended size srv = record (stop srv) {
  pool = record srv.pool { works = map (λ w. false) srv.pool.works; joined = replicate size true };
  accepting = none;
}

join_pending :
    (size : ℕ) (srv : Server)
    → Inv size srv
    → join_threads (pending (stop srv).objects) 0 srv.pool.joined
      ≡ (if any_stray srv.world.sessions srv.objects then none else some (replicate size true))
unfolding stop
join_pending size srv v =
    ap (join_threads (pending (stop srv).objects) 0) v.running
    ∙ join_threads-replicate (pending (stop srv).objects) 0 size
    ∙ ap (λ b. if b then none else some (replicate size true))
        (pending-any_reading size (stop srv).objects
            (stop_sessions-below size srv.world.sessions srv.objects v.objects_below)
          ∙ any_reading-stop_sessions srv.world.sessions srv.objects)

-- In any state that connections and reads have brought the server to, the handler of a signal does not
-- return, as long as nothing comes from the peers, if a session that is not in the table reads from its
-- socket. If there is none, it returns: the table is empty, every work is gone, every thread has been
-- joined, and nothing is accepted any more.
pub on_signal-any_stray :
    (h : Host) (size : ℕ) (srv : Server)
    → Reaches h size srv
    → on_signal srv
      ≡ (if any_stray srv.world.sessions srv.objects then none else some (ended size srv))
unfolding on_signal stop_pool ended stop
on_signal-any_stray h size srv reached =
    rw (join_pending size srv (Reaches-Inv reached), on_signal)
      (elim (Bool-cases (any_stray srv.world.sessions srv.objects)) [
        | inl stray ↦ rw stray refl
        | inr none_left ↦ rw none_left refl
      ])
