-- ===== src/Server/Race.antt =====
-- `HandlerAccept` of src/05_ftp/Server.cpp against a session that ends at once.
use boost_asio.Common.{
  ℕ, ◌<◌, ◌≡◌, refl, ap, Bool, true, false, ◌||◌, none, some, length, get_elem?, get_elem?-set_self,
}
use boost_asio.Map.{find, assign, nat_eq, find-assign_self, find-erase_self, beq_self}
use boost_asio.Wire.Host.{Host}
use boost_asio.World.{remove_session}
use boost_asio.Session.{new_session, clear_head}
use boost_asio.Reader.{on_exception, start}
use boost_asio.Pool.{IoServicePool, get_io_service, stop_context, destroy_session}
use boost_asio.Server.{
  Held, Server, start_accept, destroy, start_session, insert_session, connected, accept_starts,
  accept_saves, session_ends, is_starting,
}
use boost_asio.Server.Steps.{get_io_service-size}

module _ (h : Host) (next io : ℕ) (srv : Server) (x : Held) (pool : IoServicePool)
    (waits : srv.accepting ≡ some x) (got : get_io_service srv.pool ≡ some (io, pool)) where
  abbrev started : Server
  started = record (start_session x srv) { starting = true }

  abbrev begun : Held
  begun = record x { session = (start (connected x.session) srv.world).session; running = true }

  abbrev with_next : Server → Server
  with_next s = record s {
    pool = pool;
    accepting = some (record { session = new_session h next; io = io; running = false });
    starting = false;
  }

  starts : srv.starting ≡ false → accept_starts srv ≡ some started
  unfolding accept_starts
  starts idle = rw (waits, idle) refl

  saves :
      (s : Server)
      → s.accepting ≡ some x
      → s.starting ≡ true
      → s.pool ≡ srv.pool
      → accept_saves h next s ≡ some (with_next (insert_session x.session.id s))
  unfolding accept_saves start_accept insert_session
  saves s at_hand busy same = rw (at_hand, busy, same, got) refl

  -- The coroutine has ended, before the session has been saved.
  abbrev ended_early : Server
  ended_early =
      let r = on_exception begun.session started.world in
      record started {
        world = r.world;
        objects =
            assign x.session.id (record begun { session = r.session; running = false })
              started.objects;
      }

  -- The coroutine has ended after that.
  abbrev ended_late : Server
  ended_late =
      let saved = with_next (insert_session x.session.id started) in
      let r = on_exception begun.session saved.world in
      destroy (record begun { session = r.session; running = false })
        (record saved {
          world = r.world;
          objects =
              assign x.session.id (record begun { session = r.session; running = false })
                saved.objects;
        })

  or_true : (b : Bool) → (b || true) ≡ true
  or_true true = refl
  or_true false = refl

  ends_early : (queued : Bool) → session_ends x.session.id queued started ≡ some ended_early
  unfolding session_ends is_starting start_session
  ends_early queued =
      rw
        (
          find-assign_self x.session.id begun srv.objects,
          waits,
          beq_self x.session.id,
          or_true queued,
        )
        refl

  ends_late :
      session_ends x.session.id false (with_next (insert_session x.session.id started))
      ≡ some ended_late
  unfolding session_ends is_starting start_session insert_session
  ends_late = rw (find-assign_self x.session.id begun srv.objects) refl

  early_over :
      (queued : Bool)
      → (early : Server) × (session_ends x.session.id queued started ≡ some early)
        × ((late : Server) × (accept_saves h next early ≡ some late)
            × (find x.session.id late.world.sessions ≡ some x.session.id)
            × ((y : Held) × (find x.session.id late.objects ≡ some y) × (y.running ≡ false)))
  unfolding start_session insert_session
  early_over queued = (
    ended_early,
    ends_early queued,
    (
      with_next (insert_session x.session.id ended_early),
      saves ended_early waits refl refl,
      find-assign_self x.session.id x.session.id ended_early.world.sessions,
      (
        record begun {
          session = (on_exception begun.session started.world).session;
          running = false;
        },
        find-assign_self x.session.id _ started.objects,
        refl,
      ),
    ),
  )

  late_gone :
      x.io < length srv.pool.io_services
      → (saved : Server) × (accept_saves h next started ≡ some saved)
        × ((gone : Server) × (session_ends x.session.id false saved ≡ some gone)
            × (find x.session.id gone.world.sessions ≡ none)
            × (find x.session.id gone.objects ≡ none)
            × (get_elem? gone.pool.io_services x.io ≡ some (record { stopped = true })))
  unfolding start_session insert_session destroy destroy_session stop_context remove_session
      on_exception clear_head
  late_gone inside = (
    with_next (insert_session x.session.id started),
    saves started waits refl refl,
    (
      ended_late,
      ends_late,
      find-erase_self x.session.id _,
      find-erase_self x.session.id _,
      get_elem?-set_self pool.io_services x.io _
          (rw (ap length (get_io_service-size srv.pool io pool got).0) inside),
    ),
  )

-- A session waits for a connection, its context is one of the pool, and the pool has a next context; a
-- connection comes, and HandlerAccept starts the session. If the coroutine of the session ends on its own
-- thread before HandlerAccept saves the session, then HandlerAccept puts the session into the table
-- afterwards, whether or not a message holds it: the table has an entry for it, and the object stays, although its coroutine is over. If the
-- coroutine ends after that, and no message or write holds the session, then the table has no entry for
-- it, the object is destroyed, and its context is stopped.
pub session_ends-accept_saves :
    (h : Host) (next io : ℕ) (srv : Server) (x : Held) (pool : IoServicePool) (queued : Bool)
    → srv.accepting ≡ some x
    → srv.starting ≡ false
    → get_io_service srv.pool ≡ some (io, pool)
    → x.io < length srv.pool.io_services
    → (begun : Server) × (accept_starts srv ≡ some begun)
      × ((early : Server) × (session_ends x.session.id queued begun ≡ some early)
          × ((late : Server) × (accept_saves h next early ≡ some late)
              × (find x.session.id late.world.sessions ≡ some x.session.id)
              × ((y : Held) × (find x.session.id late.objects ≡ some y) × (y.running ≡ false))))
      × ((saved : Server) × (accept_saves h next begun ≡ some saved)
          × ((gone : Server) × (session_ends x.session.id false saved ≡ some gone)
              × (find x.session.id gone.world.sessions ≡ none)
              × (find x.session.id gone.objects ≡ none)
              × (get_elem? gone.pool.io_services x.io ≡ some (record { stopped = true }))))
session_ends-accept_saves h next io srv x pool queued waits idle got inside = (
  started h next io srv x pool waits got,
  starts h next io srv x pool waits got idle,
  early_over h next io srv x pool waits got queued,
  late_gone h next io srv x pool waits got inside,
)
