-- ===== src/Server/Steps.antt =====
-- The states of the server of src/05_ftp/Server.cpp, and its pool in them.
use boost_asio.Common.{
  some-injective, ℕ, ◌≡◌, refl, sym, ap, ◌∙◌, Bool, true, false, not, ◌||◌, Option, none, some,
  List, if◌then◌else◌, length, length-set, bind-eq-some, arith,
}
use boost_asio.Map.{find, assign, nat_eq}
use boost_asio.Wire.Host.{Host}
use boost_asio.World.{World}
use boost_asio.Reader.{on_exception}
use boost_asio.Pool.{
  IoServicePool, replicate, new_pool, get_io_service, stop_context, destroy_session,
}
use boost_asio.Pool.RoundRobin.{length-replicate}
use boost_asio.Server.{
  Held, Server, start_accept, listening, new_server, destroy, start_session, insert_session,
  accept_fails, accept_starts, accept_saves, session_ends, is_starting, in_table, session_released,
}

pub data Step (h : Host) : Server → Server → Type 0 where
  fails : {srv srv' : Server} (next : ℕ) → accept_fails h next srv ≡ some srv' → Step h srv srv'
  starts : {srv srv' : Server} → accept_starts srv ≡ some srv' → Step h srv srv'
  saves : {srv srv' : Server} (next : ℕ) → accept_saves h next srv ≡ some srv' → Step h srv srv'
  ends :
      {srv srv' : Server} (id : ℕ) (queued : Bool)
      → session_ends id queued srv ≡ some srv'
      → Step h srv srv'
  releases : {srv srv' : Server} (id : ℕ) → session_released id srv ≡ some srv' → Step h srv srv'
  -- The sessions read, write and post, and a failed write takes its session off the table: they may change
  -- what they share and themselves in any way.
  shares :
      {srv : Server} (w : World) (objects : List (ℕ × Held))
      → Step h srv (record srv { world = w; objects = objects })

-- What the acceptor, the sessions and the worker do to a server, in any order
pub data Reaches (h : Host) (srv : Server) : Server → Type 0 where
  here : Reaches h srv srv
  next : {s t : Server} → Reaches h srv s → Step h s t → Reaches h srv t

-- A pool that has not been stopped as a whole; some of its contexts may have been.
pub record IsWorking (size : ℕ) (p : IoServicePool) : Type 0 where
  pub same_size : length p.io_services ≡ size
  pub works_left : p.works ≡ replicate size true
  pub none_joined : p.joined ≡ replicate size false

unless :
    {A : Type 0} (b : Bool) (o : Option A) {a : A} → (if b then none else o) ≡ some a → o ≡ some a
unless true o e = absurd (cc)
unless false o e = e

whenever :
    {A : Type 0} (b : Bool) (o : Option A) {a : A} → (if b then o else none) ≡ some a → o ≡ some a
whenever true o e = e
whenever false o e = absurd (cc)

pub get_io_service-size :
    (p : IoServicePool) (io : ℕ) (q : IoServicePool)
    → get_io_service p ≡ some (io, q)
    → (q.io_services ≡ p.io_services) × (q.works ≡ p.works) × (q.joined ≡ p.joined)
unfolding get_io_service
get_io_service-size p io q e = ground arith

module _ (size : ℕ) where
  destroy-IsWorking :
      (x : Held) (srv : Server) → IsWorking size srv.pool → IsWorking size (destroy x srv).pool
  unfolding destroy destroy_session stop_context
  destroy-IsWorking x srv v = record {
    same_size = length-set srv.pool.io_services x.io _ ∙ v.same_size;
    works_left = v.works_left;
    none_joined = v.none_joined;
  }

  destroys :
      (stays : Bool) (x : Held) (srv : Server)
      → IsWorking size srv.pool
      → IsWorking size (if stays then srv else destroy x srv).pool
  destroys true x srv v = v
  destroys false x srv v = destroy-IsWorking x srv v

  start_accept-IsWorking :
      (h : Host) (id : ℕ) (srv srv' : Server)
      → IsWorking size srv.pool
      → start_accept h id srv ≡ some srv'
      → IsWorking size srv'.pool
  unfolding start_accept
  start_accept-IsWorking h id srv srv' v ran =
      let ((io, pool), got, done) = bind-eq-some (get_io_service srv.pool) _ ran in
      let (contexts, works, joined) = get_io_service-size srv.pool io pool got in
      rw (sym (some-injective done)) (record {
        same_size = ap length contexts ∙ v.same_size;
        works_left = works ∙ v.works_left;
        none_joined = joined ∙ v.none_joined;
      })

  Step-IsWorking :
      (h : Host) (srv srv' : Server)
      → IsWorking size srv.pool
      → Step h srv srv'
      → IsWorking size srv'.pool
  unfolding accept_fails accept_starts accept_saves session_ends session_released start_session
      insert_session
  Step-IsWorking h srv srv' v (fails id ran) =
      let (x, there, rest) = bind-eq-some srv.accepting _ ran in
      let (t, started, done) =
        bind-eq-some (if srv.starting then none else start_accept h id srv) _ rest in
      rw (sym (some-injective done)) (
        destroy-IsWorking x t (
          start_accept-IsWorking h id srv t v
            (unless srv.starting (start_accept h id srv) started)))
  Step-IsWorking h srv srv' v (starts ran) =
      let (x, there, rest) = bind-eq-some srv.accepting _ ran in
      rw (sym (some-injective (unless srv.starting _ rest))) v
  Step-IsWorking h srv srv' v (saves id ran) =
      let (x, there, rest) = bind-eq-some srv.accepting _ ran in
      start_accept-IsWorking h id (insert_session x.session.id srv) srv' v
        (whenever srv.starting _ rest)
  Step-IsWorking h srv srv' v (ends id queued ran) =
      let (x, there, rest) = bind-eq-some (find id srv.objects) _ ran in
      let r = on_exception x.session srv.world in
      let x' : Held = record x { session = r.session; running = false } in
      let t : Server = record srv { world = r.world; objects = assign id x' srv.objects } in
      rw (sym (some-injective (unless (not x.running) _ rest)))
        (destroys (queued || is_starting id srv) x' t v)
  Step-IsWorking h srv srv' v (releases id ran) =
      let (x, there, rest) = bind-eq-some (find id srv.objects) _ ran in
      rw (sym (some-injective rest))
        (destroys (x.running || (in_table id srv || is_starting id srv)) x srv v)
  Step-IsWorking h srv srv' v (shares w objects) = v

  pub Reaches-IsWorking :
      {h : Host} {first srv : Server}
      → IsWorking size first.pool
      → Reaches h first srv
      → IsWorking size srv.pool
  Reaches-IsWorking v here = v
  Reaches-IsWorking v (next r st) = Step-IsWorking _ _ _ (Reaches-IsWorking v r) st

  pub new_server-IsWorking :
      (h : Host) (id : ℕ) (first : Server)
      → new_server h size id ≡ some first
      → IsWorking size first.pool
  unfolding new_server listening new_pool
  new_server-IsWorking h id first made =
      start_accept-IsWorking h id (listening size) first
        (record {
          same_size = length-replicate size (record { stopped = false });
          works_left = refl;
          none_joined = refl;
        })
        made
