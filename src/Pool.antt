-- ===== src/Pool.antt =====
-- src/05_ftp/IOServicePool.cpp and include/IOServicePool.h: the contexts on which the sessions
-- run, and what the destructor of a session (src/05_ftp/Session.cpp) does to one of them.
pub mod RoundRobin
pub mod Stopping
pub mod Threads
use boost_asio.Common.{
  ℕ, zero, suc, ◌+◌, ◌%◌, Bool, true, false, not, Option, none, some, ◌>>=◌, List, [], ◌∷◌, ltb,
  if◌then◌else◌, length, get_elem?, set,
}
use boost_asio.World.{World, remove_session}
use boost_asio.Session.{Session, clear_head, clear_msg}

pub record IoContext : Type 0 where
  pub stopped : Bool

-- A work guard that has been reset is `false`. A thread that has been joined is `true`.
pub record IoServicePool : Type 0 where
  pub io_services : List IoContext
  pub works : List Bool
  pub joined : List Bool
  pub next : ℕ

abbrev pub replicate {ℓ} : {A : Type ℓ} → ℕ → A → List A
replicate zero a = []
replicate (suc n) a = a ∷ replicate n a

-- The constructor; `next` is the static variable of `GetIOService`.
unfoldable pub new_pool : ℕ → IoServicePool
new_pool size = record {
  io_services = replicate size (record { stopped = false });
  works = replicate size true;
  joined = replicate size false;
  next = 0;
}

-- IOServicePool::GetIOService. A context outside the vector is a fault.
unfoldable pub get_io_service : IoServicePool → Option (ℕ × IoServicePool)
get_io_service p =
    let i = p.next in
    if ltb i (length p.io_services)
    then some (i, record p { next = (i + 1) % length p.io_services })
    else none

-- The loop over the works: each stops its context and is reset. A work that has been reset is a
-- null pointer.
unfoldable pub stop_contexts : List Bool → List IoContext → Option (List Bool × List IoContext)
stop_contexts [] cs = some ([], cs)
stop_contexts (w ∷ ws) [] = none
stop_contexts (w ∷ ws) (c ∷ cs) =
    let rest : Option (List Bool × List IoContext) = do
      (ws', cs') ← stop_contexts ws cs
      some (false ∷ ws', record { stopped = true } ∷ cs')
    in if w then rest else none

-- Each thread is in `run()` of its context, and can be joined when that has been stopped; `none`
-- stands for a `join` that waits for ever, too.
unfoldable pub join_threads : List Bool → List IoContext → Option (List Bool)
join_threads [] cs = some []
join_threads (t ∷ ts) [] = none
join_threads (t ∷ ts) (c ∷ cs) =
    let rest : Option (List Bool) = do ts' ← join_threads ts cs; some (true ∷ ts')
    in if t then rest else if c.stopped then rest else none

-- IOServicePool::Stop
unfoldable pub stop : IoServicePool → Option IoServicePool
unfolding stop_contexts join_threads
stop p = do
  (works, contexts) ← stop_contexts p.works p.io_services
  joined ← join_threads p.joined contexts
  some (record p { io_services = contexts; works = works; joined = joined })

-- io_context::stop
unfoldable pub stop_context : ℕ → IoServicePool → IoServicePool
stop_context i p = record p { io_services = set p.io_services i (record { stopped = true }) }

-- Session::~Session, for a session on the context `ioc`. The object is gone afterwards; what is
-- left are the pool and the world.
unfoldable pub destroy_session : ℕ → Session → IoServicePool → World → IoServicePool × World
unfolding stop_context clear_msg
destroy_session ioc s p w = (stop_context ioc p, remove_session s.id (clear_msg s w))
