-- ===== src/Pool/Threads.antt =====
-- src/05_ftp/IOThreadPool.cpp and include/IOThreadPool.h, and the same files of src/02_async: one context
-- that several threads run.
use boost_asio.Common.{
  ℕ, ◌≡◌, refl, ap, Bool, true, false, Option, none, some, ◌>>=◌, List, [], ◌∷◌, if◌then◌else◌, map,
}
use boost_asio.Pool.{IoContext, replicate}

-- A thread that has been joined is `true`.
pub record IoThreadPool : Type 0 where
  pub ioc : IoContext
  pub has_work : Bool
  pub joined : List Bool

-- The constructor
unfoldable pub new_thread_pool : ℕ → IoThreadPool
new_thread_pool size = record {
  ioc = record { stopped = false };
  has_work = true;
  joined = replicate size false;
}

unfoldable pub get_io_service : IoThreadPool → IoContext
get_io_service p = p.ioc

-- The loop over the threads. Each is in `run()` of the context; `none` is a `join` that waits for ever.
unfoldable pub join_threads : IoContext → List Bool → Option (List Bool)
join_threads ioc [] = some []
join_threads ioc (t ∷ ts) =
    let rest : Option (List Bool) = (do ts' ← join_threads ioc ts; some (true ∷ ts')) in
    if t then rest else if ioc.stopped then rest else none

-- IOThreadPool::Stop
unfoldable pub stop : IoThreadPool → Option IoThreadPool
unfolding join_threads
stop p = do
  let ioc : IoContext = record { stopped = true }
  joined ← join_threads ioc p.joined
  some (record { ioc = ioc; has_work = false; joined = joined })

join_threads-stopped :
    (ts : List Bool) → join_threads (record { stopped = true }) ts ≡ some (map (λ _. true) ts)
unfolding join_threads
join_threads-stopped [] = refl
join_threads-stopped (true ∷ ts) = rw (join_threads-stopped ts) refl
join_threads-stopped (false ∷ ts) = rw (join_threads-stopped ts) refl

map_again : (ts : List Bool) → map (λ _. true) (map (λ _. true) ts) ≡ map (λ _. true) ts
map_again [] = refl
map_again (t ∷ ts) = ap (λ l. true ∷ l) (map_again ts)

-- Stop returns on every pool, whether it has been stopped or not: the context is stopped, the work is gone
-- and every thread is joined. Another Stop leaves the pool as it is.
pub stop-stop :
    (p : IoThreadPool)
    → (q : IoThreadPool) × (stop p ≡ some q)
      × (q.ioc.stopped ≡ true)
      × (q.has_work ≡ false)
      × (q.joined ≡ map (λ _. true) p.joined)
      × (stop q ≡ some q)
unfolding stop
stop-stop p = (
  record { ioc = record { stopped = true }; has_work = false; joined = map (λ _. true) p.joined },
  (rw (join_threads-stopped p.joined) refl),
  refl,
  refl,
  refl,
  (rw (join_threads-stopped (map (λ _. true) p.joined), map_again p.joined) refl),
)
