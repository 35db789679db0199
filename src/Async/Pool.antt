-- ===== src/Async/Pool.antt =====
-- src/02_async/IOServicePool.h and IOServicePool.cpp: contexts in turn, and a Stop that takes their work
-- away and waits for their threads.
pub mod Joining
use boost_asio.Common.{
  ℕ, zero, suc, ◌+◌, ◌%◌, Bool, true, false, Option, none, some, ◌>>=◌, List, [], ◌∷◌,
  if◌then◌else◌, map, ltb,
}
use boost_asio.Pool.{replicate}

-- A work guard that has been reset is `false`. A thread that has been joined is `true`.
pub record IoServicePool : Type 0 where
  pub size : ℕ
  pub works : List Bool
  pub joined : List Bool
  pub next : ℕ

unfoldable pub new_pool : ℕ → IoServicePool
new_pool size = record {
  size = size;
  works = replicate size true;
  joined = replicate size false;
  next = 0;
}

-- A context outside the vector is a fault.
unfoldable pub get_io_service : IoServicePool → Option (ℕ × IoServicePool)
get_io_service p =
    if ltb p.next p.size then some (p.next, record p { next = (p.next + 1) % p.size }) else none

-- The loop over the threads from the place `i` on. A thread is in `run()` of its context, which returns
-- when the work guard is gone and nothing is pending there; `none` is a `join` that waits for ever.
unfoldable pub join_threads : (ℕ → Bool) → ℕ → List Bool → Option (List Bool)
join_threads pending i [] = some []
join_threads pending i (t ∷ ts) =
    let rest : Option (List Bool) = (do ts' ← join_threads pending (suc i) ts; some (true ∷ ts')) in
    if t then rest else if pending i then none else rest

-- IOServicePool::Stop, where `pending` says which contexts have an operation that does not complete
unfoldable pub stop : (ℕ → Bool) → IoServicePool → Option IoServicePool
unfolding join_threads
stop pending p = do
  let works = map (λ w. false) p.works
  joined ← join_threads pending 0 p.joined
  some (record p { works = works; joined = joined })
