-- ===== src/Pool/Stopping.antt =====
-- `IOServicePool::Stop` of src/05_ftp/IOServicePool.cpp.
use boost_asio.Common.{
  not_zero, ◌==◌, if◌then◌else◌, ℕ, zero, suc, ◌≡◌, refl, true, false, none, some,
}
use boost_asio.Pool.{IoServicePool, replicate, new_pool, stop_contexts, join_threads, stop}

pub stop_contexts-replicate :
    (n : ℕ)
    → stop_contexts (replicate n true) (replicate n (record { stopped = false }))
      ≡ some (replicate n false, replicate n (record { stopped = true }))
unfolding stop_contexts
stop_contexts-replicate zero = refl
stop_contexts-replicate (suc n) = rw (stop_contexts-replicate n) refl

pub join_threads-replicate :
    (n : ℕ)
    → join_threads (replicate n false) (replicate n (record { stopped = true }))
      ≡ some (replicate n true)
unfolding join_threads
join_threads-replicate zero = refl
join_threads-replicate (suc n) = rw (join_threads-replicate n) refl

abbrev stopped : ℕ → IoServicePool
stopped size = record {
  io_services = replicate size (record { stopped = true });
  works = replicate size false;
  joined = replicate size true;
  next = 0;
}

stop_again : (size : ℕ) → stop (stopped size) ≡ (if size == 0 then some (stopped size) else none)
unfolding stop stop_contexts join_threads
stop_again zero = refl
stop_again (suc n) = rw (not_zero n) refl

-- Stop on a new pool stops every context, resets every work and joins every thread, and a second
-- Stop goes through a null pointer if the pool is not empty.
pub stop-new_pool :
    (size : ℕ)
    → (q : IoServicePool) × (stop (new_pool size) ≡ some q)
      × (q.io_services ≡ replicate size (record { stopped = true }))
      × (q.works ≡ replicate size false)
      × (q.joined ≡ replicate size true)
      × (stop q ≡ (if size == 0 then some q else none))
unfolding stop new_pool
stop-new_pool size = (
  stopped size,
  (rw (stop_contexts-replicate size) rw (join_threads-replicate size) refl),
  refl,
  refl,
  refl,
  stop_again size,
)
