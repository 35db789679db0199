-- ===== src/Pool/RoundRobin.antt =====
-- The order in which src/05_ftp/IOServicePool.cpp hands out its contexts, and what follows for the
-- sessions that share one.
use native.Mathlib.Nat.{mod-eq_of_lt, mod-add-mod, add-mod_right}
use boost_asio.Common.{
  ℕ, zero, suc, ◌+◌, ◌%◌, ◌<◌, ◌≡◌, refl, sym, ap, ◌∙◌, true, false, Option, some, ◌>>=◌, List, [],
  ◌∷◌, lt→ltb, length, get_elem?, get_elem?-set_self, arith,
}
use boost_asio.World.{World}
use boost_asio.Session.{Session}
use boost_asio.Pool.{
  IoServicePool, replicate, new_pool, get_io_service, stop_context, destroy_session,
}

-- The contexts of the first calls of `GetIOService`, in their order, and the pool after them.
unfoldable pub take_services : ℕ → IoServicePool → Option (List ℕ × IoServicePool)
take_services zero p = some ([], p)
take_services (suc n) p = do
  (i, p') ← get_io_service p
  (is, q) ← take_services n p'
  some (i ∷ is, q)

-- k, k + 1, … modulo the size
abbrev pub cycle : ℕ → ℕ → ℕ → List ℕ
cycle size zero k = []
cycle size (suc n) k = k % size ∷ cycle size n (k + 1)

pub length-replicate {ℓ} : {A : Type ℓ} (n : ℕ) (a : A) → length (replicate n a) ≡ n
length-replicate zero a = refl
length-replicate (suc n) a = ap suc (length-replicate n a)

mod_below : (k n : ℕ) → 0 < n → k % n < n
mod_below k n h = grind arith

next_mod : (k n : ℕ) → 0 < n → (k % n + 1) % n ≡ (k + 1) % n
next_mod k n h = mod-add-mod k n 1

take_services-cycle :
    (n k : ℕ) (p : IoServicePool)
    → 0 < length p.io_services
    → p.next ≡ k % length p.io_services
    → take_services n p
      ≡ some (cycle (length p.io_services) n k, record p { next = (k + n) % length p.io_services })
unfolding take_services get_io_service
take_services-cycle zero k p some_context at = rw (right_zero k) rw (sym at) refl
  where
    right_zero : (k : ℕ) → k + 0 ≡ k
    right_zero k = omega arith
take_services-cycle (suc n) k p some_context at =
    rw
      (
        at,
        lt→ltb (k % length p.io_services) (length p.io_services)
            (mod_below k (length p.io_services) some_context),
      )
      rw (next_mod k (length p.io_services) some_context) rw
      (take_services-cycle n (k + 1) (record p { next = (k + 1) % length p.io_services })
        some_context refl)
      rw (shift) refl
  where
    shift : k + 1 + n ≡ k + suc n
    shift = omega arith

take_services_from :
    (size n k m : ℕ) (p : IoServicePool)
    → k + n ≡ m
    → length p.io_services ≡ size
    → 0 < size
    → p.next ≡ k % size
    → take_services n p ≡ some (cycle size n k, record p { next = m % size })
take_services_from size n k m p sum len h at =
    rw (sym len, sym sum) (take_services-cycle n k p (omega arith) (at ∙ ap (λ l. k % l) (sym len)))

-- The first calls of GetIOService on a new pool of at least one context hand out the contexts
-- 0, 1, 2, … in turn, starting again from 0 after the last one.
pub take_services-new_pool :
    (size n : ℕ)
    → 0 < size
    → take_services n (new_pool size)
      ≡ some (cycle size n 0, record (new_pool size) { next = n % size })
unfolding new_pool
take_services-new_pool size n h =
    take_services_from size n 0 n (new_pool size) (omega arith) (length-replicate size _) h
      (sym (mod-eq_of_lt (omega arith)))

get_io_service_at :
    (size k : ℕ) (p : IoServicePool)
    → length p.io_services ≡ size
    → 0 < size
    → p.next ≡ k % size
    → get_io_service p ≡ some (k % size, record p { next = (k + 1) % size })
unfolding get_io_service
get_io_service_at size k p len h at =
    rw (len, at, lt→ltb (k % size) size (mod_below k size h), next_mod k size h) refl

get_elem?-replicate {ℓ} :
    {A : Type ℓ} (n i : ℕ) (a : A) → i < n → get_elem? (replicate n a) i ≡ some a
get_elem?-replicate zero i a h = absurd (omega arith)
get_elem?-replicate (suc n) zero a h = refl
get_elem?-replicate (suc n) (suc i) a h = get_elem?-replicate n i a (omega arith)

-- After any number n of calls on a new pool of m + 1 contexts, GetIOService gives a session its context; m
-- sessions later it gives another session the same one, which runs; and the destruction of the first
-- session stops the context that the other one has been given.
pub destroy_session-shared :
    (s : Session) (w : World) (m n : ℕ)
    → (p : IoServicePool) × (before : List ℕ) × (take_services n (new_pool (suc m))
        ≡ some (before, p))
      × ((i : ℕ) × (p1 : IoServicePool) × (get_io_service p ≡ some (i, p1))
          × ((p2 : IoServicePool) × (between : List ℕ) × (take_services m p1 ≡ some (between, p2))
              × ((j : ℕ) × (p3 : IoServicePool) × (get_io_service p2 ≡ some (j, p3))
                  × (get_elem? p3.io_services j ≡ some (record { stopped = false }))
                  × (get_elem? (destroy_session i s p3 w).0.io_services j
                      ≡ some (record { stopped = true })))))
unfolding destroy_session stop_context new_pool
destroy_session-shared s w m n =
    let size = suc m in
    let len : length (new_pool size).io_services ≡ size =
      length-replicate size (record { stopped = false }) in
    let at : ℕ → IoServicePool = λ k. record (new_pool size) { next = k % size } in
    let inside = mod_below n size (omega arith) in
    let again : (n + 1 + m) % size ≡ n % size =
      ap (λ k. k % size) (shift n m) ∙ add-mod_right n size in
    (
      at n,
      cycle size n 0,
      take_services-new_pool size n (omega arith),
      (
        n % size,
        at (n + 1),
        get_io_service_at size n (at n) len (omega arith) refl,
        (
          at (n + 1 + m),
          cycle size m (n + 1),
          take_services_from size m (n + 1) (n + 1 + m) (at (n + 1)) refl len (omega arith) refl,
          (
            (n + 1 + m) % size,
            at (n + 1 + m + 1),
            get_io_service_at size (n + 1 + m) (at (n + 1 + m)) len (omega arith) refl,
            rw (again) (get_elem?-replicate size (n % size) _ inside),
            rw (again)
                (get_elem?-set_self (new_pool size).io_services (n % size) _ (rw (len) inside)),
          ),
        ),
      ),
    )
  where
    shift : (n m : ℕ) → n + 1 + m ≡ n + suc m
    shift n m = omega arith
