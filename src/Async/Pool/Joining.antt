-- ===== src/Async/Pool/Joining.antt =====
-- The loop of `IOServicePool::Stop` of src/02_async/IOServicePool.cpp that joins the threads.
use boost_asio.Common.{
  ℕ, zero, suc, ◌+◌, ◌≤◌, ◌<◌, ◌≡◌, refl, ap, ◌∙◌, Bool, true, false, ◌&&◌, ◌||◌, none, some, inl,
  inr, arith, if◌then◌else◌, ◌==◌, Bool-cases, ==_iff,
}
use boost_asio.Pool.{replicate}
use boost_asio.Async.Pool.{join_threads}

-- Whether one of `n` places, from `i` on, is pending
unfoldable pub any_from : (ℕ → Bool) → ℕ → ℕ → Bool
any_from f i zero = false
any_from f i (suc n) = f i || any_from f (suc i) n

pub join_threads-replicate :
    (f : ℕ → Bool) (i n : ℕ)
    → join_threads f i (replicate n false)
      ≡ (if any_from f i n then none else some (replicate n true))
unfolding join_threads any_from
join_threads-replicate f i zero = refl
join_threads-replicate f i (suc n) = elim (Bool-cases (f i)) [
  | inl here ↦ rw here refl
  | inr free ↦
      rw (join_threads-replicate f (suc i) n, free)
        (elim (Bool-cases (any_from f (suc i) n)) [
          | inl later ↦ rw later refl
          | inr none_later ↦ rw none_later refl
        ])
]

pub any_from-false : (i n : ℕ) → any_from (λ _. false) i n ≡ false
unfolding any_from
any_from-false i zero = refl
any_from-false i (suc n) = any_from-false (suc i) n

or_swap : (a b c d : Bool) → ((a || b) || (c || d)) ≡ ((a || c) || (b || d))
or_swap a b c d = ground arith

pub any_from-or :
    (f g : ℕ → Bool) (i n : ℕ) → any_from (λ j. f j || g j) i n ≡ (any_from f i n || any_from g i n)
unfolding any_from
any_from-or f g i zero = refl
any_from-or f g i (suc n) =
    ap (λ b. (f i || g i) || b) (any_from-or f g (suc i) n)
    ∙ or_swap (f i) (g i) (any_from f (suc i) n) (any_from g (suc i) n)

past : (k i n : ℕ) (b : Bool) → k < i → any_from (λ j. (k == j) && b) i n ≡ false
unfolding any_from
past k i zero b lt = refl
past k i (suc n) b lt = ground (arith, past k (suc i) n b (omega arith))

beyond : (k i : ℕ) → i ≤ k → (k == i) ≡ false → suc i ≤ k
beyond k i above there = ground arith

-- One place that is pending, if `b`
pub any_from-one :
    (k i n : ℕ) (b : Bool) → i ≤ k → k < i + n → any_from (λ j. (k == j) && b) i n ≡ b
unfolding any_from
any_from-one k i zero b above below = absurd (omega arith)
any_from-one k i (suc n) b above below = elim (Bool-cases (k == i)) [
  | inl here ↦ ground (arith, past k (suc i) n b (omega (arith, (==_iff k i).0 here)))
  | inr there ↦ ground (arith, any_from-one k (suc i) n b (beyond k i above there) (omega arith))
]
