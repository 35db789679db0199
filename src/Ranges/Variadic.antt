-- ===== src/Ranges/Variadic.antt =====
-- `max` and `min` of two and more arguments, of include/lyf.h.
use boost_asio.Common.{
  ◌≡◌, refl, ap, Bool, true, false, inl, inr, List, [], ◌∷◌, ◌++◌, if◌then◌else◌, All, Bool-cases,
}
use boost_asio.Ranges.{IsWeakOrder, flip, flip-IsWeakOrder, below}

-- Of two; `greater` is the operator of the type.
unfoldable pub max_two {ℓ} : {A : Type ℓ} → (A → A → Bool) → A → A → A
max_two greater a b = if greater a b then a else b

-- Of two and more
unfoldable pub max {ℓ} : {A : Type ℓ} → (A → A → Bool) → A → A → List A → A
unfolding max_two
max greater a b [] = max_two greater a b
max greater a b (c ∷ args) = max_two greater a (max greater b c args)

unfoldable pub min_two {ℓ} : {A : Type ℓ} → (A → A → Bool) → A → A → A
min_two less a b = if less a b then a else b

unfoldable pub min {ℓ} : {A : Type ℓ} → (A → A → Bool) → A → A → List A → A
unfolding min_two
min less a b [] = min_two less a b
min less a b (c ∷ args) = min_two less a (min less b c args)

-- The last of the greatest elements: none before it is greater, and those after it are less.
abbrev pub IsLast {ℓ} : {A : Type ℓ} → (A → A → Bool) → List A → A → Type ℓ
IsLast {A = A} less xs m =
    (before after : List A) × (xs ≡ before ++ m ∷ after)
    × All (λ x. less m x ≡ false) before
    × All (λ x. less x m ≡ true) after

module _ {ℓ} {A : Type ℓ} (less : A → A → Bool) (law : IsWeakOrder less) where
  rest_less :
      (before after : List A) (m a : A)
      → less m a ≡ true
      → All (λ x. less m x ≡ false) before
      → All (λ x. less x m ≡ true) after
      → All (λ x. less x a ≡ true) (before ++ m ∷ after)
  rest_less [] [] m a h v w = (h, tt)
  rest_less [] (x ∷ after) m a h v w =
      let (first, rest) = rest_less [] after m a h tt w.1 in
      (h, (below less law x m a (law.asym x m w.0) h, rest))
  rest_less (x ∷ before) after m a h v w =
      (below less law x m a v.0 h, rest_less before after m a h v.1 w)

  step-IsLast :
      (xs : List A) (a m : A) → IsLast less xs m → IsLast less (a ∷ xs) (if less m a then a else m)
  step-IsLast xs a m (before, after, split, v, w) = elim (Bool-cases (less m a)) [
    | inl greater ↦
        rw (greater, split)
          ([], before ++ m ∷ after, refl, tt, rest_less before after m a greater v w)
    | inr kept ↦ rw kept (a ∷ before, after, ap (λ l. a ∷ l) split, (kept, v), w)
  ]

  pub max-IsLast : (a b : A) (args : List A) → IsLast less (a ∷ b ∷ args) (max (flip less) a b args)
  unfolding max max_two
  max-IsLast a b [] = step-IsLast (b ∷ []) a b ([], [], refl, tt, tt)
  max-IsLast a b (c ∷ args) =
      step-IsLast (b ∷ c ∷ args) a (max (flip less) b c args) (max-IsLast b c args)

min-max {ℓ} :
    {A : Type ℓ} (less : A → A → Bool) (a b : A) (args : List A)
    → min less a b args ≡ max less a b args
unfolding min max min_two max_two
min-max less a b [] = refl
min-max less a b (c ∷ args) = rw (min-max less b c args) refl

-- Where `less` is a strict weak order and `greater` is it the other way round, max of two and more arguments
-- is the last of the greatest, and min the last of the least.
pub max-min {ℓ} :
    {A : Type ℓ} (less : A → A → Bool)
    → IsWeakOrder less
    → (a b : A) (args : List A)
    → IsLast less (a ∷ b ∷ args) (max (flip less) a b args)
      × IsLast (flip less) (a ∷ b ∷ args) (min less a b args)
max-min less law a b args = (
  max-IsLast less law a b args,
  rw (min-max less a b args) (max-IsLast (flip less) (flip-IsWeakOrder less law) a b args),
)
