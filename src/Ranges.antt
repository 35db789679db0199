-- ===== src/Ranges.antt =====
-- `range_compare`, `range_max` and `range_min` of include/lyf.h. A range is the list of its elements, and
-- an exception is `none`.
pub mod Variadic
use mathlib.Core.List.{append_assoc, append-nil}
use boost_asio.Common.{
  All-append, ◌≡◌, refl, sym, ap, ◌∙◌, Bool, true, false, inl, inr, Option, none, some, List, [],
  ◌∷◌, ◌++◌, if◌then◌else◌, All, Bool-cases,
}

-- The loop over the elements after the first
unfoldable pub compare_loop {ℓ} : {A : Type ℓ} → (A → A → Bool) → A → List A → A
compare_loop comp max_value [] = max_value
compare_loop comp max_value (x ∷ xs) =
    compare_loop comp (if comp max_value x then x else max_value) xs

unfoldable pub range_compare {ℓ} : {A : Type ℓ} → (A → A → Bool) → List A → Option A
unfolding compare_loop
range_compare comp [] = none
range_compare comp (x ∷ xs) = some (compare_loop comp x xs)

-- With `std::less` of the type
unfoldable pub range_max {ℓ} : {A : Type ℓ} → (A → A → Bool) → List A → Option A
unfolding range_compare
range_max less xs = range_compare less xs

-- `std::greater` of the type is `less` the other way round.
unfoldable pub range_min {ℓ} : {A : Type ℓ} → (A → A → Bool) → List A → Option A
unfolding range_compare
range_min less xs = range_compare (λ a b. less b a) xs

-- What the standard library asks of a comparison
pub record IsWeakOrder {ℓ} {A : Type ℓ} (comp : A → A → Bool) : Type ℓ where
  pub asym : (a b : A) → comp a b ≡ true → comp b a ≡ false
  pub cotrans : (a b c : A) → comp a b ≡ false → comp b c ≡ false → comp a c ≡ false

abbrev pub flip {ℓ} : {A : Type ℓ} → (A → A → Bool) → A → A → Bool
flip comp a b = comp b a

pub flip-IsWeakOrder {ℓ} :
    {A : Type ℓ} (comp : A → A → Bool) → IsWeakOrder comp → IsWeakOrder (flip comp)
flip-IsWeakOrder comp law = record {
  asym = λ a b h. law.asym b a h;
  cotrans = λ a b c h k. law.cotrans c b a k h;
}

-- The first of the greatest elements: those before it are less, and none after it is greater.
abbrev pub IsFirst {ℓ} : {A : Type ℓ} → (A → A → Bool) → List A → A → Type ℓ
IsFirst {A = A} comp xs m =
    (before after : List A) × (xs ≡ before ++ m ∷ after)
    × All (λ x. comp x m ≡ true) before
    × All (λ x. comp m x ≡ false) after

module _ {ℓ} {A : Type ℓ} (comp : A → A → Bool) (law : IsWeakOrder comp) where
  pub below : (a b c : A) → comp b a ≡ false → comp b c ≡ true → comp a c ≡ true
  below a b c not_above h = elim (Bool-cases (comp a c)) [
    | inl less ↦ less
    | inr not_less ↦ absurd (cc (law.cotrans b a c not_above not_less))
  ]

  between_less :
      (xs : List A) (m x : A)
      → comp m x ≡ true
      → All (λ a. comp m a ≡ false) xs
      → All (λ a. comp a x ≡ true) xs
  between_less [] m x h v = tt
  between_less (a ∷ xs) m x h v = (below a m x v.0 h, between_less xs m x h v.1)

  before_less :
      (xs : List A) (m x : A)
      → comp m x ≡ true
      → All (λ a. comp a m ≡ true) xs
      → All (λ a. comp a x ≡ true) xs
  before_less [] m x h v = tt
  before_less (a ∷ xs) m x h v = (below a m x (law.asym a m v.0) h, before_less xs m x h v.1)

  loop-IsFirst :
      (before : List A) (m : A) (between xs : List A)
      → All (λ a. comp a m ≡ true) before
      → All (λ a. comp m a ≡ false) between
      → IsFirst comp (before ++ m ∷ (between ++ xs)) (compare_loop comp m xs)
  unfolding compare_loop
  loop-IsFirst before m between [] less others =
      (before, between, ap (λ l. before ++ m ∷ l) (append-nil between), less, others)
  loop-IsFirst before m between (x ∷ xs) less others = elim (Bool-cases (comp m x)) [
    | inl greater ↦
        let (b, a, split, hb, ha) =
          loop-IsFirst (before ++ m ∷ between) x [] xs
            (All-append (λ a. comp a x ≡ true) before (m ∷ between)
              (before_less before m x greater less)
              (greater, between_less between m x greater others))
            tt in
        rw greater (b, a, sym (append_assoc before (m ∷ between) (x ∷ xs)) ∙ split, hb, ha)
    | inr kept ↦
        let (b, a, split, hb, ha) =
          loop-IsFirst before m (between ++ x ∷ []) xs less
            (All-append (λ a. comp m a ≡ false) between (x ∷ []) others (kept, tt)) in
        rw kept
          (b, a, ap (λ l. before ++ m ∷ l) (sym (append_assoc between (x ∷ []) xs)) ∙ split, hb, ha)
  ]

-- Where `less` is a strict weak order, range_max of a range that is not empty is the first of its
-- greatest elements, and range_min the first of its least.
pub range_max-range_min {ℓ} :
    {A : Type ℓ} (less : A → A → Bool)
    → IsWeakOrder less
    → (x : A) (xs : List A)
    → ((m : A) × (range_max less (x ∷ xs) ≡ some m) × IsFirst less (x ∷ xs) m)
      × ((m : A) × (range_min less (x ∷ xs) ≡ some m) × IsFirst (flip less) (x ∷ xs) m)
unfolding range_max range_min range_compare
range_max-range_min less law x xs = (
  (_, refl, loop-IsFirst less law [] x [] xs tt tt),
  (_, refl, loop-IsFirst (flip less) (flip-IsWeakOrder less law) [] x [] xs tt tt),
)
