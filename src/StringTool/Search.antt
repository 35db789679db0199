-- ===== src/StringTool/Search.antt =====
-- Searches of the members of std::string that include/lyf.h uses: where they stop.
use boost_asio.Common.{
  ℕ, zero, suc, ◌+◌, ◌≤◌, ◌<◌, ◌≡◌, refl, ap, ◌∙◌, Bool, true, false, Option, none, some, [], ◌∷◌,
  Bytes, if◌then◌else◌, drop, length, ==_iff, Bool-cases, leb, arith, ◌⊎◌, inl, inr, le→leb,
}
use boost_asio.StringTool.{has_prefix, find, find_first_of, contains, further, find_at, behind}

pub drop-drop : (i j : ℕ) (s : Bytes) → drop i (drop j s) ≡ drop (j + i) s
drop-drop i zero s = rw (zero_more i) refl
  where
    zero_more : (i : ℕ) → zero + i ≡ i
    zero_more i = omega arith
drop-drop zero (suc j) [] = rw (none_more j) refl
  where
    none_more : (j : ℕ) → suc j + zero ≡ suc j
    none_more j = omega arith
drop-drop (suc i) (suc j) [] = rw (both i j) refl
  where
    both : (i j : ℕ) → suc j + suc i ≡ suc (suc (j + i))
    both i j = omega arith
drop-drop i (suc j) (c ∷ s) = rw (one i j) (drop-drop i j s)
  where
    one : (i j : ℕ) → suc j + i ≡ suc (j + i)
    one i j = omega arith

-- Where the search stops: at once, or one place after where it does in the rest.
abbrev pub Further : Bool → Option ℕ → ℕ → Type 0
Further here later i =
    ((here ≡ true) × (i ≡ 0)) ⊎ ((j : ℕ) × (i ≡ suc j) × (later ≡ some j) × (here ≡ false))

pub further-some :
    (here : Bool) (later : Option ℕ) (i : ℕ)
    → (if here then some 0 else further later) ≡ some i
    → Further here later i
further-some true later i h = inl (refl, ground arith)
further-some false none i h = absurd (cc)
further-some false (some j) i h = inr (j, ground arith, refl, refl)

pub further-none :
    (here : Bool) (later : Option ℕ)
    → (if here then some 0 else further later) ≡ none
    → (here ≡ false) × (later ≡ none)
further-none true later h = absurd (cc)
further-none false none h = (refl, refl)
further-none false (some j) h = absurd (cc)

pub has_prefix-length : (p s : Bytes) → has_prefix p s ≡ true → length p ≤ length s
unfolding has_prefix
has_prefix-length [] s h = omega arith
has_prefix-length (a ∷ p) [] h = absurd (cc)
has_prefix-length (a ∷ p) (c ∷ s) h = ground (arith, has_prefix-length p s)

pub find-below : (sub s : Bytes) (i : ℕ) → find sub s ≡ some i → i + length sub ≤ length s
unfolding find
find-below [] [] i h = ground arith
find-below (a ∷ sub) [] i h = ground arith
find-below sub (c ∷ s) i h = elim (further-some (has_prefix sub (c ∷ s)) (find sub s) i h) [
  | inl (here, at) ↦ omega (arith, has_prefix-length sub (c ∷ s) here)
  | inr (j, at, later, not_here) ↦ omega (arith, find-below sub s j later)
]

pub find_first_of-below : (chars s : Bytes) (i : ℕ) → find_first_of chars s ≡ some i → i < length s
unfolding find_first_of
find_first_of-below chars [] i h = absurd (cc)
find_first_of-below chars (c ∷ s) i h =
    elim (further-some (contains c chars) (find_first_of chars s) i h) [
      | inl (here, at) ↦ omega arith
      | inr (j, at, later, not_here) ↦ omega (arith, find_first_of-below chars s j later)
    ]

-- For one character the two searches are one.
pub find_first_of-one : (d : ℕ) (s : Bytes) → find_first_of (d ∷ []) s ≡ find (d ∷ []) s
unfolding find_first_of find contains has_prefix
find_first_of-one d [] = refl
find_first_of-one d (c ∷ s) = rw (find_first_of-one d s) (ground (arith, ==_iff c d, ==_iff d c))

pub find_at-inside :
    (sub s : Bytes) (pos : ℕ)
    → pos ≤ length s
    → find_at sub s pos ≡ behind pos (find sub (drop pos s))
unfolding find_at
find_at-inside sub s pos h = rw (le→leb pos (length s) h) refl

no_offset : (o : Option ℕ) → behind 0 o ≡ o
no_offset none = refl
no_offset (some i) = ap some (from_start i)
  where
    from_start : (i : ℕ) → 0 + i ≡ i
    from_start i = omega arith

pub find_at-zero : (sub s : Bytes) → find_at sub s 0 ≡ find sub s
find_at-zero sub s = find_at-inside sub s 0 (omega arith) ∙ no_offset (find sub s)

-- What is nowhere in a string is nowhere in its end.
pub find-drop : (sub : Bytes) (k : ℕ) (s : Bytes) → find sub s ≡ none → find sub (drop k s) ≡ none
unfolding find
find-drop sub zero s h = h
find-drop sub (suc k) [] h = h
find-drop sub (suc k) (c ∷ s) h =
    find-drop sub k s (further-none (has_prefix sub (c ∷ s)) (find sub s) h).1

pub find_at-none : (sub s : Bytes) (pos : ℕ) → find sub s ≡ none → find_at sub s pos ≡ none
unfolding find_at
find_at-none sub s pos h = rw (find-drop sub pos s h) (elim (Bool-cases (leb pos (length s))) [
  | inl inside ↦ rw (inside) refl
  | inr outside ↦ rw (outside) refl
])
