-- ===== src/StringTool/Affixes.antt =====
-- `begin_with` and `end_with` of include/lyf.h.
use boost_asio.Common.{
  ℕ, zero, suc, ◌+◌, ◌-◌, ◌≤◌, ◌≡◌, ◌≢◌, refl, ◌&&◌, some, [], ◌∷◌, Bytes, All, drop, length,
  ==_iff, Bool-cases, leb, ltb, arith, inl, inr, le→leb, lt→leb, ltb→lt, ltb→le,
}
use boost_asio.StringTool.{has_prefix, char_at, matches_from, begin_with, end_with}

-- A string without a zero among its bytes
abbrev pub HasNoZero : Bytes → Type 0
HasNoZero = All (λ c. c ≢ 0)

-- What stands at a place of a string
char_at-drop :
    (str : Bytes) (i : ℕ)
    → i ≤ length str
    → char_at str i ≡ elim (drop i str) [ [] ↦ some 0 | c ∷ s ↦ some c ]
unfolding char_at
char_at-drop [] zero h = refl
char_at-drop [] (suc i) h = absurd (omega arith)
char_at-drop (c ∷ s) zero h = ground arith
char_at-drop (c ∷ s) (suc i) h = ground (arith, char_at-drop s i)

drop-next :
    (str : Bytes) (i c : ℕ) (t : Bytes)
    → drop i str ≡ c ∷ t
    → (drop (i + 1) str ≡ t) × (i + 1 ≤ length str)
drop-next [] zero c t h = absurd (cc)
drop-next [] (suc i) c t h = absurd (cc)
drop-next (d ∷ str) zero c t h = ground arith
drop-next (d ∷ str) (suc i) c t h =
    let (rest, inside) = drop-next str i c t h in (rw (next i) rest, omega arith)
  where
    next : (i : ℕ) → suc i + 1 ≡ suc (i + 1)
    next i = omega arith

matches_from-has_prefix :
    (str : Bytes) (i : ℕ) (p : Bytes) (t : Bytes)
    → i ≤ length str
    → drop i str ≡ t
    → HasNoZero p
    → matches_from str i p ≡ some (has_prefix p t)
unfolding matches_from has_prefix
matches_from-has_prefix str i [] t inside at free = refl
matches_from-has_prefix str i (a ∷ p) [] inside at free =
    rw (char_at-drop str i inside) rw (at) (ground (arith, ==_iff 0 a))
matches_from-has_prefix str i (a ∷ p) (c ∷ t) inside at free =
    rw (char_at-drop str i inside) rw (at) (
      ground (
        arith,
        ==_iff c a,
        ==_iff a c,
        matches_from-has_prefix str (i + 1) p t (drop-next str i c t at).1
            (drop-next str i c t at).0 free.1,
      ))

-- A prefix without a zero byte is looked for inside the string and its terminator only, and is
-- found exactly when the string begins with it; a suffix without one is found exactly when the
-- string is long enough and ends in it.
pub begin_with-end_with :
    (str affix : Bytes)
    → HasNoZero affix
    → (begin_with str affix ≡ some (has_prefix affix str))
      × (end_with str affix
          ≡ some (
              leb (length affix) (length str)
              && has_prefix affix (drop (length str - length affix) str)))
unfolding begin_with end_with
begin_with-end_with str affix free = (
  matches_from-has_prefix str 0 affix str (omega arith) refl free,
  elim (Bool-cases (ltb (length str) (length affix))) [
    | inl short ↦
        rw (short, lt→leb (length affix) (length str) (ltb→lt (length str) (length affix) short))
          refl
    | inr long ↦
        rw (long, le→leb (length affix) (length str) (ltb→le (length str) (length affix) long))
          (matches_from-has_prefix str (length str - length affix) affix
            (drop (length str - length affix) str) (omega arith) refl free)
  ],
)
