-- ===== src/StringTool/Split.antt =====
-- The two functions `split` of include/lyf.h.
use boost_asio.Common.{
  lt_or_le, ℕ, zero, suc, ◌+◌, ◌-◌, ◌≤◌, ◌<◌, ◌≡◌, ◌≢◌, refl, sym, ap, ◌∙◌, true, false, none, some,
  List, [], ◌∷◌, ◌++◌, Bytes, All, if◌then◌else◌, take, drop, take_all, drop_all, length,
  length-drop, ◌==◌, ==_iff, Bool-cases, Option-cases, ltb, ltb→lt, ltb→le, arith, ◌⊎◌, inl, inr,
  le→leb, lt→leb,
}
use boost_asio.StringTool.{
  has_prefix, find, find_first_of, find_at, substr, line, split_lines, split_char, split_loop,
  split_string, behind,
}
use boost_asio.StringTool.Search.{
  drop-drop, further-some, further-none, find-below, find_first_of-one, find_at-inside,
  find_at-zero, find_at-none,
}

-- The parts of a string between the delimiters; what is behind the last delimiter is a part only if
-- it is not empty.
unfoldable pub fields : ℕ → Bytes → List Bytes
fields d [] = []
fields d (c ∷ s) =
    if c == d
    then [] ∷ fields d s
    else elim (fields d s) [ [] ↦ (c ∷ []) ∷ [] | l ∷ ls ↦ (c ∷ l) ∷ ls ]

fields-line :
    (d c : ℕ) (s : Bytes)
    → (fields d (c ∷ s) ≡ (line d (c ∷ s)).0 ∷ fields d (line d (c ∷ s)).1)
      × (length (line d (c ∷ s)).1 ≤ length s)
unfolding fields line
fields-line d c [] = ground arith
fields-line d c (e ∷ s) = ground (arith, fields-line d e s)

split_lines-fields : (n d : ℕ) (s : Bytes) → length s < n → split_lines n d s ≡ some (fields d s)
unfolding split_lines fields
split_lines-fields zero d s h = absurd (omega arith)
split_lines-fields (suc n) d [] h = refl
split_lines-fields (suc n) d (c ∷ s) h =
    let (whole, shorter) = fields-line d c s in
    rw (split_lines-fields n d (line d (c ∷ s)).1 (omega arith)) (ap some (sym whole))

pub split_char-fields : (str : Bytes) (d : ℕ) → split_char str d ≡ some (fields d str)
unfolding split_char
split_char-fields str d = split_lines-fields (suc (length str)) d str (omega arith)

-- Strings in which a character is not
abbrev pub IsFree : ℕ → Bytes → Type 0
IsFree d = All (λ c. c ≢ d)

abbrev pub EndsInPart : List Bytes → Type 0
EndsInPart [] = Unit
EndsInPart (l ∷ []) = l ≢ []
EndsInPart (l ∷ m ∷ ls) = EndsInPart (m ∷ ls)

unfoldable pub join : ℕ → List Bytes → Bytes
join d [] = []
join d (l ∷ []) = l
join d (l ∷ m ∷ ls) = l ++ d ∷ join d (m ∷ ls)

part : (c d : ℕ) → c ≢ d → (c == d) ≡ false
part c d h = ground arith

same : (d : ℕ) → (d == d) ≡ true
same d = ground arith

some_part : (e : ℕ) (l : Bytes) → e ∷ l ≢ []
some_part e l h = absurd (cc)

fields-part : (d : ℕ) (l : Bytes) → IsFree d l → l ≢ [] → fields d l ≡ l ∷ []
unfolding fields
fields-part d [] free nonempty = absurd (nonempty refl)
fields-part d (c ∷ []) free nonempty = ground (arith, ==_iff c d)
fields-part d (c ∷ e ∷ l) free nonempty =
    rw (part c d free.0, fields-part d (e ∷ l) free.1 (some_part e l)) refl

fields-more : (d : ℕ) (l s : Bytes) → IsFree d l → fields d (l ++ d ∷ s) ≡ l ∷ fields d s
unfolding fields
fields-more d [] s free = rw (same d) refl
fields-more d (c ∷ l) s free = rw (part c d free.0, fields-more d l s free.1) refl

fields-join :
    (d : ℕ) (ls : List Bytes) → All (IsFree d) ls → EndsInPart ls → fields d (join d ls) ≡ ls
unfolding join fields
fields-join d [] free end = refl
fields-join d (l ∷ []) free end = fields-part d l free.0 end
fields-join d (l ∷ m ∷ ls) free end =
    fields-more d l (join d (m ∷ ls)) free.0 ∙ ap (◌∷◌ l) (fields-join d (m ∷ ls) free.1 end)

-- Parts without the delimiter, of which the last is not empty, joined by the delimiter, are what
-- `split` at a character gives back.
pub split_char-join :
    (d : ℕ) (ls : List Bytes)
    → All (IsFree d) ls
    → EndsInPart ls
    → split_char (join d ls) d ≡ some ls
split_char-join d ls free end =
    split_char-fields (join d ls) d ∙ ap some (fields-join d ls free end)

fields-none : (d c : ℕ) (s : Bytes) → find (d ∷ []) (c ∷ s) ≡ none → fields d (c ∷ s) ≡ (c ∷ s) ∷ []
unfolding fields find has_prefix
fields-none d c [] h = ground (arith, ==_iff c d, ==_iff d c)
fields-none d c (e ∷ s) h = ground (
  arith,
  ==_iff c d,
  ==_iff d c,
  further-none (d == c) (find (d ∷ []) (e ∷ s)),
  fields-none d e s,
)

fields-some :
    (d : ℕ) (s : Bytes) (i : ℕ)
    → find (d ∷ []) s ≡ some i
    → fields d s ≡ take i s ∷ fields d (drop (suc i) s)
unfolding fields find has_prefix
fields-some d [] i h = absurd (cc)
fields-some d (c ∷ s) i h =
    elim (further-some (has_prefix (d ∷ []) (c ∷ s)) (find (d ∷ []) s) i h) [
      | inl (here, at) ↦ ground (arith, ==_iff c d, ==_iff d c, here, at)
      | inr (j, at, later, not_here) ↦
          ground (arith, ==_iff c d, ==_iff d c, fields-some d s j later, not_here, at)
    ]

fields-rest : (d : ℕ) (s : Bytes) → s ≢ [] → find (d ∷ []) s ≡ none → fields d s ≡ s ∷ []
fields-rest d [] h e = absurd (h refl)
fields-rest d (c ∷ s) h e = fields-none d c s e

no_part_left :
    (n d : ℕ) (str : Bytes) (pos : ℕ)
    → pos ≡ length str
    → split_loop (suc n) str (d ∷ []) pos none ≡ some (fields d (drop pos str))
unfolding split_loop fields
no_part_left n d str pos at =
    rw (drop_all pos str (omega arith)) rw ((==_iff pos (length str)).1 at) refl

last_part :
    (n d : ℕ) (str : Bytes) (pos : ℕ)
    → pos < length str
    → find (d ∷ []) (drop pos str) ≡ none
    → split_loop (suc n) str (d ∷ []) pos none ≡ some (fields d (drop pos str))
unfolding split_loop substr
last_part n d str pos inside e =
    rw
      (
        part pos (length str) (λ h. omega arith),
        le→leb pos (length str) (omega arith),
        take_all (length str) (drop pos str) (omega (arith, length-drop pos str)),
        fields-rest d (drop pos str) (λ h. omega (arith, length-drop pos str, ap length h)) e,
      )
      refl

found_part :
    (n d : ℕ) (str : Bytes) (pos i : ℕ)
    → pos ≤ length str
    → find (d ∷ []) (drop pos str) ≡ some i
    → split_loop n str (d ∷ []) (pos + i + 1) (find_at (d ∷ []) str (pos + i + 1))
      ≡ some (fields d (drop (pos + i + 1) str))
    → split_loop (suc n) str (d ∷ []) pos (some (pos + i)) ≡ some (fields d (drop pos str))
unfolding split_loop substr
found_part n d str pos i inside e rest =
    rw
      (
        le→leb pos (length str) inside,
        rest,
        fields-some d (drop pos str) i e,
        drop-drop (suc i) pos str,
        back pos i,
        on pos i,
      )
      refl
  where
    back : (pos i : ℕ) → pos + i - pos ≡ i
    back pos i = omega arith

    on : (pos i : ℕ) → pos + suc i ≡ pos + i + 1
    on pos i = omega arith

split_loop-fields :
    (n d : ℕ) (str : Bytes) (pos : ℕ)
    → pos ≤ length str
    → length str < n + pos
    → split_loop n str (d ∷ []) pos (find_at (d ∷ []) str pos) ≡ some (fields d (drop pos str))
split_loop-fields zero d str pos inside enough = absurd (omega arith)
split_loop-fields (suc n) d str pos inside enough =
    rw (find_at-inside (d ∷ []) str pos inside)
      (of (split_loop-fields n d str) (Option-cases (find (d ∷ []) (drop pos str))))
  where
    of :
        ((next : ℕ)
          → next ≤ length str
          → length str < n + next
          → split_loop n str (d ∷ []) next (find_at (d ∷ []) str next)
            ≡ some (fields d (drop next str)))
        → (find (d ∷ []) (drop pos str) ≡ none)
          ⊎ ((i : ℕ) × (find (d ∷ []) (drop pos str) ≡ some i))
        → split_loop (suc n) str (d ∷ []) pos (behind pos (find (d ∷ []) (drop pos str)))
          ≡ some (fields d (drop pos str))
    of rest (inl e) = rw (e) (elim (Bool-cases (ltb pos (length str))) [
      | inl more ↦ last_part n d str pos (ltb→lt pos (length str) more) e
      | inr done ↦ no_part_left n d str pos (omega (arith, ltb→le pos (length str) done))
    ])
    of rest (inr (i, e)) = rw (e) (
        found_part n d str pos i inside e (
          rest (pos + i + 1)
            (omega (arith, find-below (d ∷ []) (drop pos str) i e, length-drop pos str))
            (omega arith)))

-- At a delimiter of one character the two functions return the same, and neither raises an
-- exception.
pub split_string-split_char : (str : Bytes) (d : ℕ) → split_string str (d ∷ []) ≡ split_char str d
unfolding split_string
split_string-split_char str d =
    rw (find_first_of-one d str, split_char-fields str d)
      (rw (← find_at-zero (d ∷ []) str)
        (split_loop-fields (suc (suc (length str))) d str 0 (omega arith) (omega arith)))

whole : (i : ℕ) → i - 0 ≡ i
whole i = omega arith

-- A string that has a character of the delimiter, though the delimiter is nowhere in it, is cut
-- there, unless as many characters as the delimiter has reach just to the end: the first part ends
-- before the character, so many characters are lost, and the second part is what is left. If there are
-- fewer than that, an exception is raised.
pub split_string-first_of :
    (str delim : Bytes) (i : ℕ)
    → find_first_of delim str ≡ some i
    → find delim str ≡ none
    → i + length delim ≢ length str
    → ((i + length delim < length str)
        × (split_string str delim ≡ some (take i str ∷ drop (i + length delim) str ∷ [])))
      ⊎ ((length str ≤ i + length delim) × (split_string str delim ≡ none))
unfolding split_string split_loop substr
split_string-first_of str delim i first nowhere not_at_end =
    lt_or_le (i + length delim) (length str) (
      (λ (more : i + length delim < length str).
          rw
            (
              first,
              find_at-none delim str (i + length delim) nowhere,
              part (i + length delim) (length str) (λ h. omega arith),
              le→leb (i + length delim) (length str) (omega arith),
              take_all (length str) (drop (i + length delim) str)
                  (omega (arith, length-drop (i + length delim) str)),
              whole i,
              le→leb 0 (length str) (omega arith),
            )
            refl),
      (λ (most : length str ≤ i + length delim).
          let less : length str < i + length delim = omega arith in
          rw
            (
              first,
              find_at-none delim str (i + length delim) nowhere,
              part (i + length delim) (length str) (λ h. omega arith),
              lt→leb (i + length delim) (length str) less,
              whole i,
              le→leb 0 (length str) (omega arith),
            )
            refl),
    )
