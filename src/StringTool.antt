-- ===== src/StringTool.antt =====
-- The namespace StringTool of include/lyf.h. A string is its bytes; a search returns a position or,
-- for `npos`, `none`. The members of std::string stand here as documented, from `has_prefix` to
-- `char_at`, and the functions of the namespace after them.
pub mod Search
pub mod Split
pub mod Replace
pub mod Affixes
use boost_asio.Common.{
  ℕ, zero, suc, ◌+◌, ◌-◌, Bool, true, false, ◌||◌, ◌&&◌, Option, none, some, ◌>>=◌, List, [], ◌∷◌,
  ◌++◌, Bytes, if◌then◌else◌, take, drop, length, get_elem?, ◌==◌, leb, ltb,
}

-- Whether the second string begins with the first
unfoldable pub has_prefix : Bytes → Bytes → Bool
has_prefix [] s = true
has_prefix (p ∷ ps) [] = false
has_prefix (p ∷ ps) (c ∷ s) = p == c && has_prefix ps s

abbrev pub further : Option ℕ → Option ℕ
further none = none
further (some i) = some (suc i)

-- str.find(sub)
unfoldable pub find : Bytes → Bytes → Option ℕ
unfolding has_prefix
find sub [] = if has_prefix sub [] then some 0 else none
find sub (c ∷ s) = if has_prefix sub (c ∷ s) then some 0 else further (find sub s)

-- str.rfind(sub)
unfoldable pub rfind : Bytes → Bytes → Option ℕ
unfolding has_prefix
rfind sub [] = if has_prefix sub [] then some 0 else none
rfind sub (c ∷ s) = elim (rfind sub s) [
  | none ↦ if has_prefix sub (c ∷ s) then some 0 else none
  | some i ↦ some (suc i)
]

unfoldable pub contains : ℕ → Bytes → Bool
contains c [] = false
contains c (d ∷ s) = c == d || contains c s

-- str.find_first_of(chars)
unfoldable pub find_first_of : Bytes → Bytes → Option ℕ
unfolding contains
find_first_of chars [] = none
find_first_of chars (c ∷ s) = if contains c chars then some 0 else further (find_first_of chars s)

abbrev pub behind : ℕ → Option ℕ → Option ℕ
behind pos none = none
behind pos (some i) = some (pos + i)

-- str.find(sub, pos)
unfoldable pub find_at : Bytes → Bytes → ℕ → Option ℕ
unfolding find
find_at sub s pos = if leb pos (length s) then behind pos (find sub (drop pos s)) else none

-- str.substr(pos, n) throws where `pos` is behind the end.
unfoldable pub substr : Bytes → ℕ → ℕ → Option Bytes
substr s pos n = if leb pos (length s) then some (take n (drop pos s)) else none

-- str.replace(pos, n, with), at a position in the string
unfoldable pub replace : Bytes → ℕ → ℕ → Bytes → Bytes
replace s pos n new_value = take pos s ++ (new_value ++ drop (pos + n) s)

-- str[i], which is a zero at the end and undefined behind it
unfoldable pub char_at : Bytes → ℕ → Option ℕ
char_at s i = if ltb i (length s) then get_elem? s i else if i == length s then some 0 else none

-- getline: the characters up to the delimiter or to the end, and those behind it
unfoldable pub line : ℕ → Bytes → Bytes × Bytes
line delim [] = ([], [])
line delim (c ∷ s) = if c == delim then ([], s) else (c ∷ (line delim s).0, (line delim s).1)

-- split(str, char), on fuel
unfoldable pub split_lines : ℕ → ℕ → Bytes → Option (List Bytes)
unfolding line
split_lines zero delim s = none
split_lines (suc n) delim [] = some []
split_lines (suc n) delim (c ∷ s) = do
  rest ← split_lines n delim (line delim (c ∷ s)).1
  some ((line delim (c ∷ s)).0 ∷ rest)

unfoldable pub split_char : Bytes → ℕ → Option (List Bytes)
unfolding split_lines
split_char str delim = split_lines (suc (length str)) delim str

-- split(str, string): the loop from `pos1`, with `pos2`, on fuel. `none` is an exception or the end
-- of the fuel.
unfoldable pub split_loop : ℕ → Bytes → Bytes → ℕ → Option ℕ → Option (List Bytes)
unfolding substr find_at
split_loop zero str delim pos1 pos2 = none
split_loop (suc n) str delim pos1 none =
    if pos1 == length str then some [] else do last ← substr str pos1 (length str); some (last ∷ [])
split_loop (suc n) str delim pos1 (some pos2) = do
  piece ← substr str pos1 (pos2 - pos1)
  rest ← split_loop n str delim (pos2 + length delim) (find_at delim str (pos2 + length delim))
  some (piece ∷ rest)

unfoldable pub split_string : Bytes → Bytes → Option (List Bytes)
unfolding split_loop find_first_of
split_string str delim = split_loop (suc (suc (length str))) str delim 0 (find_first_of delim str)

-- The loop of regex_match over the matches, which `sregex_iterator` goes through, with `match.str()`
unfoldable pub collect {ℓ} :
    {Match : Type ℓ} → (Match → Bytes) → List Match → List Bytes → List Bytes
collect match_str [] res = res
collect match_str (i ∷ rest) res = collect match_str rest (res ++ match_str i ∷ [])

-- A pattern that is no regular expression throws.
unfoldable pub regex_match {ℓ} :
    {Match : Type ℓ}
    → (Bytes → Bytes → Option (List Match))
    → (Match → Bytes)
    → Bytes
    → Bytes
    → Option (List Bytes)
unfolding collect
regex_match matches match_str str pattern = do
  found ← matches str pattern
  some (collect match_str found [])

unfoldable pub replace_first : Bytes → Bytes → Bytes → Bytes
unfolding find replace
replace_first str old_value new_value = elim (find old_value str) [
  | none ↦ str
  | some pos ↦ replace str pos (length old_value) new_value
]

unfoldable pub replace_last : Bytes → Bytes → Bytes → Bytes
unfolding rfind replace
replace_last str old_value new_value = elim (rfind old_value str) [
  | none ↦ str
  | some pos ↦ replace str pos (length old_value) new_value
]

-- The loop of replace_all, on fuel; its end is `none`.
unfoldable pub replace_loop : ℕ → Bytes → Bytes → Bytes → ℕ → Option Bytes
unfolding find_at replace
replace_loop zero old_value new_value res pos = none
replace_loop (suc n) old_value new_value res pos = elim (find_at old_value res pos) [
  | none ↦ some res
  | some p ↦
      replace_loop n old_value new_value (replace res p (length old_value) new_value)
        (p + length new_value)
]

unfoldable pub replace_all : ℕ → Bytes → Bytes → Bytes → Option Bytes
unfolding replace_loop
replace_all fuel str old_value new_value = replace_loop fuel old_value new_value str 0

-- The loops of begin_with and end_with, from the place `i` of the string
unfoldable pub matches_from : Bytes → ℕ → Bytes → Option Bool
unfolding char_at
matches_from str i [] = some true
matches_from str i (p ∷ ps) = do
  c ← char_at str i
  elim (c == p) [ true ↦ matches_from str (i + 1) ps | false ↦ some false ]

unfoldable pub begin_with : Bytes → Bytes → Option Bool
unfolding matches_from
begin_with str prefix = matches_from str 0 prefix

unfoldable pub end_with : Bytes → Bytes → Option Bool
unfolding matches_from
end_with str suffix =
    if ltb (length str) (length suffix)
    then some false
    else matches_from str (length str - length suffix) suffix
