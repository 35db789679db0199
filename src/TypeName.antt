-- ===== src/TypeName.antt =====
-- `getTypeName` and `type_class::get` of include/lyf.h. The texts that they cut the name out of,
-- `__PRETTY_FUNCTION__` and the demangled name, come from the compiler and are arguments.
use boost_asio.Common.{
  ℕ, ◌+◌, ◌-◌, ◌^◌, ◌≡◌, refl, sym, ap, ◌∙◌, true, Option, none, some, [], ◌∷◌, ◌++◌, Bytes, length,
  drop, take-append, drop-append, length-append, le→leb, arith, ==_iff,
}
use mathlib.Core.List.{append_assoc}
use boost_asio.Logic.{text}
use boost_asio.StringTool.{find, rfind, find_first_of, contains, behind, substr, has_prefix}
use boost_asio.StringTool.Search.{further-none}

-- `npos + n` is n - 1.
unfoldable pub past : ℕ → Option ℕ → ℕ
past n none = n - 1
past n (some i) = i + n

-- From `pos1` up to `pos2` and with it; `npos - pos1 + 1` is 2^64 - pos1.
unfoldable pub name_from : Bytes → ℕ → Option ℕ → Option Bytes
unfolding substr
name_from s pos1 none = substr s pos1 (2 ^ 64 - pos1)
name_from s pos1 (some pos2) = substr s pos1 (pos2 - pos1 + 1)

-- getTypeName
unfoldable pub get_type_name : Bytes → Option Bytes
unfolding find find_first_of past name_from
get_type_name s =
    let pos1 = past 4 (find (text "T = ") s) in
    name_from s pos1 (behind pos1 (find_first_of (text "\t]") (drop pos1 s)))

-- From `pos1` up to `pos2` and without it; `npos - pos1` is 2^64 - 1 - pos1.
unfoldable pub class_from : Bytes → ℕ → Option ℕ → Option Bytes
unfolding substr
class_from s pos1 none = substr s pos1 (2 ^ 64 - 1 - pos1)
class_from s pos1 (some pos2) = substr s pos1 (pos2 - pos1)

-- type_class::get
unfoldable pub type_class_get : Bytes → Option Bytes
unfolding rfind find_first_of past class_from
type_class_get all_real_name =
    class_from all_real_name (past 1 (find_first_of (text "<") all_real_name))
      (rfind (text ">") all_real_name)

find_first_of-append :
    (chars xs : Bytes) (c : ℕ) (ys : Bytes)
    → find_first_of chars xs ≡ none
    → contains c chars ≡ true
    → find_first_of chars (xs ++ c ∷ ys) ≡ some (length xs)
unfolding find_first_of
find_first_of-append chars [] c ys free hit = rw (hit) refl
find_first_of-append chars (x ∷ xs) c ys free hit =
    let (missed, rest) = further-none (contains x chars) (find_first_of chars xs) free in
    rw (missed, find_first_of-append chars xs c ys rest hit) refl

rfind-last : (xs : Bytes) (c : ℕ) → rfind (c ∷ []) (xs ++ c ∷ []) ≡ some (length xs)
unfolding rfind has_prefix
rfind-last [] c = ground (arith, ==_iff c c)
rfind-last (x ∷ xs) c = rw (rfind-last xs c) refl

substr-append :
    (xs ys zs : Bytes) (pos n : ℕ)
    → pos ≡ length xs
    → n ≡ length ys
    → substr (xs ++ (ys ++ zs)) pos n ≡ some ys
unfolding substr
substr-append xs ys zs pos n at size =
    rw (at, size)
      (rw
        (
          le→leb (length xs) (length (xs ++ (ys ++ zs)))
              (omega (arith, length-append xs (ys ++ zs))),
          drop-append xs (ys ++ zs),
          take-append ys zs,
        )
        refl)

-- Whatever stands between the first `<` of a demangled name and a `>` at its end is what is returned, with
-- any such characters in it.
pub type_class_get-name :
    (front name : Bytes)
    → find_first_of (text "<") front ≡ none
    → type_class_get (front ++ (text "<" ++ (name ++ text ">"))) ≡ some name
unfolding type_class_get past class_from contains
type_class_get-name front name free =
    let s = front ++ (text "<" ++ (name ++ text ">")) in
    let opens = find_first_of-append (text "<") front b'<' (name ++ text ">") free refl in
    let closes : rfind (text ">") s ≡ some (length (front ++ (text "<" ++ name))) =
      ap (rfind (text ">")) (sym (append_assoc front (text "<" ++ name) (text ">")))
      ∙ rfind-last (front ++ (text "<" ++ name)) b'>' in
    let pos1 = length front + 1 in
    let count = length (front ++ (text "<" ++ name)) - pos1 in
    ap (λ o. class_from s (past 1 o) (rfind (text ">") s)) opens
    ∙ ap (class_from s pos1) closes
    ∙ ap (λ t. substr t pos1 count) (sym (append_assoc front (text "<") (name ++ text ">")))
    ∙ substr-append (front ++ text "<") name (text ">") pos1 count
        (omega (arith, length-append front (text "<")))
        (omega (arith, length-append front (text "<" ++ name)))

-- The name up to the first tab or `]` behind the first "T = " is returned together with that character.
pub get_type_name-bracket :
    (front name rest : Bytes) (c : ℕ)
    → find (text "T = ") (front ++ (text "T = " ++ (name ++ c ∷ rest))) ≡ some (length front)
    → find_first_of (text "\t]") name ≡ none
    → contains c (text "\t]") ≡ true
    → get_type_name (front ++ (text "T = " ++ (name ++ c ∷ rest))) ≡ some (name ++ c ∷ [])
unfolding get_type_name past name_from
get_type_name-bracket front name rest c first free ends =
    let s = front ++ (text "T = " ++ (name ++ c ∷ rest)) in
    let pos1 = length front + 4 in
    let split : s ≡ (front ++ text "T = ") ++ (name ++ c ∷ rest) =
      sym (append_assoc front (text "T = ") (name ++ c ∷ rest)) in
    let at : pos1 ≡ length (front ++ text "T = ") =
      omega (arith, length-append front (text "T = ")) in
    let left : drop pos1 s ≡ name ++ c ∷ rest =
      ap (drop pos1) split
      ∙ ap (λ n. drop n ((front ++ text "T = ") ++ (name ++ c ∷ rest))) at
      ∙ drop-append (front ++ text "T = ") (name ++ c ∷ rest) in
    let found = find_first_of-append (text "\t]") name c rest free ends in
    ap
      (λ o.
        name_from s (past 4 o) (behind (past 4 o) (find_first_of (text "\t]") (drop (past 4 o) s))))
      first
    ∙ ap (λ t. name_from s pos1 (behind pos1 (find_first_of (text "\t]") t))) left
    ∙ ap (λ o. name_from s pos1 (behind pos1 o)) found
    ∙ ap (λ t. substr t pos1 (pos1 + length name - pos1 + 1))
        (split ∙ ap (λ t. (front ++ text "T = ") ++ t) (sym (append_assoc name (c ∷ []) rest)))
    ∙ substr-append (front ++ text "T = ") (name ++ c ∷ []) rest pos1
        (pos1 + length name - pos1 + 1) at (omega (arith, length-append name (c ∷ [])))
