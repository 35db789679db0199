-- ===== src/Tests/Texts.antt =====
-- Splitting, replacing and comparing at concrete strings, and the extremes of a range.
use boost_asio.Common.{ltb, ◌≡◌, refl, some, [], ◌∷◌, arith}
use boost_asio.Ranges.{range_max, range_compare, compare_loop, IsWeakOrder}
use boost_asio.Logic.{text}
use boost_asio.StringTool.{has_prefix, split_char, replace_all}
use boost_asio.StringTool.Split.{join, split_char-join}
use boost_asio.StringTool.Replace.{substitute, replace_all-substitute}

split_char-join_example :
    split_char (join b',' (text "ab" ∷ [] ∷ text "c" ∷ [])) b','
    ≡ some (text "ab" ∷ [] ∷ text "c" ∷ [])
split_char-join_example =
    split_char-join b',' (text "ab" ∷ [] ∷ text "c" ∷ []) (ground arith) (ground arith)

-- A single colon ends the first part, at the delimiter of two.
replace_all-substitute_example :
    replace_all 6 (text "aaxaa") (text "a") (text "aa")
    ≡ some (substitute (text "a") (text "aa") 0 (text "aaxaa"))
replace_all-substitute_example =
    replace_all-substitute 6 (text "a") (text "aa") (text "aaxaa") (omega arith)

replaced : substitute (text "a") (text "aa") 0 (text "axa") ≡ text "aaxaa"
unfolding substitute has_prefix
replaced = refl

less-IsWeakOrder : IsWeakOrder ltb
less-IsWeakOrder = record { asym = λ a b h. ground arith; cotrans = λ a b c h k. ground arith }

greatest : range_max ltb (2 ∷ 3 ∷ 1 ∷ 3 ∷ []) ≡ some 3
unfolding range_max range_compare compare_loop
greatest = refl
