-- ===== src/StringTool/Replace.antt =====
-- `replace_all` of include/lyf.h against a reading of the string from left to right.
use mathlib.Core.List.{append_assoc}
use boost_asio.Common.{
  not_zero, ◌==◌, if◌then◌else◌, ℕ, zero, suc, ◌+◌, ◌-◌, ◌≤◌, ◌<◌, ◌≡◌, refl, sym, ap, ◌∙◌, none,
  some, [], ◌∷◌, ◌++◌, Bytes, if◌then◌else◌, take, drop, drop-append, length, length-drop,
  length-append, length-take, Option-cases, arith, ◌⊎◌, inl, inr, le→leb,
}
use boost_asio.StringTool.{has_prefix, find, find_at, behind, replace, replace_loop, replace_all}
use boost_asio.StringTool.Search.{further-some, further-none, find-below, find_at-inside, drop-drop}

-- Each occurrence that is met is replaced, and the reading goes on behind it; `skip` characters of
-- it are still to be passed.
unfoldable pub substitute : Bytes → Bytes → ℕ → Bytes → Bytes
substitute old_value new_value skip [] = []
substitute old_value new_value (suc skip) (c ∷ s) = substitute old_value new_value skip s
substitute old_value new_value zero (c ∷ s) =
    let replaced = new_value ++ substitute old_value new_value (length old_value - 1) s in
    let kept = c ∷ substitute old_value new_value zero s in
    if has_prefix old_value (c ∷ s) then replaced else kept

substitute-skip :
    (old_value new_value : Bytes) (k : ℕ) (s : Bytes)
    → substitute old_value new_value k s ≡ substitute old_value new_value 0 (drop k s)
unfolding substitute
substitute-skip o n zero [] = refl
substitute-skip o n (suc k) [] = refl
substitute-skip o n zero (c ∷ s) = refl
substitute-skip o n (suc k) (c ∷ s) = substitute-skip o n k s

substitute-none : (o n s : Bytes) → find o s ≡ none → substitute o n 0 s ≡ s
unfolding substitute find
substitute-none o n [] h = refl
substitute-none o n (c ∷ s) h =
    let (not_here, later) = further-none (has_prefix o (c ∷ s)) (find o s) h in
    rw (not_here) (ap (◌∷◌ c) (substitute-none o n s later))

substitute-some :
    (a : ℕ) (o n s : Bytes) (i : ℕ)
    → find (a ∷ o) s ≡ some i
    → substitute (a ∷ o) n 0 s
      ≡ take i s ++ (n ++ substitute (a ∷ o) n 0 (drop (i + length (a ∷ o)) s))
unfolding substitute find
substitute-some a o n [] i h = absurd (cc)
substitute-some a o n (c ∷ s) i h =
    elim (further-some (has_prefix (a ∷ o) (c ∷ s)) (find (a ∷ o) s) i h) [
      | inl (here, at) ↦
          rw
            (
              here,
              at,
              less (length o),
              from_start (suc (length o)),
              substitute-skip (a ∷ o) n (length o) s,
            )
            refl
      | inr (j, at, later, not_here) ↦
          rw (not_here, at, later_on j (suc (length o)))
            (ap (◌∷◌ c) (substitute-some a o n s j later))
    ]
  where
    less : (m : ℕ) → suc m - 1 ≡ m
    less m = omega arith

    from_start : (m : ℕ) → 0 + m ≡ m
    from_start m = omega arith

    later_on : (j m : ℕ) → suc j + m ≡ suc (j + m)
    later_on j m = omega arith

take-past : (xs ys : Bytes) (i : ℕ) → take (length xs + i) (xs ++ ys) ≡ xs ++ take i ys
take-past [] ys i = rw (from_start i) refl
  where
    from_start : (i : ℕ) → 0 + i ≡ i
    from_start i = omega arith
take-past (x ∷ xs) ys i = rw (later_on (length xs) i) (ap (◌∷◌ x) (take-past xs ys i))
  where
    later_on : (j m : ℕ) → suc j + m ≡ suc (j + m)
    later_on j m = omega arith

drop-past : (xs ys : Bytes) (i : ℕ) → drop (length xs + i) (xs ++ ys) ≡ drop i ys
drop-past xs ys i = sym (drop-drop i (length xs) (xs ++ ys)) ∙ ap (drop i) (drop-append xs ys)

length-take_inside : (i : ℕ) (s : Bytes) → i ≤ length s → length (take i s) ≡ i
length-take_inside i s h = omega (arith, length-take i s)

replace-past :
    (done rest new_value : Bytes) (i m : ℕ)
    → replace (done ++ rest) (length done + i) m new_value
      ≡ ((done ++ take i rest) ++ new_value) ++ drop (i + m) rest
unfolding replace
replace-past done rest n i m =
    rw (take-past done rest i, regroup (length done) i m, drop-past done rest (i + m))
      (sym (append_assoc (done ++ take i rest) n (drop (i + m) rest)))
  where
    regroup : (a b c : ℕ) → a + b + c ≡ a + (b + c)
    regroup a b c = omega arith

behind_done :
    (done rest new_value : Bytes) (i : ℕ)
    → i ≤ length rest
    → length ((done ++ take i rest) ++ new_value) ≡ length done + i + length new_value
behind_done done rest n i inside = omega (
  arith,
  length-append (done ++ take i rest) n,
  length-append done (take i rest),
  length-take_inside i rest inside,
)

replace_loop-substitute :
    (fuel a : ℕ) (o n done rest : Bytes)
    → length rest < fuel
    → replace_loop fuel (a ∷ o) n (done ++ rest) (length done)
      ≡ some (done ++ substitute (a ∷ o) n 0 rest)
unfolding replace_loop
replace_loop-substitute zero a o n done rest h = absurd (omega arith)
replace_loop-substitute (suc fuel) a o n done rest h =
    of (replace_loop-substitute fuel a o n) (Option-cases (find (a ∷ o) rest))
  where
    search : find_at (a ∷ o) (done ++ rest) (length done) ≡ behind (length done) (find (a ∷ o) rest)
    search =
        find_at-inside (a ∷ o) (done ++ rest) (length done) (omega (arith, length-append done rest))
        ∙ ap (λ t. behind (length done) (find (a ∷ o) t)) (drop-append done rest)

    joined :
        (i : ℕ) (t : Bytes) → ((done ++ take i rest) ++ n) ++ t ≡ done ++ (take i rest ++ (n ++ t))
    joined i t = append_assoc (done ++ take i rest) n t ∙ append_assoc done (take i rest) (n ++ t)

    of :
        ((done rest : Bytes)
          → length rest < fuel
          → replace_loop fuel (a ∷ o) n (done ++ rest) (length done)
            ≡ some (done ++ substitute (a ∷ o) n 0 rest))
        → (find (a ∷ o) rest ≡ none) ⊎ ((i : ℕ) × (find (a ∷ o) rest ≡ some i))
        → replace_loop (suc fuel) (a ∷ o) n (done ++ rest) (length done)
          ≡ some (done ++ substitute (a ∷ o) n 0 rest)
    of rec (inl e) =
        rw (search ∙ ap (behind (length done)) e, replace_loop)
          (ap (λ t. some (done ++ t)) (sym (substitute-none (a ∷ o) n rest e)))
    of rec (inr (i, e)) =
        rw (search ∙ ap (behind (length done)) e, replace_loop)
          (rw
            (
              replace-past done rest n i (length (a ∷ o)),
              ← behind_done done rest n i (omega (arith, find-below (a ∷ o) rest i e)),
            )
            (rec ((done ++ take i rest) ++ n) (drop (i + length (a ∷ o)) rest)
                (omega (arith, length-drop (i + length (a ∷ o)) rest, find-below (a ∷ o) rest i e))
              ∙ ap some (
                  joined i (substitute (a ∷ o) n 0 (drop (i + length (a ∷ o)) rest))
                  ∙ ap (◌++◌ done) (sym (substitute-some a o n rest i e)))))

find_at-empty : (s : Bytes) (pos : ℕ) → pos ≤ length s → find_at [] s pos ≡ some pos
unfolding find_at find has_prefix
find_at-empty s pos h = rw (le→leb pos (length s) h) (at_start (drop pos s))
  where
    at_start : (t : Bytes) → behind pos (find [] t) ≡ some pos
    at_start [] = ap some (omega arith)
    at_start (c ∷ t) = ap some (omega arith)

room :
    (s : Bytes) (pos : ℕ) (n : Bytes) → pos ≤ length s → pos + length n ≤ length (replace s pos 0 n)
unfolding replace
room s pos n h = omega (
  arith,
  length-append (take pos s) (n ++ drop (pos + 0) s),
  length-append n (drop (pos + 0) s),
  length-take_inside pos s h,
)

replace_loop-empty :
    (fuel : ℕ) (n s : Bytes) (pos : ℕ) → pos ≤ length s → replace_loop fuel [] n s pos ≡ none
unfolding replace_loop
replace_loop-empty zero n s pos h = refl
replace_loop-empty (suc fuel) n s pos h =
    rw (find_at-empty s pos h, replace_loop)
      (replace_loop-empty fuel n (replace s pos 0 n) (pos + length n) (room s pos n h))

-- With more rounds than the string has characters, replace_all ends and has replaced the
-- occurrences of a string that is not empty as a reader from left to right meets them, who does not
-- look again at what has been put in. An empty string is replaced for ever: no such number of rounds
-- is enough.
pub replace_all-substitute :
    (fuel : ℕ) (old_value new_value str : Bytes)
    → length str < fuel
    → replace_all fuel str old_value new_value
      ≡ (if length old_value == 0 then none else some (substitute old_value new_value 0 str))
unfolding replace_all
replace_all-substitute fuel [] n str h = replace_loop-empty fuel n str 0 (omega arith)
replace_all-substitute fuel (a ∷ o) n str h =
    rw (not_zero (length o)) (replace_loop-substitute fuel a o n [] str h)
