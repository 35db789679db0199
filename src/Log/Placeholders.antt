-- ===== src/Log/Placeholders.antt =====
-- FormatMessage of src/05_ftp/include/AsyncLogSystem.h against a reading of the format from left to
-- right.
use boost_asio.Common.{
  ℕ, zero, suc, ◌+◌, ◌≡◌, ◌≢◌, ◌⊎◌, inl, inr, ◌<◌, refl, sym, ap, Bool, true, false, ◌&&◌, Option,
  none, some, List, [], ◌∷◌, ◌++◌, Bytes, if◌then◌else◌, take, drop, length, length-drop, arith,
}
use boost_asio.Logic.{text}
use boost_asio.Log.{
  LogLevel, level_string, opening, closing, find_placeholder, join_all, next_argument, format_loop,
  format_message,
}

-- The format with the arguments in the places of the placeholders; a placeholder without an
-- argument stays, and the arguments left follow at the end.
unfoldable pub fill : Bytes → List Bytes → Bytes
fill [] args = join_all args
fill (a ∷ []) args = a ∷ join_all args
fill (a ∷ b ∷ s) args =
    let replaced = (next_argument args).0 ++ fill s (next_argument args).1 in
    let kept = a ∷ fill (b ∷ s) args in if opening a && closing b then replaced else kept

fill-none :
    (s : Bytes) (args : List Bytes) → find_placeholder s ≡ none → fill s args ≡ s ++ join_all args
unfolding fill find_placeholder
fill-none [] args h = refl
fill-none (a ∷ []) args h = refl
fill-none (a ∷ b ∷ s) args h = ground (arith, fill-none (b ∷ s) args)

-- Where the search stops: at once, or one place after where it does in the rest.
Found : Bool → Option ℕ → ℕ → Type 0
Found here later i =
    ((here ≡ true) × (i ≡ 0)) ⊎ ((j : ℕ) × (i ≡ suc j) × (later ≡ some j) × (here ≡ false))

found :
    (a b : ℕ) (s : Bytes) (i : ℕ)
    → find_placeholder (a ∷ b ∷ s) ≡ some i
    → Found (opening a && closing b) (find_placeholder (b ∷ s)) i
unfolding find_placeholder Found
found a b s i h = of (opening a && closing b) (find_placeholder (b ∷ s)) h
  where
    of :
        (here : Bool) (later : Option ℕ)
        → (if here then some 0 else elim later [ none ↦ none | some i ↦ some (suc i) ]) ≡ some i
        → Found here later i
    of true later h = inl (refl, ground arith)
    of false none h = absurd (cc)
    of false (some j) h = inr (j, ground arith, refl, refl)

none_in_none : (i : ℕ) → find_placeholder [] ≢ some i
unfolding find_placeholder
none_in_none i h = absurd (cc)

none_in_one : (a i : ℕ) → find_placeholder (a ∷ []) ≢ some i
unfolding find_placeholder
none_in_one a i h = absurd (cc)

fill-some :
    (s : Bytes) (args : List Bytes) (i : ℕ)
    → find_placeholder s ≡ some i
    → fill s args
      ≡ take i s ++ (next_argument args).0 ++ fill (drop (i + 2) s) (next_argument args).1
unfolding fill Found
fill-some [] args i h = absurd (none_in_none i h)
fill-some (a ∷ []) args i h = absurd (none_in_one a i h)
fill-some (a ∷ b ∷ s) args i h = elim (found a b s i h) [
  | inl (here, at) ↦ rw (here, at) refl
  | inr (j, at, later, not_here) ↦
      rw (not_here, at, two_on j) (ap (◌∷◌ a) (fill-some (b ∷ s) args j later))
]
  where
    two_on : (j : ℕ) → suc j + 2 ≡ suc (j + 2)
    two_on j = omega arith

found_below : (s : Bytes) (i : ℕ) → find_placeholder s ≡ some i → i + 1 < length s
unfolding find_placeholder Found
found_below [] i h = ground arith
found_below (a ∷ []) i h = ground arith
found_below (a ∷ b ∷ s) i h = elim (found a b s i h) [
  | inl (here, at) ↦ omega arith
  | inr (j, at, later, not_here) ↦ omega (arith, found_below (b ∷ s) j later)
]

format_loop-fill :
    (n : ℕ) (s : Bytes) (args : List Bytes)
    → length s < n
    → format_loop n s args ≡ some (fill s args)
unfolding format_loop
format_loop-fill zero s args h = absurd (omega arith)
format_loop-fill (suc n) s args h = of (format_loop-fill n) (find_placeholder s) refl
  where
    of :
        ((t : Bytes) (rest : List Bytes) → length t < n → format_loop n t rest ≡ some (fill t rest))
        → (o : Option ℕ) → find_placeholder s ≡ o
        → format_loop (suc n) s args ≡ some (fill s args)
    of shorter none e = rw (e, format_loop) (ap some (sym (fill-none s args e)))
    of shorter (some i) e =
        rw (e, format_loop) rw
          (shorter (drop (i + 2) s) (next_argument args).1
            (omega (arith, length-drop (i + 2) s, found_below s i e)))
          (ap some (sym (fill-some s args i e)))

-- FormatMessage returns for every format and all arguments, with the level and the time in front
-- of the format that has been filled in from left to right.
pub format_message-fill :
    (level : LogLevel) (current_time fmt : Bytes) (args : List Bytes)
    → format_message level current_time fmt args
      ≡ some (
          text "[" ++ level_string level ++ text "] " ++ current_time ++ text ": " ++ fill fmt args)
unfolding format_message
format_message-fill level current_time fmt args =
    rw (format_loop-fill (suc (length fmt)) fmt args (omega arith)) refl
