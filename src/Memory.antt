-- ===== src/Memory.antt =====
-- The C++ memory that the message nodes of src/05_ftp use: `new char[n]`, `memcpy` and a store
-- through a pointer, with an access outside the array as a fault, and C strings.
use boost_asio.Common.{
  ℕ, zero, suc, ◌+◌, ◌≤◌, ◌≡◌, ◌≢◌, refl, sym, ap, ◌∙◌, Option, none, some, [], ◌∷◌, ◌++◌, arith,
  Bytes, All, leb, ltb, ◌==◌, if◌then◌else◌, length, take, drop, set, length-append, length-take,
  length-drop, take-append, drop-append, le→leb, lt→ltb,
}
use mathlib.Core.List.{append-nil, append_assoc}

-- memcpy(to + at, from, length from)
unfoldable pub memcpy : Bytes → ℕ → Bytes → Option Bytes
memcpy to at from =
    if leb (at + length from) (length to)
    then some (take at to ++ (from ++ drop (at + length from) to))
    else none

-- The `n` bytes at offset `at`.
unfoldable pub peek : Bytes → ℕ → ℕ → Option Bytes
peek from at n = if leb (at + n) (length from) then some (take n (drop at from)) else none

-- array[at] = b
unfoldable pub poke : Bytes → ℕ → ℕ → Option Bytes
poke to at b = if ltb at (length to) then some (set to at b) else none

-- What a reader of a `const char*` sees: the bytes before the first zero.
unfoldable pub c_string : Bytes → Bytes
c_string [] = []
c_string (b ∷ bs) = if b == 0 then [] else b ∷ c_string bs

pub c_string-append_zero : (s rest : Bytes) → All (λ b. b ≢ 0) s → c_string (s ++ 0 ∷ rest) ≡ s
unfolding c_string
c_string-append_zero [] rest h = refl
c_string-append_zero (b ∷ s) rest h = ground (arith, c_string-append_zero s rest h.1)

drop-nil : (n : ℕ) → drop {A = ℕ} n [] ≡ []
drop-nil zero = refl
drop-nil (suc n) = refl

drop-drop : (n m : ℕ) (xs : Bytes) → drop (n + m) xs ≡ drop m (drop n xs)
drop-drop zero m xs = ap (λ (k : ℕ). drop k xs) (omega arith)
drop-drop (suc n) m [] = drop-nil (suc n + m) ∙ sym (drop-nil m)
drop-drop (suc n) m (x ∷ xs) =
    ap (λ (k : ℕ). drop k (x ∷ xs)) (let e : suc n + m ≡ suc (n + m) = omega arith in e)
    ∙ drop-drop n m xs

-- A copy right behind what is already written.
pub memcpy-append :
    (done free from : Bytes)
    → length from ≤ length free
    → memcpy (done ++ free) (length done) from ≡ some ((done ++ from) ++ drop (length from) free)
unfolding memcpy
memcpy-append done free from h =
    rw
      (
        le→leb (length done + length from) (length (done ++ free))
            (omega (arith, length-append done free)),
        take-append done free,
        drop-drop (length done) (length from) (done ++ free),
        drop-append done free,
      )
      (ap some (
        let e : done ++ (from ++ drop (length from) free)
            ≡ (done ++ from) ++ drop (length from) free =
          simp append_assoc in
        e))

pub memcpy-fills :
    (done free from : Bytes)
    → length from ≡ length free
    → memcpy (done ++ free) (length done) from ≡ some (done ++ from)
memcpy-fills done free from h =
    memcpy-append done free from (omega arith) ∙ rw (h, drop_end free) (ap some (append-nil _))
  where
    drop_end : (xs : Bytes) → drop (length xs) xs ≡ []
    drop_end [] = refl
    drop_end (x ∷ xs) = drop_end xs

pub peek-append :
    (before middle after : Bytes)
    → peek (before ++ (middle ++ after)) (length before) (length middle) ≡ some middle
unfolding peek
peek-append before middle after = rw (
  le→leb (length before + length middle) (length (before ++ (middle ++ after)))
      (omega (arith, length-append before (middle ++ after), length-append middle after)),
  drop-append before (middle ++ after),
  take-append middle after,
)

set-append :
    (s : Bytes) (old new : ℕ) (rest : Bytes)
    → set (s ++ old ∷ rest) (length s) new ≡ s ++ new ∷ rest
set-append [] old new rest = refl
set-append (x ∷ s) old new rest = ap (◌∷◌ x) (set-append s old new rest)

pub poke-append :
    (s : Bytes) (old new : ℕ) (rest : Bytes)
    → poke (s ++ old ∷ rest) (length s) new ≡ some (s ++ new ∷ rest)
unfolding poke
poke-append s old new rest = rw (
  lt→ltb (length s) (length (s ++ old ∷ rest)) (omega (arith, length-append s (old ∷ rest))),
  set-append s old new rest,
)

-- The sizes of arrays never change.
pub length-memcpy :
    (to : Bytes) (at : ℕ) (from : Bytes) {r : Bytes}
    → memcpy to at from ≡ some r
    → length r ≡ length to
unfolding memcpy
length-memcpy to at from h = ground (
  arith,
  length-append (take at to) (from ++ drop (at + length from) to),
  length-append from (drop (at + length from) to),
  length-take at to,
  length-drop (at + length from) to,
  ap {B = Option ℕ} (λ (o : Option Bytes). Option_map_length o) h,
)
  where
    Option_map_length : Option Bytes → Option ℕ
    Option_map_length none = none
    Option_map_length (some b) = some (length b)
