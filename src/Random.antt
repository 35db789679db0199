-- ===== src/Random.antt =====
-- `getRandom` and `assure` of include/lyf.h. The generator and the distribution are those of the standard
-- library: a draw gives a number and the generator's next state. Each type has static variables of its own.
use boost_asio.Common.{
  ◌≡◌, sym, Bool, true, Option, none, some, ◌>>=◌, List, [], ◌∷◌, if◌then◌else◌, All, bind-eq-some,
  some-injective, Bytes, Bool-cases, inl, inr,
}
use boost_asio.Memory.{c_string}

-- A draw is from the closed interval, as `std::uniform_int_distribution` documents.
pub record Library (T : Type 0) : Type 1 where
  pub Gen : Type 0
  pub le : T → T → Bool
  -- `gen(rd())`
  pub seeded : Gen
  pub uniform : T → T → Gen → T × Gen
  pub inside :
      (a b : T) (g : Gen)
      → le a b ≡ true
      → (le a (uniform a b g).0 ≡ true) × (le (uniform a b g).0 b ≡ true)

module _ {T : Type 0} (l : Library T) where
  open l use {Gen, le, seeded, uniform, inside}

  -- The static variables, which are made in the first call
  pub record Statics : Type 0 where
    pub gen : Gen
    pub dis : T × T

  abbrev pub made : T → T → Option Statics → Statics
  made begin end none = record { gen = seeded; dis = (begin, end) }
  made begin end (some s) = s

  -- getRandom; an assertion that fails ends the program.
  unfoldable pub get_random : T → T → Option Statics → Option (T × Option Statics)
  get_random begin end s =
      let v = made begin end s in
      let (x, g) = uniform v.dis.0 v.dis.1 v.gen in
      if le begin end then some (x, some (record v { gen = g })) else none

  -- Calls with some bounds, one after the other
  unfoldable pub get_all : List (T × T) → Option Statics → Option (List T)
  unfolding get_random
  get_all [] s = some []
  get_all ((begin, end) ∷ calls) s = do
    (x, s') ← get_random begin end s
    xs ← get_all calls s'
    some (x ∷ xs)

  abbrev pub IsBetween : T → T → T → Type 0
  IsBetween a b x = (le a x ≡ true) × (le x b ≡ true)

  get_all-kept :
      (calls : List (T × T)) (s : Statics) (xs : List T)
      → le s.dis.0 s.dis.1 ≡ true
      → get_all calls (some s) ≡ some xs
      → All (IsBetween s.dis.0 s.dis.1) xs
  unfolding get_all get_random
  get_all-kept [] s xs ordered ran = rw (sym (some-injective ran)) tt
  get_all-kept ((begin, end) ∷ calls) s xs ordered ran =
      let (x, g) = uniform s.dis.0 s.dis.1 s.gen in
      let s' : Statics = record s { gen = g } in
      elim (Bool-cases (le begin end)) [
        | inl asserted ↦
            let (rest, drawn, same) =
              bind-eq-some (get_all calls (some s')) (λ xs. some (x ∷ xs)) (rw asserted at ran) in
            rw (sym (some-injective same))
              (inside s.dis.0 s.dis.1 s.gen ordered, get_all-kept calls s' rest ordered drawn)
        | inr aborted ↦ let nothing : none ≡ some xs = rw aborted at ran in absurd (cc)
      ]

  -- Every number is from the closed interval of the first call, whatever the bounds of the later ones.
  pub get_all-first :
      (begin end : T) (calls : List (T × T)) (xs : List T)
      → get_all ((begin, end) ∷ calls) none ≡ some xs
      → All (IsBetween begin end) xs
  unfolding get_all get_random
  get_all-first begin end calls xs ran = elim (Bool-cases (le begin end)) [
    | inl ordered ↦
        get_all-kept ((begin, end) ∷ calls) (record { gen = seeded; dis = (begin, end) }) xs ordered
          ran
    | inr aborted ↦ let nothing : none ≡ some xs = rw aborted at ran in absurd (cc)
  ]

-- `assure`: the text of what is thrown, if anything is; it is read up to its first zero.
unfoldable pub assure : Bool → Bytes → Option Bytes
unfolding c_string
assure condition what = if condition then none else some (c_string what)
