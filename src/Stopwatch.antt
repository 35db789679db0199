-- ===== src/Stopwatch.antt =====
-- include/stopwatch.h. The system's clock is an argument of each operation, in nanoseconds;
-- the division of two doubles is a parameter.
use boost_asio.Common.{
  ℕ, ◌-◌, ◌^◌, leb, le→leb, not, ◌≤◌, ◌≡◌, refl, Bool, true, false, Option, none, some,
  if◌then◌else◌, ◌==◌, Bytes, ◌++◌, [],
}
use boost_asio.Logic.{text}

pub data TimeType : Type 0 where
  ns : TimeType
  us : TimeType
  ms : TimeType
  s : TimeType

-- The value of the enumeration
unfoldable pub rate_of : TimeType → ℕ
rate_of ns = 1
rate_of us = 1000
rate_of ms = 1000000
rate_of s = 1000000000

abbrev pub name_of : TimeType → Bytes
name_of ns = text "ns"
name_of us = text "us"
name_of ms = text "ms"
name_of s = text "s"

pub record Stopwatch : Type 0 where
  pub started : Bool
  pub stopped : Bool
  pub rate : ℕ
  pub begin_time : ℕ
  pub end_time : ℕ
  pub tick : ℕ

-- The constructor reads the clock twice.
unfoldable pub new_stopwatch : ℕ → ℕ → ℕ → Stopwatch
new_stopwatch rate now later = record {
  started = false;
  stopped = false;
  rate = rate;
  begin_time = now;
  end_time = later;
  tick = 0;
}

unfoldable pub reset : Stopwatch → Stopwatch
reset w = record w { started = false; stopped = false; tick = 0 }

unfoldable pub start : ℕ → Stopwatch → Stopwatch
unfolding reset
start now w = record (reset w) { started = true; stopped = false; begin_time = now }

-- A time between two readings of the clock; one that goes back is wrapped to 64 bits.
unfoldable pub elapsed : ℕ → ℕ → ℕ
elapsed from to = if leb from to then to - from else 2 ^ 64 - (from - to)

unfoldable pub stop : ℕ → Stopwatch → Stopwatch
unfolding elapsed
stop now w =
    if not w.started
    then w
    else record w { stopped = true; end_time = now; tick = elapsed w.begin_time now }

-- `none` is the exception.
unfoldable pub duration {ℓ} :
    {Double : Type ℓ} → (ℕ → ℕ → Double) → ℕ → Stopwatch → Option (Double × Stopwatch)
unfolding stop
duration divide now w =
    let stopped_now = record (stop now w) { stopped = true } in
    let w' = if not w.stopped then stopped_now else w in
    if not w.started then none else some (divide w'.tick w'.rate, w')

-- auto_stopwatch, from its constructor to the call of `duration` in its destructor
unfoldable pub auto_duration {ℓ} :
    {Double : Type ℓ} → (ℕ → ℕ → Double) → ℕ → ℕ → ℕ → ℕ → ℕ → Option (Double × Stopwatch)
unfolding new_stopwatch start duration
auto_duration divide rate a b from to = duration divide to (start from (new_stopwatch rate a b))

-- operator<< of TimeType, on the value of an enumerator
unfoldable pub unit_text : ℕ → Bytes
unit_text type =
    if type == 1
    then text "ns"
    else if type == 1000
    then text "us"
    else if type == 1000000
    then text "ms"
    else if type == 1000000000
    then text "s"
    else []

abbrev pub after_duration {ℓ} :
    {Double : Type ℓ} → (Double → Bytes) → Option (Double × Stopwatch) → Option Bytes
after_duration show none = none
after_duration show (some (d, w)) =
    some (text "duration time: " ++ (show d ++ (unit_text w.rate ++ text "\n")))

-- What auto_stopwatch prints in its destructor, with the text of a double
unfoldable pub auto_output {ℓ} :
    {Double : Type ℓ} → (ℕ → ℕ → Double) → (Double → Bytes) → ℕ → ℕ → ℕ → ℕ → ℕ → Option Bytes
unfolding auto_duration unit_text
auto_output divide show rate a b from to =
    after_duration show (auto_duration divide rate a b from to)

module _ {ℓ} {Double : Type ℓ} (divide : ℕ → ℕ → Double) where
  -- After start at one time and a first call of duration at a later one, that call and every further
  -- one, at whatever time, return the time between those two in the unit of the stopwatch: the first
  -- call stops it for good.
  pub duration-frozen :
      (w : Stopwatch) (from to later : ℕ)
      → from ≤ to
      → (w' : Stopwatch) × (duration divide to (start from w)
          ≡ some (divide (to - from) w.rate, w'))
        × (duration divide later w' ≡ some (divide (to - from) w.rate, w'))
        × (w'.stopped ≡ true)
  unfolding duration start stop elapsed reset
  duration-frozen w from to later h = (
    record w { started = true; stopped = true; begin_time = from; end_time = to; tick = to - from },
    (rw (le→leb from to h) refl),
    refl,
    refl,
  )

  -- An auto_stopwatch of an enumerated type prints the time between its construction and its destruction in
  -- that unit, with the unit behind it.
  pub auto_output-rate_of :
      (show : Double → Bytes) (type : TimeType) (a b from to : ℕ)
      → from ≤ to
      → auto_output divide show (rate_of type) a b from to
        ≡ some (
            text "duration time: "
            ++ (show (divide (to - from) (rate_of type)) ++ (name_of type ++ text "\n")))
  unfolding auto_output auto_duration duration start stop elapsed reset new_stopwatch unit_text
      rate_of
  auto_output-rate_of show ns a b from to h = rw (le→leb from to h) refl
  auto_output-rate_of show us a b from to h = rw (le→leb from to h) refl
  auto_output-rate_of show ms a b from to h = rw (le→leb from to h) refl
  auto_output-rate_of show s a b from to h = rw (le→leb from to h) refl
