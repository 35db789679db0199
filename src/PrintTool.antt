-- ===== src/PrintTool.antt =====
-- `PrintTool` of include/lyf.h: what is printed, where each argument or element is what `<<` makes of it,
-- and the delimiter, which is a variable of the file.
use boost_asio.Common.{
  ◌≡◌, refl, ap, ◌∙◌, Bool, true, false, List, [], ◌∷◌, ◌++◌, Bytes, if◌then◌else◌,
}
use boost_asio.Memory.{c_string}
use boost_asio.Logic.{text}

pub record Delimiter : Type 0 where
  pub print_delim : Bytes
  pub delim_is_persist : Bool

-- `std::endl`
abbrev pub endl : Bytes
endl = 10 ∷ []

abbrev pub space : Bytes
space = 32 ∷ []

unfoldable pub set_print_delim : Bytes → Delimiter → Delimiter
set_print_delim delim d = record d { print_delim = delim }

unfoldable pub set_print_delim_persist : Bool → Delimiter → Delimiter
set_print_delim_persist flag d = record d { delim_is_persist = flag }

-- What is printed, and the delimiter afterwards
unfoldable pub print_args : Bytes → List Bytes → Delimiter → Bytes × Delimiter
print_args v [] d =
    (v ++ d.print_delim ++ endl, if d.delim_is_persist then d else record d { print_delim = space })
print_args v (arg ∷ args) d =
    let (printed, d') = print_args arg args d in (v ++ d.print_delim ++ printed, d')

unfoldable pub print_container : List Bytes → Bytes → Bytes
print_container [] delim = endl
print_container (i ∷ v) delim = i ++ delim ++ print_container v delim

-- Of a range: `std::ostream_iterator` is given the delimiter as a C string.
unfoldable pub print_range : List Bytes → Bytes → Bytes
unfolding c_string
print_range [] delim = endl
print_range (i ∷ rest) delim = i ++ c_string delim ++ print_range rest delim

unfoldable pub coloured : Bytes → Bytes → Bytes
coloured code str = code ++ str ++ 27 ∷ text "[0m"

unfoldable pub blue : Bytes → Bytes
unfolding coloured
blue str = coloured (27 ∷ text "[34m") str

unfoldable pub green : Bytes → Bytes
unfolding coloured
green str = coloured (27 ∷ text "[32m") str

unfoldable pub red : Bytes → Bytes
unfolding coloured
red str = coloured (27 ∷ text "[31m") str

printed_as :
    (v : Bytes) (args : List Bytes) (d : Delimiter)
    → (print_args v args d).0 ≡ print_container (v ∷ args) d.print_delim
unfolding print_args print_container
printed_as v [] d = refl
printed_as v (arg ∷ args) d = ap (λ s. v ++ d.print_delim ++ s) (printed_as arg args d)

delimiter_after :
    (v : Bytes) (args : List Bytes) (d : Delimiter)
    → (print_args v args d).1 ≡ (if d.delim_is_persist then d else record d { print_delim = space })
unfolding print_args
delimiter_after v [] d = refl
delimiter_after v (arg ∷ args) d = delimiter_after arg args d

range_as :
    (v : List Bytes) (delim : Bytes) → print_range v delim ≡ print_container v (c_string delim)
unfolding print_range print_container
range_as [] delim = refl
range_as (i ∷ v) delim = ap (λ s. i ++ c_string delim ++ s) (range_as v delim)

chosen :
    (persist : Bool) (delim : Bytes) (d : Delimiter)
    → d ≡ record { print_delim = delim; delim_is_persist = persist }
    → (if d.delim_is_persist then d else record d { print_delim = space }).print_delim
      ≡ (if persist then delim else space)
chosen true delim d e = rw e refl
chosen false delim d e = rw e refl

-- print_args prints its arguments as print_container prints a container of them with the delimiter that was
-- set; the next call prints with that delimiter if it is to persist, and with a space if not; and a range
-- is printed as a container with the delimiter up to its first zero.
pub print_args-print_container :
    (v w : Bytes) (args more : List Bytes) (delim : Bytes) (persist : Bool) (d : Delimiter)
    → ((print_args v args (set_print_delim delim (set_print_delim_persist persist d))).0
        ≡ print_container (v ∷ args) delim)
      × ((print_args w more
            (print_args v args (set_print_delim delim (set_print_delim_persist persist d))).1).0
          ≡ print_container (w ∷ more) (if persist then delim else space))
      × (print_range (v ∷ args) delim ≡ print_container (v ∷ args) (c_string delim))
unfolding set_print_delim set_print_delim_persist
print_args-print_container v w args more delim persist d = (
  printed_as v args (record { print_delim = delim; delim_is_persist = persist }),
  printed_as w more
        (print_args v args (record { print_delim = delim; delim_is_persist = persist })).1
      ∙ ap (λ e. print_container (w ∷ more) e)
          (ap (λ e. e.print_delim)
              (delimiter_after v args (record { print_delim = delim; delim_is_persist = persist }))
            ∙ chosen persist delim _ refl),
  range_as (v ∷ args) delim,
)
