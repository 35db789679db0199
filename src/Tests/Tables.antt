-- ===== src/Tests/Tables.antt =====
-- The table of src/05_ftp/include/UserManager.h, called from two threads.
use mathlib.Core.Quot
use boost_asio.Common.{
  ℕ, ◌≡◌, refl, ◌⊎◌, inl, inr, Bool-cases, none, List, [], ◌∷◌, ◌++◌, ==_iff, arith,
}
use boost_asio.Common
use boost_asio.Users.{Change, logs_in, logs_out, last_session}
use boost_asio.Users.Table.{
  UserTable, session_in, apply_calls, Merge, both_done, first_calls, second_calls, IsApart,
  apply_calls-Merge,
}

abbrev first_thread : List Change
first_thread = logs_in 1 7 ∷ []

abbrev second_thread : List Change
second_thread = logs_in 2 8 ∷ logs_out 2 ∷ []

abbrev merged : List Change
merged = logs_in 2 8 ∷ logs_in 1 7 ∷ logs_out 2 ∷ []

merged-Merge : Merge first_thread second_thread merged
merged-Merge =
    second_calls (logs_in 2 8) (first_calls (logs_in 1 7) (second_calls (logs_out 2) both_done))

threads-IsApart : IsApart first_thread second_thread
threads-IsApart uid = elim (Bool-cases (Common.◌==◌ 1 uid)) [
  | inl same ↦ inr (ground (arith, ==_iff 1 uid), (ground (arith, ==_iff 1 uid), tt))
  | inr other ↦ inl (ground (arith, ==_iff 1 uid), tt)
]

abbrev empty_table : UserTable
empty_table = Quot.mk (record { uid_to_session = [] })

apply_calls-Merge_example :
    (apply_calls merged empty_table ≡ apply_calls (first_thread ++ second_thread) empty_table)
    × ((uid : ℕ)
        → session_in uid (apply_calls merged empty_table)
          ≡ last_session uid (session_in uid empty_table) merged)
apply_calls-Merge_example =
    apply_calls-Merge first_thread second_thread merged empty_table merged-Merge threads-IsApart
