-- ===== src/Users/Table.antt =====
-- The table of src/05_ftp/include/UserManager.h as its users see it: which session each user has, and not
-- the order in which the map holds them. Each call holds the lock, so that the calls of two threads are
-- merged.
use mathlib.Core.Quot
use mathlib.Core.Quot.{Quot, Quot-set}
use boost_asio.Common.{
  ℕ, ◌≡◌, ◌≢◌, refl, sym, ap, ◌∙◌, ◌⊎◌, inl, inr, Option, none, some, List, [], ◌∷◌, ◌++◌, All,
  if◌then◌else◌, arith,
}
use boost_asio.Common
use boost_asio.Users.{
  UserManager, get_user_session, Change, logs_in, logs_out, apply_all, last_session,
  get_user_session-apply_all,
}

abbrev pub SameSessions : UserManager → UserManager → Type 0
SameSessions m n = (uid : ℕ) → get_user_session uid m ≡ get_user_session uid n

abbrev pub UserTable : Type 0
UserTable = Quot SameSessions

unfoldable pub session_in : ℕ → UserTable → Option ℕ
session_in uid = Quot.lift (hlevel) (get_user_session uid) (λ m n same. same uid)

pub apply_all-same :
    (cs : List Change) (m n : UserManager)
    → SameSessions m n
    → SameSessions (apply_all cs m) (apply_all cs n)
apply_all-same cs m n same uid =
    get_user_session-apply_all uid cs m
    ∙ ap (λ d. last_session uid d cs) (same uid)
    ∙ sym (get_user_session-apply_all uid cs n)

-- Some calls on the table
unfoldable pub apply_calls : List Change → UserTable → UserTable
apply_calls cs =
    Quot.lift Quot-set (λ m. Quot.mk (apply_all cs m))
      (λ m n same. Quot.sound (apply_all-same cs m n same))

-- The orders in which the calls of two threads can come
pub data Merge : List Change → List Change → List Change → Type 0 where
  both_done : Merge [] [] []
  first_calls : {cs ds es : List Change} (c : Change) → Merge cs ds es → Merge (c ∷ cs) ds (c ∷ es)
  second_calls : {cs ds es : List Change} (d : Change) → Merge cs ds es → Merge cs (d ∷ ds) (d ∷ es)

abbrev pub user_of : Change → ℕ
user_of (logs_in uid session) = uid
user_of (logs_out uid) = uid

abbrev pub Leaves : ℕ → List Change → Type 0
Leaves uid cs = All (λ c. user_of c ≢ uid) cs

-- No user is in the calls of both threads.
abbrev pub IsApart : List Change → List Change → Type 0
IsApart cs ds = (uid : ℕ) → Leaves uid cs ⊎ Leaves uid ds

last_session-other :
    (uid : ℕ) (c : Change) (d : Option ℕ) (cs : List Change)
    → user_of c ≢ uid
    → last_session uid d (c ∷ cs) ≡ last_session uid d cs
unfolding last_session
last_session-other uid (logs_in j session) d cs other = ground arith
last_session-other uid (logs_out j) d cs other = ground arith

last_session-Leaves :
    (uid : ℕ) (d : Option ℕ) (cs : List Change) → Leaves uid cs → last_session uid d cs ≡ d
unfolding last_session
last_session-Leaves uid d [] away = refl
last_session-Leaves uid d (c ∷ cs) away =
    last_session-other uid c d cs away.0 ∙ last_session-Leaves uid d cs away.1

-- What one call makes of a user's session
abbrev effect : ℕ → Option ℕ → Change → Option ℕ
effect uid d (logs_in j session) = if Common.◌==◌ j uid then some session else d
effect uid d (logs_out j) = if Common.◌==◌ j uid then none else d

last_session-next :
    (uid : ℕ) (c : Change) (d : Option ℕ) (cs : List Change)
    → last_session uid d (c ∷ cs) ≡ last_session uid (effect uid d c) cs
unfolding last_session
last_session-next uid (logs_in j session) d cs = refl
last_session-next uid (logs_out j) d cs = refl

last_session-append :
    (uid : ℕ) (d : Option ℕ) (cs ds : List Change)
    → last_session uid d (cs ++ ds) ≡ last_session uid (last_session uid d cs) ds
unfolding last_session
last_session-append uid d [] ds = refl
last_session-append uid d (c ∷ cs) ds =
    last_session-next uid c d (cs ++ ds)
    ∙ last_session-append uid (effect uid d c) cs ds
    ∙ ap (λ o. last_session uid o ds) (sym (last_session-next uid c d cs))

-- A user is left as by the thread whose calls are for that user.
last_session-second :
    {cs ds es : List Change} (uid : ℕ) (d : Option ℕ)
    → Merge cs ds es
    → Leaves uid cs
    → last_session uid d es ≡ last_session uid d ds
last_session-second uid d both_done away = refl
last_session-second uid d (first_calls c m) away =
    last_session-other uid c d _ away.0 ∙ last_session-second uid d m away.1
last_session-second uid d (second_calls c m) away =
    last_session-next uid c d _
    ∙ last_session-second uid (effect uid d c) m away
    ∙ sym (last_session-next uid c d _)

last_session-first :
    {cs ds es : List Change} (uid : ℕ) (d : Option ℕ)
    → Merge cs ds es
    → Leaves uid ds
    → last_session uid d es ≡ last_session uid d cs
last_session-first uid d both_done away = refl
last_session-first uid d (second_calls c m) away =
    last_session-other uid c d _ away.0 ∙ last_session-first uid d m away.1
last_session-first uid d (first_calls c m) away =
    last_session-next uid c d _
    ∙ last_session-first uid (effect uid d c) m away
    ∙ sym (last_session-next uid c d _)

last_session-Merge :
    {cs ds es : List Change} (uid : ℕ) (d : Option ℕ)
    → Merge cs ds es
    → IsApart cs ds
    → last_session uid d es ≡ last_session uid d (cs ++ ds)
last_session-Merge {cs = cs} {ds = ds} uid d m apart = elim (apart uid) [
  | inl away ↦
      last_session-second uid d m away
      ∙ ap (λ o. last_session uid o ds) (sym (last_session-Leaves uid d cs away))
      ∙ sym (last_session-append uid d cs ds)
  | inr away ↦
      last_session-first uid d m away
      ∙ sym (last_session-Leaves uid (last_session uid d cs) ds away)
      ∙ sym (last_session-append uid d cs ds)
]

-- Two tables are equal when every user has the same session in both.
pub UserTable-ext : (t u : UserTable) → ((uid : ℕ) → session_in uid t ≡ session_in uid u) → t ≡ u
unfolding session_in
UserTable-ext =
    Quot.ind (λ t. hlevel (Quot-set))
      (λ m. Quot.ind (λ u. hlevel (Quot-set)) (λ n same. Quot.sound same))

-- Whatever the order in which the calls of two threads come, if no user is in the calls of both: the table is
-- the same as after all calls of the first thread and then all of the second; and each user has the
-- session that the last call for that user has set, none if that was a removal, and the same as before
-- if there was no such call.
pub apply_calls-Merge :
    (cs ds es : List Change) (t : UserTable)
    → Merge cs ds es
    → IsApart cs ds
    → (apply_calls es t ≡ apply_calls (cs ++ ds) t)
      × ((uid : ℕ) → session_in uid (apply_calls es t) ≡ last_session uid (session_in uid t) es)
unfolding apply_calls session_in
apply_calls-Merge cs ds es t m apart = (
  Quot.ind {β = λ t. apply_calls es t ≡ apply_calls (cs ++ ds) t} (λ t. Quot-set _ _)
      (λ n. Quot.sound (λ uid.
        get_user_session-apply_all uid es n
        ∙ last_session-Merge uid (get_user_session uid n) m apart
        ∙ sym (get_user_session-apply_all uid (cs ++ ds) n)))
      t,
  λ uid.
      Quot.ind {β = λ t. session_in uid (apply_calls es t) ≡ last_session uid (session_in uid t) es}
        (λ t. hlevel) (λ n. get_user_session-apply_all uid es n) t,
)
