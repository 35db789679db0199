-- ===== src/Users.antt =====
-- src/05_ftp/include/UserManager.h: the table of the users' sessions.
pub mod Table
use boost_asio.Common.{
  ℕ, ◌≡◌, refl, ◌∙◌, Bool, true, false, Option, none, some, List, [], ◌∷◌, if◌then◌else◌, arith,
}
use boost_asio.Map.{find, assign, erase, find-assign, find-erase, nat_eq}
use boost_asio.Common

-- A session is named by its id.
pub record UserManager : Type 0 where
  pub uid_to_session : List (ℕ × ℕ)

-- GetUserSession; `none` is the null pointer.
unfoldable pub get_user_session : ℕ → UserManager → Option ℕ
get_user_session uid m = elim (find uid m.uid_to_session) [
  | none ↦ none
  | some session ↦ some session
]

-- SetUserSession
unfoldable pub set_user_session : ℕ → ℕ → UserManager → UserManager
set_user_session uid session m = record m { uid_to_session = assign uid session m.uid_to_session }

-- RemoveUserSession
unfoldable pub remove_user_session : ℕ → UserManager → UserManager
remove_user_session uid m = record m { uid_to_session = erase uid m.uid_to_session }

-- The calls that change the table
pub data Change : Type 0 where
  logs_in : ℕ → ℕ → Change
  logs_out : ℕ → Change

unfoldable pub apply_all : List Change → UserManager → UserManager
unfolding set_user_session remove_user_session
apply_all [] m = m
apply_all (logs_in uid session ∷ cs) m = apply_all cs (set_user_session uid session m)
apply_all (logs_out uid ∷ cs) m = apply_all cs (remove_user_session uid m)

-- The session that the last of some changes for a user leaves, or else `d`
unfoldable pub last_session : ℕ → Option ℕ → List Change → Option ℕ
last_session uid d [] = d
last_session uid d (logs_in j session ∷ cs) =
    last_session uid (if Common.◌==◌ j uid then some session else d) cs
last_session uid d (logs_out j ∷ cs) = last_session uid (if Common.◌==◌ j uid then none else d) cs

-- After any calls, GetUserSession returns the session that the last of them for the user has set,
-- nothing if that call was a removal, and what was there if no call was for the user.
pub get_user_session-apply_all :
    (uid : ℕ) (cs : List Change) (m : UserManager)
    → get_user_session uid (apply_all cs m) ≡ last_session uid (get_user_session uid m) cs
unfolding get_user_session apply_all last_session set_user_session remove_user_session
get_user_session-apply_all uid [] m = refl
get_user_session-apply_all uid (logs_in j session ∷ cs) m =
    get_user_session-apply_all uid cs (set_user_session j session m)
    ∙ Common.ap (λ d. last_session uid d cs)
        (ground (arith, find-assign j uid session m.uid_to_session))
get_user_session-apply_all uid (logs_out j ∷ cs) m =
    get_user_session-apply_all uid cs (remove_user_session j m)
    ∙ Common.ap (λ d. last_session uid d cs) (ground (arith, find-erase j uid m.uid_to_session))
