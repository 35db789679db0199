-- ===== src/WebSocket/Accepting.antt =====
-- src/04_beast-websocket/WebSocketServer.h: the loop that accepts connections. Whether a new connection can
-- be made is an argument, since an exception of its parts is caught.
use boost_asio.Common.{
  ℕ, ◌≡◌, refl, sym, ◌∙◌, Bool, true, false, Option, none, some, ◌>>=◌, List, [], ◌∷◌, ◌++◌,
  if◌then◌else◌,
}
use mathlib.Core.List.{append_assoc, append-nil}
use boost_asio.WebSocket.{Connection, new_connection}

-- The connections whose AsyncAccept was called, and the one that waits
pub record WebSocketServer : Type 0 where
  pub shaking_hands : List Connection
  pub accepting : Option Connection

-- The constructor
unfoldable pub new_server : WebSocketServer
new_server = record { shaking_hands = []; accepting = none }

-- WebSocketServer::StartAccept; `uid` is `none` where the connection cannot be made.
unfoldable pub start_accept : Option ℕ → WebSocketServer → WebSocketServer
unfolding new_connection
start_accept none srv = record srv { accepting = none }
start_accept (some uid) srv = record srv { accepting = some (new_connection uid) }

-- The handler of its `async_accept`. `none`: nothing is waited for.
unfoldable pub on_tcp_accept : Bool → Option ℕ → WebSocketServer → Option WebSocketServer
unfolding start_accept
on_tcp_accept failed uid srv = do
  connection ← srv.accepting
  let accepted : WebSocketServer = record srv {
    shaking_hands = srv.shaking_hands ++ connection ∷ [];
  }
  some (start_accept uid (if failed then srv else accepted))

-- What the accepts come to: an error or not, and the next connection
unfoldable pub serve : List (Bool × Option ℕ) → WebSocketServer → Option WebSocketServer
unfolding on_tcp_accept
serve [] srv = some srv
serve ((failed, uid) ∷ accepts) srv = do srv' ← on_tcp_accept failed uid srv; serve accepts srv'

-- The connection `uid` and those that follow it, without those whose accept failed
abbrev pub accepted : ℕ → List (Bool × ℕ) → List Connection
accepted uid [] = []
accepted uid ((failed, next) ∷ accepts) =
    (if failed then [] else new_connection uid ∷ []) ++ accepted next accepts

abbrev pub last_uid : ℕ → List (Bool × ℕ) → ℕ
last_uid uid [] = uid
last_uid uid ((_, next) ∷ accepts) = last_uid next accepts

abbrev pub makes_all : List (Bool × ℕ) → List (Bool × Option ℕ)
makes_all [] = []
makes_all ((failed, next) ∷ accepts) = (failed, some next) ∷ makes_all accepts

serve-more :
    (accepts : List (Bool × ℕ)) (more : List (Bool × Option ℕ)) (uid : ℕ) (before : List Connection)
    → serve
        (makes_all accepts ++ more)
        (record { shaking_hands = before; accepting = some (new_connection uid) })
      ≡ serve more (record {
        shaking_hands = before ++ accepted uid accepts;
        accepting = some (new_connection (last_uid uid accepts));
      })
unfolding serve on_tcp_accept start_accept
serve-more [] more uid before = rw (append-nil before) refl
serve-more ((true, next) ∷ accepts) more uid before = serve-more accepts more next before
serve-more ((false, next) ∷ accepts) more uid before =
    serve-more accepts more next (before ++ new_connection uid ∷ [])
    ∙ rw (append_assoc before (new_connection uid ∷ []) (accepted next accepts)) refl

-- While every next connection can be made, each connection whose accept succeeds goes on to its handshake,
-- in their order, and another is waited for. Once one cannot be made, nothing is waited for any more, and
-- no further connection is accepted.
pub serve-accepted :
    (uid : ℕ) (accepts : List (Bool × ℕ)) (failed later_failed : Bool) (later : Option ℕ)
    → (serve (makes_all accepts) (start_accept (some uid) new_server)
        ≡ some (record {
          shaking_hands = accepted uid accepts;
          accepting = some (new_connection (last_uid uid accepts));
        }))
      × (serve
            (makes_all accepts ++ (failed, none) ∷ (later_failed, later) ∷ [])
            (start_accept (some uid) new_server)
          ≡ none)
unfolding serve on_tcp_accept start_accept new_server
serve-accepted uid accepts failed later_failed later = (
  rw (sym (append-nil (makes_all accepts))) (serve-more accepts [] uid []),
  serve-more accepts ((failed, none) ∷ (later_failed, later) ∷ []) uid [],
)
