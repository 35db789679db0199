-- ===== src/Http/Accepting.antt =====
-- src/03_beast-http/RunServer.cpp: the loop that accepts connections. `remote_endpoint` throws if the peer
-- has gone, out of `ioc.run()`, which ends the program; that is `none`.
use boost_asio.Common.{
  ℕ, suc, ◌≡◌, refl, sym, ap, ◌∙◌, Bool, true, false, not, ◌&&◌, ◌||◌, Option, none, some, ◌>>=◌,
  List, [], ◌∷◌, ◌++◌, if◌then◌else◌,
}
use mathlib.Core.List.{append_assoc, append-nil}
use boost_asio.Pool.{replicate}
use boost_asio.Http.{HttpConnection, start_connection}

-- One accept: its error code, and whether the peer is still there
abbrev pub Accept : Type 0
Accept = Bool × Bool

-- The handler in `httpSever`, with the connections that were started
unfoldable pub on_http_accept : Accept → List HttpConnection → Option (List HttpConnection)
unfolding start_connection
on_http_accept (true, has_endpoint) connections = some connections
on_http_accept (false, true) connections = some (connections ++ start_connection ∷ [])
on_http_accept (false, false) connections = none

-- Its calls of itself
unfoldable pub http_sever : List Accept → List HttpConnection → Option (List HttpConnection)
unfolding on_http_accept
http_sever [] connections = some connections
http_sever (accept ∷ accepts) connections = do
  connections' ← on_http_accept accept connections
  http_sever accepts connections'

-- How many accepts have no error
abbrev pub accepted : List Accept → ℕ
accepted [] = 0
accepted ((ec, _) ∷ accepts) = if ec then accepted accepts else suc (accepted accepts)

-- Whether a peer has gone before its connection is looked at
abbrev pub any_gone : List Accept → Bool
any_gone [] = false
any_gone ((ec, has_endpoint) ∷ accepts) = (not ec && not has_endpoint) || any_gone accepts

some_if :
    (b : Bool) (f : List HttpConnection) (g : List HttpConnection)
    → f ≡ g
    → (if b then none else some f) ≡ (if b then none else some g)
some_if b f g e = ap (λ c. if b then none else some c) e

serve_from :
    (accepts : List Accept) (connections : List HttpConnection)
    → http_sever accepts connections ≡ (
        if any_gone accepts
        then none
        else some (connections ++ replicate (accepted accepts) start_connection))
unfolding http_sever on_http_accept
serve_from [] connections = ap (λ c. some c) (sym (append-nil connections))
serve_from ((true, has_endpoint) ∷ accepts) connections = serve_from accepts connections
serve_from ((false, true) ∷ accepts) connections =
    serve_from accepts (connections ++ start_connection ∷ [])
    ∙ some_if (any_gone accepts) _ _ (
        append_assoc connections (start_connection ∷ [])
          (replicate (accepted accepts) start_connection))
serve_from ((false, false) ∷ accepts) connections = refl

-- A peer that has gone before its connection is looked at ends the server. If there is none, one connection
-- is started for each accept with no error.
pub http_sever-accepted :
    (accepts : List Accept)
    → http_sever accepts []
      ≡ (if any_gone accepts then none else some (replicate (accepted accepts) start_connection))
http_sever-accepted accepts = serve_from accepts []
