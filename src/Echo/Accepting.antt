-- ===== src/Echo/Accepting.antt =====
-- The accept loops of src/01_base/server.cpp and src/main.cpp. An accept that throws leaves the loop of
-- `server`, and ends the coroutine of `listener`, whose exception nothing looks at.
use mathlib.Core.List.{append-nil}
use boost_asio.Common.{
  ◌≡◌, refl, ap, ◌∙◌, Bool, true, false, Option, none, some, List, [], ◌∷◌, ◌++◌, Bytes, map,
}
use boost_asio.Echo.{Read, Turn, End, session, handler}

-- What the sessions that were started have sent back, and whether another connection is waited for
pub record Accepted {ℓ} (A : Type ℓ) : Type ℓ where
  pub answers : List A
  pub is_accepting : Bool

abbrev pub started {ℓ} : {A : Type ℓ} → A → Accepted A → Accepted A
started answer rest = record rest { answers = answer ∷ rest.answers }

-- `server`: of each accept, the turns of the session on its own thread, or `none` where it throws
unfoldable pub server : List (Option (List Turn)) → Accepted (Option (List Bytes × End))
unfolding session
server [] = record { answers = []; is_accepting = true }
server (none ∷ accepts) = record { answers = []; is_accepting = false }
server (some turns ∷ accepts) = started (session turns) (server accepts)

-- `listener`: of each accept, what the handler reads and whether its write succeeds, or `none` where
-- `async_accept` or `remote_endpoint` throws
unfoldable pub listener : List (Option (Read × Bool)) → Accepted (List Bytes × End)
unfolding handler
listener [] = record { answers = []; is_accepting = true }
listener (none ∷ accepts) = record { answers = []; is_accepting = false }
listener (some (read, writes) ∷ accepts) = started (handler read writes) (listener accepts)

server-before :
    (good : List (List Turn)) (rest : List (Option (List Turn)))
    → server (map some good ++ rest)
      ≡ record (server rest) { answers = map session good ++ (server rest).answers }
unfolding server
server-before [] rest = refl
server-before (turns ∷ good) rest = ap (started (session turns)) (server-before good rest)

listener-before :
    (good : List (Read × Bool)) (rest : List (Option (Read × Bool)))
    → listener (map some good ++ rest) ≡ record (listener rest) {
      answers = map (λ a. handler a.0 a.1) good ++ (listener rest).answers;
    }
unfolding listener
listener-before [] rest = refl
listener-before ((read, writes) ∷ good) rest =
    ap (started (handler read writes)) (listener-before good rest)

-- Both start a session for each connection until an accept throws, and none afterwards.
pub server-listener :
    (good : List (List Turn)) (later : List (Option (List Turn))) (reads : List (Read × Bool))
    (later_reads : List (Option (Read × Bool)))
    → (server (map some good ++ none ∷ later)
        ≡ record { answers = map session good; is_accepting = false })
      × (listener (map some reads ++ none ∷ later_reads)
          ≡ record { answers = map (λ a. handler a.0 a.1) reads; is_accepting = false })
unfolding server listener
server-listener good later reads later_reads = (
  server-before good (none ∷ later) ∙ rw (append-nil (map session good)) refl,
  listener-before reads (none ∷ later_reads)
      ∙ rw (append-nil (map (λ a. handler a.0 a.1) reads)) refl,
)
