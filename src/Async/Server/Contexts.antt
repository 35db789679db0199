-- ===== src/Async/Server/Contexts.antt =====
-- The states that the server of src/02_async comes to before a signal, and the contexts that its sessions
-- run on.
use boost_asio.Common.{
  ℕ, ◌<◌, ◌≡◌, refl, sym, ap, ◌∙◌, Bool, true, false, Option, none, some, inl, inr, some-injective,
  List, [], ◌∷◌, All, arith, ◌==◌, Bool-cases,
}
use boost_asio.Map.{find, assign, nat_eq}
use boost_asio.Wire.Host.{Host}
use boost_asio.Pool.{replicate}
use boost_asio.Async.Wire.{Outcome, ok, throws, fault, ◌>>=◌, checked}
use boost_asio.Async.Session.{Session, Read, reading_head, new_session, resume_at}
use boost_asio.Async.Pool.{IoServicePool, new_pool, get_io_service}
use boost_asio.Async.Server.{
  Connection, Server, start_accept, listening, new_server, save_session, handler_accept, resume,
}

-- What the acceptor and the sessions do to a server with a pool of `size` contexts, in any order
pub data Reaches (h : Host) (size : ℕ) : Server → Type 0 where
  starts : (id : ℕ) {srv : Server} → new_server h size id ≡ ok srv → Reaches h size srv
  accepts :
      (next : ℕ) (ec has_endpoint : Bool) {srv srv' : Server}
      → Reaches h size srv
      → handler_accept h next ec has_endpoint srv ≡ ok srv'
      → Reaches h size srv'
  resumes :
      (id : ℕ) (read : Read) {srv srv' : Server}
      → Reaches h size srv
      → resume h id read srv ≡ ok srv'
      → Reaches h size srv'

abbrev pub RunsBelow : ℕ → ℕ × Connection → Type 0
RunsBelow size o = o.1.io < size

-- No thread has been joined, and every session runs on a context of the pool.
pub record Inv (size : ℕ) (srv : Server) : Type 0 where
  pub same_size : srv.pool.size ≡ size
  pub running : srv.pool.joined ≡ replicate size false
  pub objects_below : All (RunsBelow size) srv.objects
  pub accepting_below : (conn : Connection) → srv.accepting ≡ some conn → conn.io < size

ok-injective {ℓ} : {A : Type ℓ} {a b : A} → ok a ≡ ok b → a ≡ b
ok-injective e = cc

bind-eq-ok {ℓ κ} :
    {A : Type ℓ} {B : Type κ} (m : Outcome A) (f : A → Outcome B) {b : B}
    → (m >>= f) ≡ ok b
    → (a : A) × (m ≡ ok a) × (f a ≡ ok b)
bind-eq-ok (ok a) f e = (a, refl, e)
bind-eq-ok throws f e = absurd (cc)
bind-eq-ok fault f e = absurd (cc)

checked-eq-ok {ℓ} : {A : Type ℓ} (o : Option A) {a : A} → checked o ≡ ok a → o ≡ some a
checked-eq-ok none e = absurd (cc)
checked-eq-ok (some a) e = ap some (ok-injective e)

get_io_service-below :
    (p : IoServicePool) (io : ℕ) (q : IoServicePool)
    → get_io_service p ≡ some (io, q)
    → (io < p.size) × (q.size ≡ p.size) × (q.joined ≡ p.joined)
unfolding get_io_service
get_io_service-below p io q e = ground arith

abbrev ready : Session → ℕ → IoServicePool → Server → Server
ready s io pool srv = record srv {
  pool = pool;
  accepting = some (record { session = s; co = reading_head; is_open = false; io = io });
}

start_accept-Inv :
    (h : Host) (id size : ℕ) (srv srv' : Server)
    → srv.pool.size ≡ size
    → srv.pool.joined ≡ replicate size false
    → All (RunsBelow size) srv.objects
    → start_accept h id srv ≡ ok srv'
    → Inv size srv'
unfolding start_accept
start_accept-Inv h id size srv srv' same_size running below e =
    let ((io, pool), got, rest) = bind-eq-ok (checked (get_io_service srv.pool)) _ e in
    let (s, made, done) = bind-eq-ok (new_session h id) (λ s. ok (ready s io pool srv)) rest in
    let (lt, size_kept, joined_kept) =
      get_io_service-below srv.pool io pool (checked-eq-ok (get_io_service srv.pool) got) in
    let same : ready s io pool srv ≡ srv' = ok-injective done in
    rw (sym same) (record {
      same_size = size_kept ∙ same_size;
      running = joined_kept ∙ running;
      objects_below = below;
      accepting_below = λ conn at. omega (arith, ap (λ c. c.io) (some-injective at));
    })

new_server-Inv :
    (h : Host) (id size : ℕ) (srv : Server) → new_server h size id ≡ ok srv → Inv size srv
unfolding new_server listening new_pool
new_server-Inv h id size srv e = start_accept-Inv h id size (listening size) srv refl refl tt e

All-assign :
    (size k : ℕ) (conn : Connection) (objects : List (ℕ × Connection))
    → conn.io < size
    → All (RunsBelow size) objects
    → All (RunsBelow size) (assign k conn objects)
unfolding assign
All-assign size k conn [] lt below = (lt, tt)
All-assign size k conn ((j, c) ∷ objects) lt below = elim (Bool-cases (j == k)) [
  | inl here ↦ rw here (lt, below.1)
  | inr there ↦ rw there (below.0, All-assign size k conn objects lt below.1)
]

All-find :
    (size k : ℕ) (conn : Connection) (objects : List (ℕ × Connection))
    → All (RunsBelow size) objects
    → find k objects ≡ some conn
    → conn.io < size
unfolding find
All-find size k conn [] below e = absurd (cc)
All-find size k conn ((j, c) ∷ objects) below e = elim (Bool-cases (j == k)) [
  | inl here ↦
      let at : some c ≡ some conn = (rw here at e) in
      omega (arith, ap (λ c. c.io) (some-injective at), below.0)
  | inr there ↦ All-find size k conn objects below.1 (rw there at e)
]

resume-Inv :
    (h : Host) (id : ℕ) (read : Read) (size : ℕ) (srv srv' : Server)
    → Inv size srv
    → resume h id read srv ≡ ok srv'
    → Inv size srv'
unfolding resume
resume-Inv h id read size srv srv' v e =
    let (conn, found, rest) = bind-eq-ok (checked (find id srv.objects)) _ e in
    let (r, resumed, done) = bind-eq-ok (resume_at h conn.co read conn.session srv.world) _ rest in
    let lt : conn.io < size =
      All-find size id conn srv.objects v.objects_below
        (checked-eq-ok (find id srv.objects) found) in
    let conn' : Connection = record conn { session = r.session; co = r.co } in
    let same : record srv { world = r.world; objects = assign id conn' srv.objects } ≡ srv' =
      ok-injective done in
    rw (sym same) (record {
      same_size = v.same_size;
      running = v.running;
      objects_below = All-assign size id conn' srv.objects lt v.objects_below;
      accepting_below = v.accepting_below;
    })

handler_accept-Inv :
    (h : Host) (next : ℕ) (ec has_endpoint : Bool) (size : ℕ) (srv srv' : Server)
    → Inv size srv
    → handler_accept h next ec has_endpoint srv ≡ ok srv'
    → Inv size srv'
unfolding handler_accept save_session
handler_accept-Inv h next true has_endpoint size srv srv' v e =
    let (conn, there, rest) = bind-eq-ok (checked srv.accepting) _ e in
    start_accept-Inv h next size srv srv' v.same_size v.running v.objects_below rest
handler_accept-Inv h next false true size srv srv' v e =
    let (conn, there, rest) = bind-eq-ok (checked srv.accepting) _ e in
    start_accept-Inv h next size (save_session conn srv) srv' v.same_size v.running
      (v.accepting_below conn (checked-eq-ok srv.accepting there), v.objects_below) rest
handler_accept-Inv h next false false size srv srv' v e =
    let (conn, there, rest) = bind-eq-ok (checked srv.accepting) _ e in absurd (cc)

pub Reaches-Inv : {h : Host} {size : ℕ} {srv : Server} → Reaches h size srv → Inv size srv
Reaches-Inv (starts id made) = new_server-Inv _ id _ _ made
Reaches-Inv (accepts next ec has_endpoint before e) =
    handler_accept-Inv _ next ec has_endpoint _ _ _ (Reaches-Inv before) e
Reaches-Inv (resumes id read before e) = resume-Inv _ id read _ _ _ (Reaches-Inv before) e
