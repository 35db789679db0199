-- ===== src/Session/Queue.antt =====
-- The sending side of src/05_ftp/Session.cpp against Session.Fifo: whatever messages are sent,
-- and whenever the writes complete, the bytes leave in the order of the accepted messages.
use boost_asio.Common.{
  ℕ, ◌+◌, ◌<◌, ◌^◌, ◌%◌, suc, ◌≡◌, refl, ap, ◌∙◌, inl, inr, false, Option, some, ◌>>=◌, List, [],
  ◌∷◌, ◌++◌, map, leb, if◌then◌else◌, length, Bytes, All, Bool-cases, arith,
}
use mathlib.Core.List.{map-append}
use boost_asio.World.{World}
use boost_asio.Wire.Const.{max_send_queue_len}
use boost_asio.Wire.Host.{Host, IsHost}
use boost_asio.Wire.Node.{MsgNode}
use boost_asio.Wire.Layout.{wire, sent, layout, send_node-layout, sent-layout}
use boost_asio.Session.Fifo.{Fifo, idle, offer, advance}
use boost_asio.Session.{Session, new_session, send_view, write_done}

pub data Event : Type 0 where
  sends : Bytes → ℕ → Event
  completes : Event

-- A session with the world, and the writes that have completed, oldest first.
pub record Run : Type 0 where
  pub session : Session
  pub world : World
  pub out : List Bytes

unfoldable pub completed : Run → Option Run
completed r = elim r.session.sock.writing [
  | [] ↦ some r
  | b ∷ rest ↦ do
    (s, w) ← write_done false r.session r.world
    some (record { session = s; world = w; out = r.out ++ b ∷ [] })
]

unfoldable pub step : Host → Event → Run → Option Run
unfolding completed
step h (sends msg msg_id) r = do
  s ← send_view h msg msg_id r.session
  some (record r { session = s })
step h completes r = completed r

unfoldable pub run : Host → List Event → Run → Option Run
run h [] r = some r
run h (e ∷ es) r = do r' ← step h e r; run h es r'

abbrev pub Fits : Event → Type 0
Fits (sends msg msg_id) = (msg_id < 2 ^ 16) × (length msg + 7 < 2 ^ 32)
Fits completes = Unit {0}

unfoldable pub fifo_step : Event → Fifo → Fifo
fifo_step (sends msg msg_id) f = offer max_send_queue_len (wire msg_id msg) f
fifo_step completes f = advance f

unfoldable pub fifo_run : List Event → Fifo → Fifo
fifo_run [] f = f
fifo_run (e ∷ es) f = fifo_run es (fifo_step e f)

abbrev pub view : Run → Fifo
view r = record { pending = map sent r.session.send_queue; out = r.out }

-- What is being written is the first message of the queue, and nothing if the queue is empty.
abbrev pub Writing : List MsgNode → List Bytes → Type 0
Writing [] ws = ws ≡ []
Writing (n ∷ q) ws = ws ≡ sent n ∷ []

abbrev pub Inv : Session → Type 0
Inv s = Writing s.send_queue s.sock.writing

-- The effect of `Send` on a queue and the writes in progress.
abbrev pub pushed : List MsgNode → MsgNode → List MsgNode
pushed q n = if leb max_send_queue_len (length q) then q else q ++ n ∷ []

abbrev pub started : List MsgNode → MsgNode → List Bytes → List Bytes
started [] n ws = ws ++ sent n ∷ []
started (m ∷ q) n ws = ws

unfoldable pub with_queue : Session → List MsgNode → List Bytes → Session
with_queue s q ws = record s {
  send_queue = q;
  sock = record { is_open = s.sock.is_open; writing = ws };
}

module _ (h : Host) (law : IsHost h) (msg : Bytes) (msg_id : ℕ) where
  pub send_view-pushed :
      (s : Session) (q : List MsgNode)
      → Fits (sends msg msg_id)
      → s.send_queue ≡ q
      → send_view h msg msg_id s
        ≡ some (
            with_queue s
              (pushed q (layout msg msg_id))
              (started q (layout msg msg_id) s.sock.writing))
  unfolding send_view with_queue
  send_view-pushed s [] fits e =
      rw
        (
          let e : length msg % 2 ^ 32 ≡ length msg = omega arith in e,
          send_node-layout h law msg msg_id fits.0 fits.1,
        )
        (ground arith)
  send_view-pushed s (m ∷ q) fits e =
      rw
        (
          let e : length msg % 2 ^ 32 ≡ length msg = omega arith in e,
          send_node-layout h law msg msg_id fits.0 fits.1,
        )
        (ground arith)

Writing-pushed :
    (q : List MsgNode) (n : MsgNode) (ws : List Bytes)
    → Writing q ws
    → Writing (pushed q n) (started q n ws)
Writing-pushed [] n ws v = ap (λ (l : List Bytes). l ++ sent n ∷ []) v
Writing-pushed (m ∷ q) n ws v = elim (Bool-cases (leb max_send_queue_len (length (m ∷ q)))) [
  | inl full ↦ rw full v
  | inr room ↦ rw room v
]

length-map-sent : (q : List MsgNode) → length (map sent q) ≡ length q
length-map-sent [] = refl
length-map-sent (n ∷ q) = ap suc (length-map-sent q)

view-pushed :
    (q : List MsgNode) (msg : Bytes) (msg_id : ℕ) (out : List Bytes)
    → record { pending = map sent (pushed q (layout msg msg_id)); out = out }
      ≡ offer max_send_queue_len (wire msg_id msg) (record { pending = map sent q; out = out })
unfolding offer
view-pushed q msg msg_id out =
    rw (length-map-sent q) (elim (Bool-cases (leb max_send_queue_len (length q))) [
      | inl full ↦ rw full
      | inr room ↦ rw (room, map-append sent q (layout msg msg_id ∷ []), sent-layout msg msg_id)
    ])

-- One event: it does not fault, the invariant is kept, and the queue behaves as the model of it.
record Refines (h : Host) (e : Event) (r : Run) : Type 0 where
  after : Run
  steps : step h e r ≡ some after
  keeps : Inv after.session
  same : view after ≡ fifo_step e (view r)

sends-Refines :
    (h : Host) (law : IsHost h) (msg : Bytes) (msg_id : ℕ) (r : Run) (q : List MsgNode)
    → Fits (sends msg msg_id)
    → r.session.send_queue ≡ q
    → Writing q r.session.sock.writing
    → Refines h (sends msg msg_id) r
unfolding step fifo_step with_queue
sends-Refines h law msg msg_id r q fits e v =
    let n = layout msg msg_id in
    let ws = r.session.sock.writing in
    record {
      after = record r { session = with_queue r.session (pushed q n) (started q n ws) };
      steps = rw (send_view-pushed h law msg msg_id r.session q fits e);
      keeps = Writing-pushed q n ws v;
      same = rw e (view-pushed q msg msg_id r.out);
    }

completes-Refines :
    (h : Host) (r : Run) (q : List MsgNode)
    → r.session.send_queue ≡ q
    → Writing q r.session.sock.writing
    → Refines h completes r
unfolding step fifo_step completed write_done advance with_queue
completes-Refines h r [] e v = record {
  after = r;
  steps = ground arith;
  keeps = ground arith;
  same = ground arith;
}
completes-Refines h r (n ∷ []) e v = record {
  after = record {
    session = with_queue r.session [] [];
    world = r.world;
    out = r.out ++ sent n ∷ [];
  };
  steps = ground arith;
  keeps = refl;
  same = ground arith;
}
completes-Refines h r (n ∷ m ∷ q) e v = record {
  after = record {
    session = with_queue r.session (m ∷ q) (sent m ∷ []);
    world = r.world;
    out = r.out ++ sent n ∷ [];
  };
  steps = ground arith;
  keeps = refl;
  same = ground arith;
}

step-Refines :
    (h : Host) → IsHost h → (e : Event) → Fits e → (r : Run) → Inv r.session → Refines h e r
step-Refines h law (sends msg msg_id) fits r v =
    sends-Refines h law msg msg_id r r.session.send_queue fits refl v
step-Refines h law completes fits r v = completes-Refines h r r.session.send_queue refl v

pub run-Inv :
    (h : Host)
    → IsHost h
    → (es : List Event) → All Fits es
    → (r : Run) → Inv r.session
    → (r' : Run) × (run h es r ≡ some r') × Inv r'.session × (view r' ≡ fifo_run es (view r))
unfolding run fifo_run
run-Inv h law [] fits r v = (r, refl, v, refl)
run-Inv h law (e ∷ es) fits r v =
    let s = step-Refines h law e fits.0 r v in
    let (r', ran, v', same) = run-Inv h law es fits.1 s.after s.keeps in
    (r', rw s.steps ran, v', same ∙ ap (fifo_run es) s.same)

abbrev pub fresh : Host → ℕ → World → Run
fresh h id w = record { session = new_session h id; world = w; out = [] }

pub run-fifo_run :
    (h : Host)
    → IsHost h
    → (id : ℕ) (w : World) (es : List Event) → All Fits es
    → (r : Run) × (run h es (fresh h id w) ≡ some r) × Inv r.session × (view r ≡ fifo_run es idle)
unfolding new_session
run-fifo_run h law id w es fits = run-Inv h law es fits (fresh h id w) refl

pub send_view-some :
    (h : Host)
    → IsHost h
    → (msg : Bytes) (msg_id : ℕ) (s : Session) → Fits (sends msg msg_id)
    → (s' : Session) × (send_view h msg msg_id s ≡ some s')
send_view-some h law msg msg_id s fits =
    (_, send_view-pushed h law msg msg_id s s.send_queue fits refl)
