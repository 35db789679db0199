-- ===== src/Session/Failure.antt =====
-- The sending side of src/05_ftp/Session.cpp after a write has failed.
use boost_asio.Common.{
  ◌≡◌, ◌≢◌, refl, ◌∙◌, true, some, List, [], ◌∷◌, length, Bytes, All, arith, Bool-cases, inl, inr,
  leb,
}
use boost_asio.World.{World, remove_session}
use boost_asio.Wire.Const.{max_send_queue_len}
use boost_asio.Wire.Host.{Host, IsHost}
use boost_asio.Wire.Node.{MsgNode}
use boost_asio.Wire.Layout.{layout, sent}
use boost_asio.Session.{Session, write_done}
use boost_asio.Session.Queue.{
  Event, sends, completes, Run, run, step, completed, Fits, pushed, with_queue, send_view-pushed,
}

-- The failed message stays in the queue, so every later `Send` takes a write to be in progress.
abbrev Stalled : Session → List MsgNode → Type 0
Stalled s q = (s.send_queue ≡ q) × (s.sock.writing ≡ []) × (q ≢ [])

record Silent (h : Host) (e : Event) (r : Run) : Type 0 where
  after : Run
  queue : List MsgNode
  steps : step h e r ≡ some after
  stalled : Stalled after.session queue
  unsent : after.out ≡ r.out

cons-ne-nil : (n : MsgNode) (q : List MsgNode) → n ∷ q ≢ []
cons-ne-nil n q e = cc

pushed-ne-nil : (m : MsgNode) (q : List MsgNode) (n : MsgNode) → pushed (m ∷ q) n ≢ []
pushed-ne-nil m q n = elim (Bool-cases (leb max_send_queue_len (length (m ∷ q)))) [
  | inl full ↦ rw full (cons-ne-nil m q)
  | inr room ↦ rw room (cons-ne-nil m _)
]

step-Silent :
    (h : Host)
    → IsHost h
    → (e : Event) (r : Run) (q : List MsgNode) → Fits e
    → Stalled r.session q
    → Silent h e r
unfolding step completed with_queue
step-Silent h law e r [] fits v = absurd (v.2 refl)
step-Silent h law (sends msg msg_id) r (m ∷ q) fits v =
    let n = layout msg msg_id in
    record {
      after = record r { session = with_queue r.session (pushed (m ∷ q) n) r.session.sock.writing };
      queue = pushed (m ∷ q) n;
      steps = rw (send_view-pushed h law msg msg_id r.session (m ∷ q) fits v.0);
      stalled = (refl, v.1, pushed-ne-nil m q n);
      unsent = refl;
    }
step-Silent h law completes r (m ∷ q) fits v = record {
  after = r;
  queue = m ∷ q;
  steps = ground arith;
  stalled = v;
  unsent = refl;
}

run-Silent :
    (h : Host)
    → IsHost h
    → (es : List Event) → All Fits es
    → (r : Run) (q : List MsgNode) → Stalled r.session q
    → (r' : Run) × (run h es r ≡ some r') × (r'.out ≡ r.out) × (r'.session.sock.writing ≡ [])
unfolding run
run-Silent h law [] fits r q v = (r, refl, refl, v.1)
run-Silent h law (e ∷ es) fits r q v =
    let s = step-Silent h law e r q fits.0 v in
    let (r', ran, same, none_left) = run-Silent h law es fits.1 s.after s.queue s.stalled in
    (r', rw s.steps ran, same ∙ s.unsent, none_left)

-- When the write in progress fails, the handler removes the session from the server's table, and
-- whatever is sent or completes on that session afterwards starts no write and sends nothing.
pub write_done-silences :
    (h : Host)
    → IsHost h
    → (s : Session) (w : World) (n : MsgNode) (q : List MsgNode) (out : List Bytes)
      (es : List Event)
    → s.send_queue ≡ n ∷ q
    → s.sock.writing ≡ sent n ∷ []
    → All Fits es
    → (s' : Session) × (r : Run) × (write_done true s w ≡ some (s', remove_session s.id w))
      × (run h es (record { session = s'; world = remove_session s.id w; out = out }) ≡ some r)
      × (r.out ≡ out)
      × (r.session.sock.writing ≡ [])
unfolding write_done with_queue
write_done-silences h law s w n q out es e writes fits =
    let s' = with_queue s s.send_queue [] in
    let (r, ran, same, none_left) =
      run-Silent h law es fits (record { session = s'; world = remove_session s.id w; out = out })
        (n ∷ q) (e, refl, cons-ne-nil n q) in
    (s', r, ground arith, ran, same, none_left)
