-- ===== src/Async/Session/Sending.antt =====
-- The sending side of src/02_async/Session.cpp, as a relation between its states: whatever is sent, and
-- however the writes end.
use boost_asio.Common.{
  ℕ, ◌%◌, ◌^◌, ◌≤◌, ◌≡◌, refl, Bool, true, false, ◌⊎◌, inl, inr, List, [], ◌∷◌, Bytes, length,
  length-append, arith,
}
use boost_asio.Wire.Host.{Host}
use boost_asio.Async.Wire.{Outcome, ok, throws, fault, MsgNode, max_send_queue_len, send_node}
use boost_asio.Async.Session.{
  Session, World, new_session, sent, write_front, send, send_view, handler_write, write_done,
}

-- A call of `Send` that returns, or the end of a write with its handler
pub data Step (h : Host) : Session → Session → Type 0 where
  sends :
      {s s' : Session} (msg : Bytes) (msg_id : ℕ) → send_view h msg msg_id s ≡ ok s' → Step h s s'
  completes :
      {s s' : Session} (w w' : World) (ec : Bool) → write_done ec s w ≡ ok (s', w') → Step h s s'

pub data Reaches (h : Host) (s : Session) : Session → Type 0 where
  here : Reaches h s s
  next : {t u : Session} → Reaches h s t → Step h t u → Reaches h s u

-- At most one write is in progress, and it is that of the front of the queue.
abbrev pub Writing : List MsgNode → List Bytes → Type 0
Writing [] ws = ws ≡ []
Writing (n ∷ q) ws = (ws ≡ []) ⊎ (ws ≡ sent n ∷ [])

abbrev pub IsValid : Session → Type 0
IsValid s = (length s.send_queue ≤ max_send_queue_len) × Writing s.send_queue s.writing

pub Outcome-cases {ℓ} :
    {A : Type ℓ} (o : Outcome A) → ((a : A) × (o ≡ ok a)) ⊎ ((o ≡ throws) ⊎ (o ≡ fault))
Outcome-cases (ok a) = inl (a, refl)
Outcome-cases throws = inr (inl refl)
Outcome-cases fault = inr (inr refl)

pushed-IsValid :
    (h : Host) (msg : Bytes) (n msg_id : ℕ) (q : List MsgNode) (s s' : Session)
    → s.send_queue ≡ q
    → IsValid s
    → send h msg n msg_id s ≡ ok s'
    → IsValid s'
unfolding send write_front
pushed-IsValid h msg n msg_id [] s s' e v ran =
    elim (Outcome-cases (send_node h msg (n % 2 ^ 16) msg_id)) [
      | inl (node, built) ↦ ground arith
      | inr (inl threw) ↦ ground arith
      | inr (inr faulted) ↦ ground arith
    ]
pushed-IsValid h msg n msg_id (m ∷ q) s s' e v ran =
    elim (Outcome-cases (send_node h msg (n % 2 ^ 16) msg_id)) [
      | inl (node, built) ↦ ground (arith, length-append (m ∷ q) (node ∷ []))
      | inr (inl threw) ↦ ground arith
      | inr (inr faulted) ↦ ground arith
    ]

completed-IsValid :
    (q : List MsgNode) (ws : List Bytes) (ec : Bool) (s s' : Session) (w w' : World)
    → s.send_queue ≡ q
    → s.writing ≡ ws
    → IsValid s
    → write_done ec s w ≡ ok (s', w')
    → IsValid s'
unfolding write_done handler_write write_front
completed-IsValid [] [] ec s s' w w' e e_ws v ran = ground arith
completed-IsValid [] (b ∷ ws) ec s s' w w' e e_ws v ran = ground arith
completed-IsValid (n ∷ q) [] ec s s' w w' e e_ws v ran = ground arith
completed-IsValid (n ∷ q) (b ∷ ws) true s s' w w' e e_ws v ran = ground arith
completed-IsValid (n ∷ []) (b ∷ ws) false s s' w w' e e_ws v ran = ground arith
completed-IsValid (n ∷ m ∷ q) (b ∷ ws) false s s' w w' e e_ws v ran = ground arith

Step-IsValid : {h : Host} {s s' : Session} → Step h s s' → IsValid s → IsValid s'
unfolding send_view
Step-IsValid {h = h} {s = s} {s' = s'} (sends msg msg_id ran) v =
    pushed-IsValid h msg (length msg % 2 ^ 32) msg_id s.send_queue s s' refl v ran
Step-IsValid {s = s} {s' = s'} (completes w w' ec ran) v =
    completed-IsValid s.send_queue s.writing ec s s' w w' refl refl v ran

Reaches-IsValid : {h : Host} {s t : Session} → IsValid s → Reaches h s t → IsValid t
Reaches-IsValid v here = v
Reaches-IsValid v (next r st) = Step-IsValid st (Reaches-IsValid v r)

-- From a new session on, whatever is sent and however the writes end, with an error or not, as long as
-- no step faults or throws: the queue holds at most MAX_SEND_QUEUE_LEN messages, and at most one write
-- is in progress, which is that of the queue's front.
pub new_session-Reaches :
    (h : Host) (id : ℕ) (s t : Session) → new_session h id ≡ ok s → Reaches h s t → IsValid t
unfolding new_session
new_session-Reaches h id s t made r = Reaches-IsValid (ground arith) r
