-- ===== src/Async/Logic/Answer.antt =====
-- The worker of src/02_async and a message of the id HelloWorld: what the session sends back.
use boost_asio.Common.{
  ℕ, ◌+◌, ◌%◌, ◌^◌, ◌<◌, ◌≤◌, ◌≡◌, ◌≢◌, refl, sym, ◌∙◌, false, some, inl, inr, ◌⊎◌, lt_or_le, List,
  [], ◌∷◌, ◌++◌, Bytes, length, take, take-append, get_elem?, arith,
}
use boost_asio.Memory.{c_string}
use boost_asio.Map.{find, assign, nat_eq}
use boost_asio.Wire.Host.{Host, IsHost}
use boost_asio.Inbox.{LogicNode}
use boost_asio.Logic.{text}
use boost_asio.Logic.Codec.{Libraries}
use boost_asio.Async.Wire.{Outcome, ok, throws, fault, ◌>>=◌, hello_world, MsgNode, send_node}
use boost_asio.Async.Layout.{send_node-branches, wire, layout}
use boost_asio.Async.Session.Sending.{Outcome-cases}
use boost_asio.Async.Session.{Session, deref, sent, send, send_view, write_front, clear_head}
use boost_asio.Async.Logic.{
  System, Round, goes_on, register_callbacks, hello_world_callback, call, dispatch, do_work,
  deal_msg,
}

-- The text that a `short` leaves of a text's length
abbrev pub cut : Bytes → Bytes
cut msg = take (length msg % 2 ^ 16) msg

sent-layout : (msg : Bytes) (msg_id : ℕ) → sent (layout msg msg_id) ≡ wire msg_id msg
unfolding layout
sent-layout msg msg_id =
    let e : length msg + 4 ≡ length (wire msg_id msg) = omega arith in
    rw (e) (take-append (wire msg_id msg) (0 ∷ []))

-- The session with an answer in its queue that was empty, and the write of it
unfoldable pub answering : Bytes → ℕ → Session → Session
answering msg msg_id s = record s {
  send_queue = layout msg msg_id ∷ [];
  writing = s.writing ++ wire msg_id msg ∷ [];
}

short_length : (n : ℕ) → n % 2 ^ 32 % 2 ^ 16 ≡ n % 2 ^ 16
short_length n = omega arith

module _ (h : Host) (law : IsHost h) where
  pub send_view-idle :
      (msg : Bytes) (msg_id : ℕ) (s : Session)
      → msg_id < 2 ^ 16
      → s.send_queue ≡ []
      → (length msg % 2 ^ 16 + 4 < 2 ^ 15
          → send_view h msg msg_id s ≡ ok (answering (cut msg) msg_id s))
        × (2 ^ 15 ≤ length msg % 2 ^ 16 + 4 → (s' : Session) → send_view h msg msg_id s ≢ ok s')
  unfolding send_view send write_front answering
  send_view-idle msg msg_id s id_short idle =
      let (whole, broken) = send_node-branches h law msg msg_id id_short in
      (
        (λ fits.
            rw (short_length (length msg), idle, whole fits, sent-layout (cut msg) msg_id) refl),
        (λ over s' built.
            elim (Outcome-cases (send_node h msg (length msg % 2 ^ 32 % 2 ^ 16) msg_id)) [
              | inl (node, made) ↦ broken over node (rw (sym (short_length (length msg))) made)
              | inr (inl threw) ↦ ground arith
              | inr (inr faulted) ↦ ground arith
            ]),
      )

stays_undone :
    {A B : Type 0} (o : Outcome A) (f : A → Outcome B)
    → ((a : A) → o ≢ ok a)
    → (b : B) → (o >>= f) ≢ ok b
stays_undone (ok a) f none_done b h = none_done a refl
stays_undone throws f none_done b h = absurd (cc)
stays_undone fault f none_done b h = absurd (cc)

module _ (c : Libraries) (h : Host) (law : IsHost h) (sys : System) (node : LogicNode) where
  -- What is left when the answer has been handed to the session
  abbrev pub answered : List LogicNode → Session → System
  answered rest s = record {
    world = record sys.world { msg_queue = rest };
    objects = assign node.session (clear_head s) sys.objects;
    stop = false;
  }

  deal_msg-send_view :
      (rest : List LogicNode) (n : MsgNode) (root : c.Value) (s : Session)
      → sys.stop ≡ false
      → sys.world.msg_queue ≡ node ∷ rest
      → get_elem? sys.world.nodes node.recv_node ≡ some n
      → n.msg_id ≡ hello_world
      → c.put (text "role") (c.from_string (text "server")) (c.parse (c_string n.chars)).1
        ≡ some root
      → find node.session sys.objects ≡ some s
      → deal_msg c h sys
        ≡ send_view h (c.to_styled_string root) hello_world s >>= λ s'.
            ok (goes_on (answered rest s'))
  unfolding deal_msg do_work dispatch call hello_world_callback deref register_callbacks find assign
  deal_msg-send_view rest n root s running queue there is_hello with_role found =
      rw (running, queue, there, is_hello, with_role, found)
        (elim (Outcome-cases (send_view h (c.to_styled_string root) hello_world s)) [
          | inl (s', sends) ↦ rw sends refl
          | inr (inl threw) ↦ rw threw refl
          | inr (inr faulted) ↦ rw faulted refl
        ])

  -- The worker takes a message of the id HelloWorld off the front of the queue, whose session is idle. If
  -- the text of the answer has a length below 2^15 - 4, modulo 2^16, the worker goes on, and the session
  -- writes the id, that length, and so many of the text's bytes. Otherwise the worker does not go on: an
  -- exception ends the program, or memory outside an array is used.
  pub deal_msg-hello :
      (rest : List LogicNode) (n : MsgNode) (root : c.Value) (s : Session)
      → sys.stop ≡ false
      → sys.world.msg_queue ≡ node ∷ rest
      → get_elem? sys.world.nodes node.recv_node ≡ some n
      → n.msg_id ≡ hello_world
      → c.put (text "role") (c.from_string (text "server")) (c.parse (c_string n.chars)).1
        ≡ some root
      → find node.session sys.objects ≡ some s
      → s.send_queue ≡ []
      → ((length (c.to_styled_string root) % 2 ^ 16 + 4 < 2 ^ 15)
          × (deal_msg c h sys
              ≡ ok (
                  goes_on
                    (answered rest (answering (cut (c.to_styled_string root)) hello_world s)))))
        ⊎ ((2 ^ 15 ≤ length (c.to_styled_string root) % 2 ^ 16 + 4)
            × ((r : Round) → deal_msg c h sys ≢ ok r))
  deal_msg-hello rest n root s running queue there is_hello with_role found idle =
      let (sends, fails) =
        send_view-idle h law (c.to_styled_string root) hello_world s (omega arith) idle in
      let handled = deal_msg-send_view rest n root s running queue there is_hello with_role found in
      lt_or_le (length (c.to_styled_string root) % 2 ^ 16 + 4) (2 ^ 15) (
        (λ fits. handled ∙ rw (sends fits) refl),
        (λ over r ran.
            stays_undone (send_view h (c.to_styled_string root) hello_world s)
              (λ s'. ok (goes_on (answered rest s'))) (fails over) r (sym handled ∙ ran)),
      )
