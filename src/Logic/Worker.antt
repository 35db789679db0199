-- ===== src/Logic/Worker.antt =====
-- The worker of src/05_ftp/LogicSystem.cpp against its queue.
use mathlib.Core.Option
use boost_asio.Common.{
  ℕ, zero, suc, ◌≤◌, ◌≡◌, refl, ap, ◌∙◌, inl, inr, true, false, Option, some, ◌>>=◌, Option-cases,
  List, [], ◌∷◌, length, arith, get_elem?,
}
use boost_asio.Map.{find, nat_eq}
use boost_asio.Wire.Host.{Host}
use boost_asio.Wire.Node.{MsgNode}
use boost_asio.Inbox.{LogicNode}
use boost_asio.Reader.{deref}
use boost_asio.Logic.Codec.{Libraries}
use boost_asio.Logic.{
  System, Callback, test_msg, upload_file, Round, waits, goes_on, returns, call, dispatch, do_work,
  drain, deal_msg, register_callbacks,
}

-- The system with another queue of messages.
unfoldable pub with_queue : List LogicNode → System → System
with_queue q sys = record sys {
  world = record sys.world { inbox = record sys.world.inbox { msg_queue = q } };
}

pub with_queue-own :
    (q : List LogicNode) (sys : System) → sys.world.inbox.msg_queue ≡ q → sys ≡ with_queue q sys
unfolding with_queue
with_queue-own q sys e = ap (λ q'. with_queue q' sys) e

module _ (c : Libraries) (h : Host) (q : List LogicNode) where
  call-with_queue :
      (f : Callback) (id : ℕ) (node : MsgNode) (sys : System)
      → call c h f id node (with_queue q sys) ≡ Option.map (with_queue q) (call c h f id node sys)
  unfolding call with_queue
  call-with_queue test_msg id node sys = ground arith
  call-with_queue upload_file id node sys = ground arith

  dispatch-with_queue :
      (id : ℕ) (node : MsgNode) (sys : System)
      → dispatch c h id node (with_queue q sys)
        ≡ Option.map (with_queue q) (dispatch c h id node sys)
  unfolding dispatch
  dispatch-with_queue id node sys = elim (Option-cases (find node.msg_id register_callbacks)) [
    | inl missing ↦ rw (missing, dispatch)
    | inr (f, found) ↦ rw (found, dispatch) (call-with_queue f id node sys)
  ]

module _ (c : Libraries) (h : Host) where
  -- The messages are handled one after the other, in the order of the list.
  unfoldable pub handle_all : List LogicNode → System → Option System
  handle_all [] sys = some sys
  handle_all (node ∷ nodes) sys = do
    (_, recv_node) ← deref (some node.recv_node) sys.world
    sys' ← dispatch c h node.session recv_node sys
    handle_all nodes sys'

  -- The same from a queue that holds other messages by then.
  do_work-handles :
      (node : LogicNode) (rest : List LogicNode) (sys : System)
      → do_work c h (with_queue (node ∷ rest) sys) ≡ (
          deref (some node.recv_node) sys.world >>= λ p.
          Option.map (with_queue rest) (dispatch c h node.session p.1 sys))
  unfolding do_work with_queue deref
  do_work-handles node rest sys = elim (Option-cases (get_elem? sys.world.nodes node.recv_node)) [
    | inl dangling ↦ rw dangling
    | inr (n, there) ↦ rw there (dispatch-with_queue c h rest node.session n sys)
  ]

  queue-with_queue :
      (q : List LogicNode) (sys : System) → (with_queue q sys).world.inbox.msg_queue ≡ q
  unfolding with_queue
  queue-with_queue q sys = refl

  -- The loop of the shutdown, with fuel for each message of the queue.
  drain-handle_all :
      (q : List LogicNode) (fuel : ℕ) (sys : System)
      → length q ≤ fuel
      → drain c h fuel (with_queue q sys) ≡ Option.map (with_queue []) (handle_all q sys)
  unfolding drain handle_all
  drain-handle_all [] zero sys enough = refl
  drain-handle_all [] (suc fuel) sys enough = rw (queue-with_queue [] sys)
  drain-handle_all (node ∷ q) zero sys enough = absurd (omega arith)
  drain-handle_all (node ∷ q) (suc fuel) sys enough =
      rw (do_work-handles node q sys, queue-with_queue (node ∷ q) sys)
        (elim (Option-cases (deref (some node.recv_node) sys.world)) [
          | inl dangling ↦ rw dangling
          | inr ((a, n), there) ↦ rw there (elim (Option-cases (dispatch c h node.session n sys)) [
            | inl threw ↦ rw threw
            | inr (sys', handled) ↦ rw handled (drain-handle_all q fuel sys' (omega arith))
          ])
        ])

  drain_own_queue :
      (sys : System)
      → drain c h (length sys.world.inbox.msg_queue) sys
        ≡ Option.map (with_queue []) (handle_all sys.world.inbox.msg_queue sys)
  unfolding with_queue
  drain_own_queue sys =
      let q = sys.world.inbox.msg_queue in drain-handle_all q (length q) sys (omega arith)

  -- When the system is to stop, a round handles all the messages that the queue holds, in their
  -- order, leaves it empty and returns, or a callback among them ends the program.
  pub deal_msg-stopped :
      (sys : System)
      → sys.world.inbox.stop ≡ true
      → deal_msg c h sys
        ≡ Option.map (λ s. returns (with_queue [] s)) (handle_all sys.world.inbox.msg_queue sys)
  unfolding deal_msg
  deal_msg-stopped sys stopped = ground (arith, drain_own_queue sys)

  -- Handling the first of a queue of messages.
  unfoldable pub one_round : List LogicNode → System → Option Round
  one_round [] sys = some waits
  one_round (node ∷ rest) sys = do
    (_, recv_node) ← deref (some node.recv_node) sys.world
    sys' ← dispatch c h node.session recv_node sys
    some (goes_on (with_queue rest sys'))

  do_work-own :
      (node : LogicNode) (rest : List LogicNode) (sys : System)
      → sys.world.inbox.msg_queue ≡ node ∷ rest
      → do_work c h sys ≡ (
          deref (some node.recv_node) sys.world >>= λ p.
          Option.map (with_queue rest) (dispatch c h node.session p.1 sys))
  do_work-own node rest sys e =
      ap (do_work c h) (with_queue-own (node ∷ rest) sys e) ∙ do_work-handles node rest sys

  round-queue :
      (q : List LogicNode) (sys : System)
      → sys.world.inbox.msg_queue ≡ q
      → sys.world.inbox.stop ≡ false
      → deal_msg c h sys ≡ one_round q sys
  unfolding deal_msg one_round
  round-queue [] sys e running = ground arith
  round-queue (node ∷ rest) sys e running = ground (arith, do_work-own node rest sys e)

  -- While the system is not to stop, a round waits if the queue holds no message, and otherwise
  -- takes the oldest message off the queue, handles it, leaves the others there, and goes on.
  pub deal_msg-running :
      (sys : System)
      → sys.world.inbox.stop ≡ false
      → deal_msg c h sys ≡ one_round sys.world.inbox.msg_queue sys
  deal_msg-running sys running = round-queue sys.world.inbox.msg_queue sys refl running
