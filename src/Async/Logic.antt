-- ===== src/Async/Logic.antt =====
-- src/02_async/LogicSystem.h and LogicSystem.cpp: the worker that takes the posted messages from the
-- queue and answers them. What a callback throws leaves the worker's thread and ends the program. A
-- step here is what the worker does while it holds the queue's lock.
pub mod Answer
pub mod Waking
use boost_asio.Common.{
  ℕ, zero, suc, Bool, true, false, not, ◌||◌, List, [], ◌∷◌, if◌then◌else◌, length, none, some,
}
use boost_asio.Memory.{c_string}
use boost_asio.Map.{find, assign, nat_eq}
use boost_asio.Wire.Host.{Host}
use boost_asio.Inbox.{LogicNode}
use boost_asio.Logic.{text}
use boost_asio.Logic.Codec.{Libraries}
use boost_asio.Async.Wire.{
  Outcome, ok, throws, fault, ◌>>=◌, checked, or_throw, hello_world, MsgNode,
}
use boost_asio.Async.Session.{Session, World, deref, send_view, clear_head, is_empty}

pub record System : Type 0 where
  pub world : World
  -- the sessions that a `shared_ptr` still holds, by their ids
  pub objects : List (ℕ × Session)
  pub stop : Bool

pub data Callback : Type 0 where
  hello : Callback

-- What one round of the worker's loop comes to.
pub data Round : Type 0 where
  waits : Round
  goes_on returns : System → Round

-- LogicSystem::RegisterCallbacks
unfoldable pub register_callbacks : List (ℕ × Callback)
unfolding assign
register_callbacks = assign hello_world hello []

module _ (c : Libraries) (h : Host) where
  open c use {parse, from_string, put, to_styled_string}

  -- LogicSystem::HelloWorldCallback. A text that is not JSON is logged, and the callback goes on with
  -- what `root` holds.
  unfoldable pub hello_world_callback : ℕ → MsgNode → System → Outcome System
  unfolding send_view clear_head
  hello_world_callback id node sys = do
    let (_, root) = parse (c_string node.chars)
    with_role ← or_throw (put (text "role") (from_string (text "server")) root)
    s ← checked (find id sys.objects)
    s' ← send_view h (to_styled_string with_role) node.msg_id s
    ok (record sys { objects = assign id (clear_head s') sys.objects })

  unfoldable pub call : Callback → ℕ → MsgNode → System → Outcome System
  unfolding hello_world_callback
  call hello = hello_world_callback

  -- A message with an id that has no callback is logged.
  unfoldable pub dispatch : ℕ → MsgNode → System → Outcome System
  unfolding call
  dispatch id node sys = elim (find node.msg_id register_callbacks) [
    | none ↦ ok sys
    | some f ↦ call f id node sys
  ]

  -- `doWork`. `front` of an empty queue is a fault.
  unfoldable pub do_work : System → Outcome System
  unfolding dispatch deref
  do_work sys = elim sys.world.msg_queue [
    | [] ↦ fault
    | node ∷ rest ↦ do
      let sys' = record sys { world = record sys.world { msg_queue = rest } }
      (_, recv_node) ← deref (some node.recv_node) sys'.world
      dispatch node.session recv_node sys'
  ]

  -- `while (!_msgQueue.empty()) { doWork(); }`
  unfoldable pub drain : ℕ → System → Outcome System
  drain zero sys = ok sys
  drain (suc fuel) sys =
      let rest : Outcome System = do sys' ← do_work sys; drain fuel sys'
      in if is_empty sys.world.msg_queue then ok sys else rest

  -- One round of LogicSystem::DealMsg, with `length` rounds of fuel for the loop of the shutdown.
  unfoldable pub deal_msg : System → Outcome Round
  deal_msg sys =
      let last : Outcome Round = do sys' ← drain (length sys.world.msg_queue) sys; ok (returns sys')
      in let next : Outcome Round = do sys' ← do_work sys; ok (goes_on sys')
        in if not (not (is_empty sys.world.msg_queue) || sys.stop)
          then ok waits
          else if sys.stop
          then last
          else next
