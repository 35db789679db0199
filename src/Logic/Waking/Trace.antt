-- ===== src/Logic/Waking/Trace.antt =====
-- What turns of the worker's thread of src/05_ftp/LogicSystem.cpp put into its queue and take off it.
use boost_asio.Common.{
  ◌≡◌, refl, Option, none, some, List, [], ◌∷◌, ◌++◌, length, leb, if◌then◌else◌, take,
}
use boost_asio.Map.{nat_eq}
use boost_asio.Wire.Const.{max_recv_queue_len}
use boost_asio.Wire.Host.{Host}
use boost_asio.Inbox.{LogicNode}
use boost_asio.Logic.Codec.{Libraries}
use boost_asio.Logic.Worker.{handle_all}
use boost_asio.Logic.{System, Round, waits, goes_on, returns, deal_msg}
use boost_asio.Logic.Waking.{Thread, Turn, checks, posts, step}
use boost_asio.Logic.Waking.Rounds.{with_inbox}

-- The message that a turn puts into the queue
unfoldable pub accepted : Turn → Thread → List LogicNode
accepted (posts node) t =
    if leb max_recv_queue_len (length t.system.world.inbox.msg_queue) then [] else node ∷ []
accepted _ t = []

-- The messages that a turn takes off the queue
abbrev pub handled_by : Option Round → List LogicNode → List LogicNode
handled_by none q = []
handled_by (some waits) q = []
handled_by (some (goes_on sys)) q = take 1 q
handled_by (some (returns sys)) q = q

unfoldable pub handled : Libraries → Host → Turn → Thread → List LogicNode
handled c h checks t = handled_by (deal_msg c h t.system) t.system.world.inbox.msg_queue
handled c h _ t = []

-- What some turns give, one after the other
unfoldable pub along :
    Libraries → Host → (Turn → Thread → List LogicNode) → List Turn → Thread → List LogicNode
along c h f [] t = []
along c h f (turn ∷ turns) t =
    f turn t ++ elim (step c h turn t) [ none ↦ [] | some u ↦ along c h f turns u ]

-- From a thread to another, with what is accepted and what is handled on the way
pub record Handles (c : Libraries) (h : Host) (t u : Thread) (xs ys : List LogicNode) : Type 0 where
  pub in_order : t.system.world.inbox.msg_queue ++ xs ≡ ys ++ u.system.world.inbox.msg_queue
  pub after : System
  pub ran : handle_all c h ys t.system ≡ some after
  pub same : u.system ≡ with_inbox u.system.world.inbox after

pub quiet :
    (c : Libraries) (h : Host) (t u : Thread) (xs : List LogicNode)
    → t.system.world.inbox.msg_queue ++ xs ≡ u.system.world.inbox.msg_queue
    → u.system ≡ with_inbox u.system.world.inbox t.system
    → Handles c h t u xs []
unfolding handle_all
quiet c h t u xs e same = record { in_order = e; after = t.system; ran = refl; same = same }
