-- ===== src/Inbox.antt =====
-- The message queue of src/05_ftp/LogicSystem.cpp: `LogicNode` and `PostMsgToQue`.
use boost_asio.Common.{ℕ, ◌<◌, ◌≡◌, Bool, List, [], ◌∷◌, ◌++◌, leb, lt→leb, if◌then◌else◌, length}
use boost_asio.Wire.Const.{max_recv_queue_len}

-- The session by its id, and the node by its place on the heap.
pub record LogicNode : Type 0 where
  pub session : ℕ
  pub recv_node : ℕ

pub record Inbox : Type 0 where
  pub msg_queue : List LogicNode
  pub stop : Bool

-- `notify_one` wakes the worker; what it then does is in Logic.
unfoldable pub post_msg_to_que : LogicNode → Inbox → Inbox
post_msg_to_que node q =
    if leb max_recv_queue_len (length q.msg_queue)
    then q
    else record q { msg_queue = q.msg_queue ++ node ∷ [] }

pub post_msg_to_que-room :
    (node : LogicNode) (q : Inbox)
    → length q.msg_queue < max_recv_queue_len
    → post_msg_to_que node q ≡ record q { msg_queue = q.msg_queue ++ node ∷ [] }
unfolding post_msg_to_que
post_msg_to_que-room node q room = rw (lt→leb max_recv_queue_len (length q.msg_queue) room)
