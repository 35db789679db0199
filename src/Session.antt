-- ===== src/Session.antt =====
-- src/05_ftp/include/Session.h and Session.cpp: the session object and its sending side. What the
-- reading side does is in Reader. `_sendLock` makes `Send` and the end of `HandlerWrite` atomic.
pub mod Fifo
pub mod Queue
pub mod Order
pub mod Failure
use boost_asio.Common.{
  ℕ, ◌%◌, ◌^◌, Bool, true, false, not, Option, none, some, ◌>>=◌, List, [], ◌∷◌, ◌++◌, leb,
  if◌then◌else◌, length, get_elem?, set, Bytes,
}
use boost_asio.World.{World, remove_session}
use boost_asio.Wire.Const.{head_total_len, max_send_queue_len}
use boost_asio.Wire.Host.{Host}
use boost_asio.Wire.Node.{MsgNode, recv_node, send_node, clear}
use boost_asio.Wire.Layout.{sent}

pub record Socket : Type 0 where
  pub is_open : Bool
  -- the buffers of the `async_write` calls that have not completed
  pub writing : List Bytes

pub record Session : Type 0 where
  pub id : ℕ
  pub sock : Socket
  pub send_queue : List MsgNode
  -- a null `shared_ptr` is `none`
  pub recv_msg_node : Option ℕ
  pub recv_head_node : MsgNode

-- The id of the header's node is the short -1.
unfoldable pub new_session : Host → ℕ → Session
new_session h id = record {
  id = id;
  sock = record { is_open = false; writing = [] };
  send_queue = [];
  recv_msg_node = none;
  recv_head_node = recv_node h head_total_len 0xffff;
}

unfoldable pub async_write : MsgNode → Session → Session
async_write n s = record s {
  sock = record { is_open = s.sock.is_open; writing = s.sock.writing ++ sent n ∷ [] };
}

unfoldable pub is_empty {ℓ} : {A : Type ℓ} → List A → Bool
is_empty [] = true
is_empty (x ∷ xs) = false

-- `front()` of the queue that was empty before the push
unfoldable pub write_front : Session → Option Session
write_front s = elim s.send_queue [ [] ↦ none | n ∷ q ↦ some (async_write n s) ]

unfoldable pub send : Host → Bytes → ℕ → ℕ → Session → Option Session
unfolding is_empty write_front async_write
send h msg total_len msg_id s =
    let pending = not (is_empty s.send_queue) in
    if leb max_send_queue_len (length s.send_queue) then some s else do
      n ← send_node h msg total_len msg_id
      let s' = record s { send_queue = s.send_queue ++ n ∷ [] }
      if pending then some s' else write_front s'

-- `msg.size()` becomes an `int`, and that the `unsigned int` of `SendNode`.
unfoldable pub send_view : Host → Bytes → ℕ → Session → Option Session
unfolding send
send_view h msg msg_id s = send h msg (length msg % 2 ^ 32) msg_id s

-- What follows `_sendQueue.pop()`
unfoldable pub write_next : Session → Session
unfolding async_write
write_next s = elim s.send_queue [ [] ↦ s | n ∷ q ↦ async_write n s ]

-- `pop` of an empty queue is a fault.
unfoldable pub pop : Session → Option Session
pop s = elim s.send_queue [ [] ↦ none | n ∷ q ↦ some (record s { send_queue = q }) ]

unfoldable pub handler_write : Bool → Session → World → Option (Session × World)
unfolding pop write_next
handler_write ec s w =
    if ec then some (s, remove_session s.id w) else do s' ← pop s; some (write_next s', w)

-- The first write ends, with an error or not, and the handler runs. Nothing can end if nothing
-- is being written.
unfoldable pub write_done : Bool → Session → World → Option (Session × World)
unfolding handler_write
write_done ec s w = elim s.sock.writing [
  | [] ↦ some (s, w)
  | b ∷ rest ↦
      handler_write ec (record s { sock = record { is_open = s.sock.is_open; writing = rest } }) w
]

-- Session::ClearHead
unfoldable pub clear_head : Session → Session
clear_head s = record s { recv_head_node = clear s.recv_head_node }

unfoldable pub clear_at : Option ℕ → World → World
clear_at none w = w
clear_at (some a) w = elim (get_elem? w.nodes a) [
  | none ↦ w
  | some n ↦ record w { nodes = set w.nodes a (clear n) }
]

-- Session::ClearMsg
unfoldable pub clear_msg : Session → World → World
unfolding clear_at
clear_msg s w = clear_at s.recv_msg_node w

-- Session::Stop
unfoldable pub stop : Session → Session
stop s = record s { sock = record { is_open = false; writing = s.sock.writing } }
