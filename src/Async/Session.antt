-- ===== src/Async/Session.antt =====
-- src/02_async/Session.h and Session.cpp: the session, its sending side, and the coroutine that
-- reads, up to the queue of src/02_async/LogicSystem.cpp.
pub mod Reading
pub mod Sending
pub mod Negative
pub mod Callbacks
use boost_asio.Common.{
  ℕ, ◌+◌, ◌%◌, ◌^◌, Bool, true, false, not, Option, none, some, List, [], ◌∷◌, ◌++◌, Bytes, ltb,
  leb, ◌==◌, if◌then◌else◌, length, take, get_elem?, set,
}
use boost_asio.Map.{erase, nat_eq}
use boost_asio.Memory.{memcpy, peek}
use boost_asio.Wire.Host.{Host, load16}
use boost_asio.Inbox.{LogicNode}
use boost_asio.Async.Wire.{
  Outcome, ok, throws, fault, ◌>>=◌, checked, ℤ, pos, negsuc, signed16, head_id_len, head_data_len,
  head_total_len, max_id, max_len, max_send_queue_len, max_recv_queue_len, MsgNode, msg_node, clear,
  terminate, send_node,
}

pub record Session : Type 0 where
  pub id : ℕ
  -- the buffers of the `async_write` calls that have not completed
  pub writing : List Bytes
  pub send_queue : List MsgNode
  -- a null `shared_ptr` is `none`; a node is named by its place on the heap
  pub recv_msg_node : Option ℕ
  pub recv_head_node : MsgNode

pub record World : Type 0 where
  pub nodes : List MsgNode
  -- `Server::_sessions`
  pub sessions : List (ℕ × ℕ)
  pub msg_queue : List LogicNode

-- Server::RemoveSession
unfoldable pub remove_session : ℕ → World → World
remove_session id w = record w { sessions = erase id w.sessions }

-- LogicSystem::PostMsgToQue
unfoldable pub post_msg_to_que : LogicNode → World → World
post_msg_to_que node w =
    if leb max_recv_queue_len (length w.msg_queue)
    then w
    else record w { msg_queue = w.msg_queue ++ node ∷ [] }

-- The id of the header's node is the short -1.
unfoldable pub new_session : Host → ℕ → Outcome Session
unfolding msg_node
new_session h id = do
  head ← msg_node h head_total_len 0xffff
  ok (record {
    id = id;
    writing = [];
    send_queue = [];
    recv_msg_node = none;
    recv_head_node = head;
  })

-- What `async_write` of a node sends; a node that was built has no negative length.
abbrev pub sent : MsgNode → Bytes
sent n = elim n.total_len [ pos k ↦ take k n.chars | negsuc k ↦ [] ]

abbrev pub is_empty {ℓ} : {A : Type ℓ} → List A → Bool
is_empty [] = true
is_empty (x ∷ xs) = false

-- The write of the front of the queue, if there is one
unfoldable pub write_front : Session → Session
write_front s = elim s.send_queue [
  | [] ↦ s
  | n ∷ q ↦ record s { writing = s.writing ++ sent n ∷ [] }
]

-- Session::Send; `totalLen` is an `int` and becomes a `short`.
unfoldable pub send : Host → Bytes → ℕ → ℕ → Session → Outcome Session
unfolding write_front
send h msg total_len msg_id s =
    let pending = not (is_empty s.send_queue) in
    if leb max_send_queue_len (length s.send_queue) then ok s else do
      n ← send_node h msg (total_len % 2 ^ 16) msg_id
      let s' = record s { send_queue = s.send_queue ++ n ∷ [] }
      ok (if pending then s' else write_front s')

-- Session::Send of a string_view
unfoldable pub send_view : Host → Bytes → ℕ → Session → Outcome Session
unfolding send
send_view h msg msg_id s = send h msg (length msg % 2 ^ 32) msg_id s

-- Session::HandlerWrite, when the first write ends, with an error or not; `pop` of an empty queue is
-- a fault.
unfoldable pub handler_write : Bool → Session → World → Outcome (Session × World)
unfolding write_front
handler_write ec s w =
    let written : Outcome (Session × World) = elim s.send_queue [
      | [] ↦ fault
      | n ∷ q ↦ ok (write_front (record s { send_queue = q }), w)
    ] in
    if ec then ok (s, remove_session s.id w) else written

unfoldable pub write_done : Bool → Session → World → Outcome (Session × World)
unfolding handler_write
write_done ec s w = elim s.writing [
  | [] ↦ ok (s, w)
  | b ∷ rest ↦ handler_write ec (record s { writing = rest }) w
]

-- Session::ClearHead
unfoldable pub clear_head : Session → Session
clear_head s = record s { recv_head_node = clear s.recv_head_node }

-- Session::ClearMsg
unfoldable pub clear_msg : Session → World → World
clear_msg s w = elim s.recv_msg_node [
  | none ↦ w
  | some a ↦ elim (get_elem? w.nodes a) [
    | none ↦ w
    | some n ↦ record w { nodes = set w.nodes a (clear n) }
  ]
]

-- `>` between a `short` and a constant of type `int`
unfoldable pub exceeds : ℕ → ℕ → Bool
exceeds limit w = elim (signed16 w) [ pos n ↦ ltb limit n | negsuc n ↦ false ]

-- Session::PraseHead
unfoldable pub prase_head : Host → Session → World → Outcome (Session × World)
unfolding exceeds
prase_head h s w = do
  id_chars ← checked (peek s.recv_head_node.chars 0 head_id_len)
  let msg_id = h.network_to_host_short (load16 h.order id_chars)
  len_chars ← checked (peek s.recv_head_node.chars head_id_len head_data_len)
  let valid_data_len = h.network_to_host_short (load16 h.order len_chars)
  let rejected : Outcome (Session × World) = ok (clear_head s, remove_session s.id w)
  let accepted : Outcome (Session × World) = do
    n ← msg_node h valid_data_len msg_id
    ok (record s { recv_msg_node = some (length w.nodes) }, record w { nodes = w.nodes ++ n ∷ [] })
  if exceeds max_id msg_id
      then rejected
      else if exceeds max_len valid_data_len
      then rejected
      else accepted

unfoldable pub deref : Option ℕ → World → Outcome (ℕ × MsgNode)
deref p w = do a ← checked p; n ← checked (get_elem? w.nodes a); ok (a, n)

-- Session::PraseMsg
unfoldable pub prase_msg : Session → World → Outcome World
unfolding deref terminate post_msg_to_que
prase_msg s w = do
  (a, n) ← deref s.recv_msg_node w
  chars ← terminate n.chars n.total_len
  ok (
      post_msg_to_que (record { session = s.id; recv_node = a })
        (record w { nodes = set w.nodes a (record n { chars = chars }) }))

-- where the coroutine of `Start` stands
pub data Co : Type 0 where
  reading_head reading_msg returned : Co

pub record Reader : Type 0 where
  pub co : Co
  pub session : Session
  pub world : World

abbrev pub await_head : Session → World → Reader
await_head s w = record { co = reading_head; session = s; world = w }

unfoldable pub await_msg : Session → World → Outcome Reader
unfolding deref
await_msg s w = do
  (a, n) ← deref s.recv_msg_node w
  ok (record { co = reading_msg; session = s; world = w })

-- both places where no byte was transferred
abbrev pub disconnected : Session → World → Reader
disconnected s w = record { co = returned; session = clear_head s; world = remove_session s.id w }

-- The handler of an exception only prints it.
abbrev pub on_exception : Session → World → Reader
on_exception s w = record { co = returned; session = s; world = w }

abbrev pub catches : Session → World → Outcome Reader → Outcome Reader
catches s w (ok r) = ok r
catches s w throws = ok (on_exception s w)
catches s w fault = fault

unfoldable pub on_head : Host → Bytes → Session → World → Outcome Reader
unfolding prase_head await_msg
on_head h bytes s w = do
  chars ← checked (memcpy s.recv_head_node.chars 0 bytes)
  let s' = record s { recv_head_node = record s.recv_head_node { chars = chars } }
  let parsed : Outcome Reader = do (s'', w'') ← prase_head h s' w; await_msg s'' w''
  if length bytes == 0 then ok (disconnected s' w) else catches s' w parsed

unfoldable pub on_msg : Bytes → Session → World → Outcome Reader
unfolding deref prase_msg
on_msg bytes s w = do
  (a, n) ← deref s.recv_msg_node w
  chars ← checked (memcpy n.chars 0 bytes)
  let w' = record w { nodes = set w.nodes a (record n { chars = chars }) }
  let parsed : Outcome Reader = do w'' ← prase_msg s w'; ok (await_head s w'')
  if length bytes == 0 then ok (disconnected s w') else parsed

-- What one `co_await async_read` comes to.
pub data Read : Type 0 where
  received : Bytes → Read
  threw : Read

unfoldable pub resume_at : Host → Co → Read → Session → World → Outcome Reader
unfolding on_head on_msg
resume_at h returned read s w = ok (record { co = returned; session = s; world = w })
resume_at h reading_head (received bytes) s w = on_head h bytes s w
resume_at h reading_msg (received bytes) s w = on_msg bytes s w
resume_at h _ threw s w = ok (on_exception s w)

-- Session::Start, up to its first `co_await`
unfoldable pub start : Session → World → Reader
unfolding clear_head clear_msg
start s w = await_head (clear_head s) (clear_msg s w)
