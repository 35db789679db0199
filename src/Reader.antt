-- ===== src/Reader.antt =====
-- The reading side of src/05_ftp/Session.cpp: the coroutine of `Start`, its callback version, and
-- the parsing of heads and bodies. `resume` is one resumption of the coroutine at a `co_await`,
-- with what `async_read` gave: all the bytes of the buffer, or an exception. `feed` resumes it
-- with the bytes of a connection, until the connection ends.
pub mod Message
pub mod Stream
pub mod Arrival
pub mod Rejected
pub mod Callbacks
pub mod Ending
pub mod EndToEnd
use boost_asio.Common.{
  ℕ, zero, suc, ◌+◌, Bool, true, false, Option, none, some, ◌>>=◌, ◌∷◌, Bytes, ltb, leb, ◌==◌,
  if◌then◌else◌, length, take, drop, get_elem?, set,
}
use boost_asio.Memory.{memcpy, peek, poke}
use boost_asio.Wire.Const.{max_len, head_id_len, head_data_len, head_total_len}
use boost_asio.Wire.Host.{Host, load16, load32}
use boost_asio.Wire.Node.{MsgNode, recv_node}
use boost_asio.Inbox.{Inbox, post_msg_to_que}
use boost_asio.World.{World, alloc, remove_session}
use boost_asio.Session.{Session, clear_head, clear_msg}

-- where the coroutine stands
pub data Co : Type 0 where
  reading_head reading_msg returned : Co

pub record Reader : Type 0 where
  pub co : Co
  pub session : Session
  pub world : World

-- Session::PraseHead
unfoldable pub prase_head : Host → Session → World → Option (Session × World)
prase_head h s w = do
  id_chars ← peek s.recv_head_node.chars 0 head_id_len
  let msg_id = h.network_to_host_short (load16 h.order id_chars)
  len_chars ← peek s.recv_head_node.chars head_id_len head_data_len
  let valid_data_len = h.network_to_host_long (load32 h.order len_chars)
  let (node, w') = alloc (recv_node h valid_data_len msg_id) w
  some (
      if ltb max_len valid_data_len
      then (clear_head s, remove_session s.id w)
      else (record s { recv_msg_node = some node }, w'))

-- A node on the heap. A place without one is a fault.
unfoldable pub deref : Option ℕ → World → Option (ℕ × MsgNode)
deref p w = do a ← p; n ← get_elem? w.nodes a; some (a, n)

unfoldable pub store : ℕ → MsgNode → World → World
store a n w = record w { nodes = set w.nodes a n }

-- Session::PraseMsg
unfoldable pub prase_msg : Session → World → Option World
unfolding deref store
prase_msg s w = do
  (a, n) ← deref s.recv_msg_node w
  chars ← poke n.chars n.total_len 0
  let w' = store a (record n { chars = chars }) w
  some (record w' { inbox = post_msg_to_que (record { session = s.id; recv_node = a }) w'.inbox })

-- What `async_read` puts into the buffers.
unfoldable pub fill_head : Bytes → Session → Option Session
fill_head bytes s = do
  chars ← memcpy s.recv_head_node.chars 0 bytes
  some (record s { recv_head_node = record s.recv_head_node { chars = chars } })

unfoldable pub fill_msg : Bytes → Session → World → Option World
unfolding deref store
fill_msg bytes s w = do
  (a, n) ← deref s.recv_msg_node w
  chars ← memcpy n.chars 0 bytes
  some (store a (record n { chars = chars }) w)

-- `buffer(_recvMsgNode->Data(), …)` goes through the pointer.
unfoldable pub await_msg : Session → World → Option Reader
unfolding deref
await_msg s w = do
  (a, n) ← deref s.recv_msg_node w
  some (record { co = reading_msg; session = s; world = w })

abbrev pub await_head : Session → World → Reader
await_head s w = record { co = reading_head; session = s; world = w }

-- both places where no byte was transferred
abbrev pub disconnected : Session → World → Reader
disconnected s w = record { co = returned; session = clear_head s; world = remove_session s.id w }

unfoldable pub on_head : Host → Bytes → Session → World → Option Reader
unfolding fill_head prase_head await_msg
on_head h bytes s w = do
  s' ← fill_head bytes s
  let parsed : Option Reader = do (s'', w'') ← prase_head h s' w; await_msg s'' w''
  if length bytes == 0 then some (disconnected s' w) else parsed

unfoldable pub on_msg : Bytes → Session → World → Option Reader
unfolding fill_msg prase_msg
on_msg bytes s w = do
  w' ← fill_msg bytes s w
  let parsed : Option Reader = do w'' ← prase_msg s w'; some (await_head s w'')
  if length bytes == 0 then some (disconnected s w') else parsed

-- The handler of the exception: `Clear()`, `RemoveSession`.
unfoldable pub on_exception : Session → World → Reader
unfolding clear_msg
on_exception s w = record {
  co = returned;
  session = clear_head s;
  world = remove_session s.id (clear_msg s w);
}

-- What one `co_await async_read` comes to.
pub data Read : Type 0 where
  received : Bytes → Read
  threw : Read

unfoldable pub resume_at : Host → Co → Read → Session → World → Option Reader
unfolding on_head on_msg on_exception
resume_at h returned read s w = some (record { co = returned; session = s; world = w })
resume_at h reading_head (received bytes) s w = on_head h bytes s w
resume_at h reading_msg (received bytes) s w = on_msg bytes s w
resume_at h _ threw s w = some (on_exception s w)

-- Session::Start, up to its first `co_await`
unfoldable pub start : Session → World → Reader
unfolding clear_msg
start s w = await_head (clear_head s) (clear_msg s w)

-- Session::HandlerReadHead and HandlerReadMsg, the handlers that stand for the coroutine where
-- USE_COROUTINE is not defined. `_ec` with the bytes that are in the buffer by then; a failed
-- `assert` is a fault, and the chain of reads ends on an error.
unfoldable pub handler_read_head : Host → Bool → Bytes → Session → World → Option Reader
unfolding fill_head prase_head await_msg
handler_read_head h ec bytes s w = do
  s' ← fill_head bytes s
  let parsed : Option Reader = do (s'', w'') ← prase_head h s' w; await_msg s'' w''
  if ec then some (disconnected s' w) else if length bytes == head_total_len then parsed else none

unfoldable pub handler_read_msg : Bool → Bytes → Session → World → Option Reader
unfolding fill_msg prase_msg deref clear_msg
handler_read_msg ec bytes s w = do
  w' ← fill_msg bytes s w
  (a, n) ← deref s.recv_msg_node w'
  let parsed : Option Reader = do w'' ← prase_msg s w'; some (await_head s w'')
  if ec
      then some
          (record { co = returned; session = s; world = remove_session s.id (clear_msg s w') })
      else if length bytes == n.total_len
      then parsed
      else none

-- The size of the buffer that the coroutine waits to be filled.
unfoldable pub wanted : Reader → Option ℕ
unfolding deref
wanted r = elim r.co [
  | reading_head ↦ some head_total_len
  | reading_msg ↦ do (a, n) ← deref r.session.recv_msg_node r.world; some n.total_len
  | returned ↦ some 0
]

-- `async_read` of `n` bytes from a connection that holds `stream` and then ends.
unfoldable pub next_read : ℕ → Bytes → Read
next_read n stream = if leb n (length stream) then received (take n stream) else threw

unfoldable pub feed_once : Host → Bytes → Reader → Option (Bytes × Reader)
unfolding wanted next_read resume_at
feed_once h stream r = do
  n ← wanted r
  r' ← resume_at h r.co (next_read n stream) r.session r.world
  some (drop n stream, r')

unfoldable pub feed : ℕ → Host → Bytes → Reader → Option Reader
feed zero h stream r = some r
feed (suc fuel) h stream r = do (rest, r') ← feed_once h stream r; feed fuel h rest r'
