-- ===== src/Logic.antt =====
-- src/05_ftp/LogicSystem.cpp: the worker that takes the posted messages from the queue and calls
-- the callback of each. An exception that a callback throws ends the program, since nothing
-- catches it in the worker's thread: it is `none`, like a fault. The worker holds the queue's lock
-- while a callback runs, so each step here is one critical section.
pub mod Codec
pub mod Worker
pub mod Upload
pub mod Files
pub mod Waking
pub mod Posts
pub mod Delivery
use Prim.Native.Char.{code}
use Prim.Native.String.{String}
use boost_asio.Common.{
  ℕ, zero, suc, Bool, true, false, not, ◌||◌, Option, none, some, ◌>>=◌, List, [], ◌∷◌, ◌++◌, Bytes,
  ◌==◌, if◌then◌else◌, length,
}
use boost_asio.Memory.{c_string}
use boost_asio.Map.{find, assign, nat_eq, bytes_eq}
use boost_asio.Wire.Const.{
  success, test_msg_recv, test_msg_send, upload_file_recv, upload_file_send,
}
use boost_asio.Wire.Host.{Host}
use boost_asio.Wire.Node.{MsgNode}
use boost_asio.Inbox.{Inbox, LogicNode}
use boost_asio.World.{World}
use boost_asio.Session.{Session, send_view, clear_head, is_empty}
use boost_asio.Reader.{deref}
use Codec.{Libraries}

-- a text literal of the source, in ASCII
abbrev pub text : String → Bytes
text String.[] = []
text (String.◌∷◌ c s) = code c ∷ text s

pub record System : Type 0 where
  pub world : World
  -- the sessions that a `shared_ptr` still holds, by their ids
  pub objects : List (ℕ × Session)
  pub files : List (Bytes × Bytes)
  -- ConfigManager::GetStaticPath()
  pub static_path : Bytes

pub data Callback : Type 0 where
  test_msg upload_file : Callback

-- What one round of the worker's loop comes to.
pub data Round : Type 0 where
  waits : Round
  goes_on returns : System → Round

-- LogicSystem::RegisterCallbacks
unfoldable pub register_callbacks : List (ℕ × Callback)
unfolding assign
register_callbacks = assign upload_file_recv upload_file (assign test_msg_recv test_msg [])

-- session->Send(msg, id)
unfoldable pub respond : Host → ℕ → Bytes → ℕ → System → Option System
respond h id msg msg_id sys = do
  s ← find id sys.objects
  s' ← send_view h msg msg_id s
  some (record sys { objects = assign id s' sys.objects })

unfoldable pub reset_head : ℕ → System → Option System
reset_head id sys = do
  s ← find id sys.objects
  some (record sys { objects = assign id (clear_head s) sys.objects })

-- ofstream: `open` with `trunc` or `app`, and `write`
unfoldable pub write_file : Bool → Bytes → Bytes → List (Bytes × Bytes) → List (Bytes × Bytes)
write_file append path bytes files = elim (find path files) [
  | none ↦ assign path bytes files
  | some old ↦ assign path (if append then old ++ bytes else bytes) files
]

module _ (c : Libraries) where
  open c use {null, from_string, from_int, put, member, as_string, as_int}

  unfoldable pub upload_response : Bytes → ℕ → ℕ → ℕ → Option c.Value
  upload_response name seq total_size trans_size = do
    a ← put (text "error") (from_int success) null
    b ← put (text "name") (from_string name) a
    d ← put (text "seq") (from_int seq) b
    e ← put (text "total_size") (from_int total_size) d
    put (text "trans_size") (from_int trans_size) e

  unfoldable pub string_member : Bytes → c.Value → Option Bytes
  string_member key root = do v ← member key root; as_string v

  unfoldable pub int_member : Bytes → c.Value → Option ℕ
  int_member key root = do v ← member key root; as_int v

module _ (c : Libraries) (h : Host) where
  open c use {parse, from_string, from_int, put, to_styled_string, base64_decode, join, opens}

  -- A text that is not JSON is logged, and the callback goes on with what `root` holds.
  unfoldable pub test_msg_callback : ℕ → MsgNode → System → Option System
  unfolding respond reset_head
  test_msg_callback id node sys = do
    let (_, root) = parse (c_string node.chars)
    with_role ← put (text "role") (from_string (text "server")) root
    with_error ← put (text "error") (from_int success) with_role
    sys' ← respond h id (to_styled_string with_error) test_msg_send sys
    reset_head id sys'

  unfoldable pub upload_file_callback : ℕ → MsgNode → System → Option System
  unfolding respond upload_response write_file
  upload_file_callback id node sys = do
    let (_, root) = parse (c_string node.chars)
    encoded ← string_member c (text "data") root
    decoded_data ← base64_decode encoded
    seq ← int_member c (text "seq") root
    name ← string_member c (text "name") root
    total_size ← int_member c (text "total_size") root
    trans_size ← int_member c (text "trans_size") root
    let file_path = join sys.static_path name
    let written = record sys {
      files = write_file (not (seq == 0)) file_path decoded_data sys.files;
    }
    let answered : Option System = do
      response ← upload_response c name seq total_size trans_size
      respond h id (to_styled_string response) upload_file_send written
    if opens file_path then answered else some sys

  unfoldable pub call : Callback → ℕ → MsgNode → System → Option System
  unfolding test_msg_callback upload_file_callback
  call test_msg = test_msg_callback
  call upload_file = upload_file_callback

  -- A message with an id that has no callback is logged.
  unfoldable pub dispatch : ℕ → MsgNode → System → Option System
  unfolding call
  dispatch id node sys = elim (find node.msg_id register_callbacks) [
    | none ↦ some sys
    | some f ↦ call f id node sys
  ]

  -- `doWork`. `front` of an empty queue is a fault.
  unfoldable pub do_work : System → Option System
  unfolding dispatch deref
  do_work sys = elim sys.world.inbox.msg_queue [
    | [] ↦ none
    | node ∷ rest ↦ do
      let inbox = record sys.world.inbox { msg_queue = rest }
      let sys' = record sys { world = record sys.world { inbox = inbox } }
      (_, recv_node) ← deref (some node.recv_node) sys'.world
      dispatch node.session recv_node sys'
  ]

  -- `while (!_msgQueue.empty()) { doWork(); }`
  unfoldable pub drain : ℕ → System → Option System
  unfolding is_empty
  drain zero sys = some sys
  drain (suc fuel) sys =
      let rest : Option System = do sys' ← do_work sys; drain fuel sys'
      in if is_empty sys.world.inbox.msg_queue then some sys else rest

  -- One round of the worker's loop, with `length` rounds of fuel for the loop of the shutdown.
  unfoldable pub deal_msg : System → Option Round
  unfolding is_empty
  deal_msg sys =
      let inbox = sys.world.inbox in
      let last : Option Round = do sys' ← drain (length inbox.msg_queue) sys; some (returns sys')
      in let next : Option Round = do sys' ← do_work sys; some (goes_on sys')
        in if not (not (is_empty inbox.msg_queue) || inbox.stop)
          then some waits
          else if inbox.stop
          then last
          else next
