-- ===== src/Reader/Message.antt =====
-- One message, head and body, through the reading side of src/05_ftp/Session.cpp.
use boost_asio.Common.{
  ℕ, ◌+◌, ◌≤◌, ◌<◌, ◌^◌, ◌/◌, ◌%◌, ◌≡◌, false, ap, ◌∙◌, some, [], ◌∷◌, ◌++◌, length, drop,
  length-drop, get_elem?, get_elem?-append_end, get_elem?-set_self, get_elem?-eq_some-lt, set-set,
  set, Bytes, ltb, le→ltb, ◌==◌, if◌then◌else◌, arith,
}
use boost_asio.Memory.{memcpy, poke, memcpy-append, peek-append, poke-append}
use boost_asio.Wire.Const.{max_len}
use boost_asio.Wire.Host.{
  Host, IsHost, bytes16, bytes32, value16-bytes, value32-bytes, load16, load32,
}
use boost_asio.Wire.Layout.{one_left}
use boost_asio.Wire.Node.{MsgNode, recv_node}
use boost_asio.Inbox.{post_msg_to_que}
use boost_asio.World.{World, alloc, remove_session}
use boost_asio.Session.{Session, clear_head}
use boost_asio.Reader.{
  reading_msg, prase_head, fill_head, await_msg, await_head, on_head, on_msg, deref, store,
}

-- The six bytes in front of a body.
abbrev pub head : ℕ → ℕ → Bytes
head msg_id len = bytes16 msg_id ++ bytes32 len

-- The header's array has room for the header and a terminator.
abbrev pub HeadFits : Session → Type 0
HeadFits s = length s.recv_head_node.chars ≡ 7

-- The session whose header's array holds a header.
unfoldable pub with_head : ℕ → ℕ → Session → Session
with_head msg_id len s = record s {
  recv_head_node = record s.recv_head_node {
    chars = head msg_id len ++ drop 6 s.recv_head_node.chars;
  };
}

pub with_head-HeadFits :
    (msg_id len : ℕ) (s : Session) → HeadFits s → HeadFits (with_head msg_id len s)
unfolding with_head
with_head-HeadFits msg_id len s v = omega (arith, length-drop 6 s.recv_head_node.chars)

pub fill_head-head :
    (msg_id len : ℕ) (s : Session)
    → HeadFits s
    → fill_head (head msg_id len) s ≡ some (with_head msg_id len s)
unfolding fill_head with_head
fill_head-head msg_id len s v =
    rw (memcpy-append [] s.recv_head_node.chars (head msg_id len) (omega arith))

-- What `PraseHead` makes of a header in the buffer.
unfoldable pub parsed_head : Host → ℕ → ℕ → Session → World → Session × World
parsed_head h msg_id len s w =
    if ltb max_len len
    then (clear_head s, remove_session s.id w)
    else (record s { recv_msg_node = some (length w.nodes) }, (alloc (recv_node h len msg_id) w).1)

module _ (h : Host) (law : IsHost h) where
  read_short : (v : ℕ) → v < 2 ^ 16 → h.network_to_host_short (load16 h.order (bytes16 v)) ≡ v
  read_short v fits =
      law.short_in (v / 256 % 256) (v % 256) (omega arith) (omega arith) ∙ value16-bytes v fits

  read_long : (v : ℕ) → v < 2 ^ 32 → h.network_to_host_long (load32 h.order (bytes32 v)) ≡ v
  read_long v fits =
      law.long_in (v / 16777216 % 256) (v / 65536 % 256) (v / 256 % 256) (v % 256) (omega arith)
        (omega arith) (omega arith) (omega arith)
      ∙ value32-bytes v fits

  pub prase_head-head :
      (msg_id len : ℕ) (s : Session) (w : World)
      → msg_id < 2 ^ 16
      → len < 2 ^ 32
      → prase_head h (with_head msg_id len s) w
        ≡ some (parsed_head h msg_id len (with_head msg_id len s) w)
  unfolding prase_head with_head parsed_head alloc
  prase_head-head msg_id len s w id_short fits = rw (
    peek-append [] (bytes16 msg_id) (bytes32 len ++ drop 6 s.recv_head_node.chars),
    peek-append (bytes16 msg_id) (bytes32 len) (drop 6 s.recv_head_node.chars),
    read_short msg_id id_short,
    read_long len fits,
  )

  -- A header of a size that is allowed: a node is made for the body, and the body is read next.
  pub on_head-head :
      (msg_id len : ℕ) (s : Session) (w : World)
      → HeadFits s
      → msg_id < 2 ^ 16
      → len ≤ max_len
      → on_head h (head msg_id len) s w
        ≡ some (record {
          co = reading_msg;
          session = record (with_head msg_id len s) { recv_msg_node = some (length w.nodes) };
          world = record w { nodes = w.nodes ++ recv_node h len msg_id ∷ [] };
        })
  unfolding on_head parsed_head alloc await_msg deref
  on_head-head msg_id len s w v id_short small = rw (
    fill_head-head msg_id len s v,
    prase_head-head msg_id len s w id_short (omega arith),
    le→ltb max_len len small,
    get_elem?-append_end w.nodes (recv_node h len msg_id),
  )

-- A body in the array that was made for it, with the terminator behind.
pub fill_array :
    (chars msg : Bytes)
    → length chars ≡ length msg + 1
    → (full : Bytes) × (memcpy chars 0 msg ≡ some full)
      × (poke full (length msg) 0 ≡ some (msg ++ 0 ∷ []))
fill_array chars msg size =
    let (x, last) =
      one_left (drop (length msg) chars) (omega (arith, length-drop (length msg) chars)) in
    (
      msg ++ x ∷ [],
      memcpy-append [] chars msg (omega arith) ∙ ap (λ (r : Bytes). some (msg ++ r)) last,
      poke-append msg x 0 [],
    )

abbrev pub terminated : MsgNode → Bytes → MsgNode
terminated n msg = record n { chars = msg ++ 0 ∷ [] }

-- The world after a body has been read into the node at `a` and posted for the session `id`.
unfoldable pub delivered : ℕ → ℕ → MsgNode → Bytes → World → World
delivered id a n msg w = record w {
  nodes = set w.nodes a (terminated n msg);
  inbox = post_msg_to_que (record { session = id; recv_node = a }) w.inbox;
}

pub ne_zero : (n : ℕ) → 0 < n → (n == 0) ≡ false
ne_zero n h = ground arith

pub on_msg-body :
    (msg : Bytes) (s : Session) (w : World) (a : ℕ) (n : MsgNode)
    → s.recv_msg_node ≡ some a
    → get_elem? w.nodes a ≡ some n
    → n.total_len ≡ length msg
    → length n.chars ≡ length msg + 1
    → 0 < length msg
    → on_msg msg s w ≡ some (await_head s (delivered s.id a n msg w))
unfolding on_msg deref store delivered
on_msg-body msg s w a n held at_a len size some_byte =
    let (full, copied, ended) = fill_array n.chars msg size in
    let inside = get_elem?-eq_some-lt w.nodes a at_a in
    rw (
      held,
      at_a,
      copied,
      get_elem?-set_self w.nodes a (record n { chars = full }) inside,
      len,
      ended,
      set-set,
      ne_zero (length msg) some_byte,
    )
