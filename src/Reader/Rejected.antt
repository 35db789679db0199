-- ===== src/Reader/Rejected.antt =====
-- The messages that src/05_ftp/Session.cpp does not take: a header with a length above MAX_LEN,
-- and a header with the length 0.
use boost_asio.Common.{
  ℕ, ◌+◌, ◌<◌, ◌^◌, ◌≡◌, refl, ◌∙◌, some, none, [], ◌∷◌, ◌++◌, length, get_elem?,
  get_elem?-append_end, set-append_end, Bytes, lt→ltb, arith,
}
use boost_asio.Memory.{memcpy-append}
use boost_asio.Wire.Const.{max_len}
use boost_asio.Wire.Host.{Host, IsHost}
use boost_asio.Wire.Node.{MsgNode, recv_node}
use boost_asio.Map.{erase, nat_eq}
use boost_asio.World.{World, remove_session}
use boost_asio.Session.{Session, clear_head}
use boost_asio.Reader.{
  Reader, reading_msg, returned, await_head, await_msg, on_head, on_msg, deref, wanted,
  disconnected,
}
use boost_asio.Reader.Message.{
  head, HeadFits, with_head, fill_head-head, prase_head-head, parsed_head, on_head-head,
  on_msg-body, delivered,
}

module _ (h : Host) (law : IsHost h) where
  -- `PraseHead` returns, and the coroutine goes on to the next `co_await`.
  on_head-oversized :
      (msg_id len : ℕ) (s : Session) (w : World)
      → HeadFits s
      → msg_id < 2 ^ 16
      → len < 2 ^ 32
      → max_len < len
      → on_head h (head msg_id len) s w
        ≡ await_msg (clear_head (with_head msg_id len s)) (remove_session s.id w)
  unfolding on_head parsed_head with_head
  on_head-oversized msg_id len s w v id_short fits large = rw (
    fill_head-head msg_id len s v,
    prase_head-head h law msg_id len s w id_short fits,
    lt→ltb max_len len large,
  )

  -- If the first header of a session has a length above MAX_LEN, the coroutine reads into a node
  -- that is not there: it goes through a null pointer.
  pub oversized_first_head-faults :
      (msg_id len : ℕ) (s : Session) (w : World)
      → HeadFits s
      → s.recv_msg_node ≡ none
      → msg_id < 2 ^ 16
      → len < 2 ^ 32
      → max_len < len
      → on_head h (head msg_id len) s w ≡ none
  unfolding await_msg deref clear_head with_head
  oversized_first_head-faults msg_id len s w v null id_short fits large =
      on_head-oversized msg_id len s w v id_short fits large ∙ rw null

  -- If a later header has a length above MAX_LEN, the session is taken off the server's table and
  -- reads on all the same: the bytes that follow, in the number of the last accepted message,
  -- overwrite the node of that message, which has been posted before, and the node is posted again.
  pub oversized_head-overwrites :
      (msg_id len : ℕ) (body : Bytes) (s : Session) (w : World) (a : ℕ) (n : MsgNode)
      → HeadFits s
      → s.recv_msg_node ≡ some a
      → get_elem? w.nodes a ≡ some n
      → n.total_len ≡ length body
      → length n.chars ≡ length body + 1
      → 0 < length body
      → msg_id < 2 ^ 16
      → len < 2 ^ 32
      → max_len < len
      → (r : Reader) × (on_head h (head msg_id len) s w ≡ some r)
        × (r.co ≡ reading_msg)
        × (on_msg body r.session r.world
            ≡ some (await_head r.session (delivered s.id a n body (remove_session s.id w))))
  unfolding await_msg deref clear_head with_head remove_session
  oversized_head-overwrites msg_id len body s w a n v held at_a size array some_byte id_short fits
        large =
      let s' = clear_head (with_head msg_id len s) in
      let w' = remove_session s.id w in
      (
        record { co = reading_msg; session = s'; world = w' },
        on_head-oversized msg_id len s w v id_short fits large ∙ rw (held, at_a),
        refl,
        on_msg-body body s' w' a n held at_a size array some_byte,
      )

  -- A message with an empty body is taken for the end of the connection: the read of its body
  -- transfers no byte, so the coroutine returns, the session is taken off the server's table, and
  -- nothing is posted.
  pub empty_body-disconnects :
      (msg_id : ℕ) (s : Session) (w : World)
      → HeadFits s
      → msg_id < 2 ^ 16
      → (r r' : Reader) × (on_head h (head msg_id 0) s w ≡ some r)
        × (wanted r ≡ some 0)
        × (on_msg [] r.session r.world ≡ some r')
        × (r'.co ≡ returned)
        × (r'.world.inbox ≡ w.inbox)
        × (r'.world.sessions ≡ erase s.id w.sessions)
  unfolding wanted on_msg deref recv_node remove_session with_head
  empty_body-disconnects msg_id s w v id_short =
      let n = recv_node h 0 msg_id in
      let s' = record (with_head msg_id 0 s) { recv_msg_node = some (length w.nodes) } in
      let w' = record w { nodes = w.nodes ++ n ∷ [] } in
      let at_end = get_elem?-append_end w.nodes n in
      (
        record { co = reading_msg; session = s'; world = w' },
        disconnected s' w',
        on_head-head h law msg_id 0 s w v id_short (omega arith),
        rw at_end,
        rw (at_end, memcpy-append [] (h.new_char 1) [] (omega arith), set-append_end w.nodes n n),
        refl,
        refl,
        refl,
      )
