-- ===== src/Async/Session/Callbacks.antt =====
-- The handlers of src/02_async/Session.cpp that read where USE_COROUTINE is not defined, against the
-- coroutine. What an exception of theirs does is left to the thread that runs them.
use boost_asio.Common.{
  ℕ, ◌<◌, ◌≡◌, refl, Bool, false, some, inl, inr, Option-cases, Bytes, ◌==◌, ==_iff, length, set,
  if◌then◌else◌,
}
use boost_asio.Memory.{memcpy}
use boost_asio.Wire.Host.{Host}
use boost_asio.Reader.Message.{ne_zero}
use boost_asio.Async.Wire.{
  Outcome, ok, fault, ◌>>=◌, checked, ℤ, pos, negsuc, head_total_len, MsgNode,
}
use boost_asio.Async.Session.{
  Session, World, Reader, returned, received, remove_session, clear_msg, prase_head, deref,
  prase_msg, await_head, await_msg, on_head, on_msg, disconnected, catches, resume_at, reading_head,
  reading_msg,
}

-- `bytes_transferred == TotalLen()`
abbrev pub is_size : ℤ → ℕ → Bool
is_size (pos n) transferred = transferred == n
is_size (negsuc n) transferred = false

abbrev pub with_chars : Bytes → Session → Session
with_chars chars s = record s { recv_head_node = record s.recv_head_node { chars = chars } }

-- Session::HandlerReadHead, up to the next read. An `assert` that fails is a fault.
unfoldable pub handler_read_head : Host → Bool → Bytes → Session → World → Outcome Reader
unfolding prase_head await_msg
handler_read_head h ec bytes s w =
    let parsed : Outcome Reader = do
      chars ← checked (memcpy s.recv_head_node.chars 0 bytes)
      (s', w') ←
          if length bytes == head_total_len then prase_head h (with_chars chars s) w else fault
      await_msg s' w'
    in if ec then ok (disconnected s w) else parsed

-- Session::HandlerReadMsg, up to the next read
unfoldable pub handler_read_msg : Bool → Bytes → Session → World → Outcome Reader
unfolding deref prase_msg clear_msg remove_session
handler_read_msg ec bytes s w =
    let parsed : Outcome Reader = do
      (a, n) ← deref s.recv_msg_node w
      chars ← checked (memcpy n.chars 0 bytes)
      let w' = record w { nodes = set w.nodes a (record n { chars = chars }) }
      w'' ← if is_size n.total_len (length bytes) then prase_msg s w' else fault
      ok (await_head s w'')
    in let failed : Reader = record {
      co = returned;
      session = s;
      world = remove_session s.id (clear_msg s w);
    } in
      if ec then ok failed else parsed

-- Whatever four bytes a read of a header gives, the coroutine does what the callback does, but for an
-- exception, which it catches.
pub handler_read_head-on_head :
    (h : Host) (bytes chars : Bytes) (s : Session) (w : World)
    → length bytes ≡ head_total_len
    → memcpy s.recv_head_node.chars 0 bytes ≡ some chars
    → resume_at h reading_head (received bytes) s w
      ≡ catches (with_chars chars s) w (handler_read_head h false bytes s w)
unfolding handler_read_head on_head resume_at
handler_read_head-on_head h bytes chars s w size filled = rw (filled, size) refl

-- Whatever bytes, at least one, a read of a body of that size gives, the coroutine and the callback do the
-- same.
pub handler_read_msg-on_msg :
    (h : Host) (bytes : Bytes) (s : Session) (w : World) (a : ℕ) (n : MsgNode)
    → deref s.recv_msg_node w ≡ ok (a, n)
    → n.total_len ≡ pos (length bytes)
    → 0 < length bytes
    → resume_at h reading_msg (received bytes) s w ≡ handler_read_msg false bytes s w
unfolding handler_read_msg on_msg resume_at
handler_read_msg-on_msg h bytes s w a n held size some_byte =
    elim (Option-cases (memcpy n.chars 0 bytes)) [
      | inl outside ↦ rw (held, outside) refl
      | inr (full, filled) ↦
          rw
            (
              held,
              filled,
              size,
              (==_iff (length bytes) (length bytes)).1 refl,
              ne_zero (length bytes) some_byte,
            )
            refl
    ]
