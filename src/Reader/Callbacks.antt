-- ===== src/Reader/Callbacks.antt =====
-- The coroutine of src/05_ftp/Session.cpp against the chain of callbacks that stands for it where
-- USE_COROUTINE is not defined.
use boost_asio.Common.{
  ℕ, ◌<◌, ◌≡◌, inl, inr, false, some, Option-cases, Bytes, length, ==_iff, get_elem?,
  get_elem?-set_self, get_elem?-eq_some-lt,
}
use boost_asio.Memory.{memcpy}
use boost_asio.Wire.Const.{head_total_len}
use boost_asio.Wire.Host.{Host}
use boost_asio.Wire.Node.{MsgNode}
use boost_asio.World.{World}
use boost_asio.Session.{Session}
use boost_asio.Reader.{fill_head, on_head, on_msg, handler_read_head, handler_read_msg}
use boost_asio.Reader.Message.{ne_zero}

-- Whatever six bytes a read of a header gives, the coroutine and the callback do the same.
pub handler_read_head-on_head :
    (h : Host) (bytes : Bytes) (s : Session) (w : World)
    → length bytes ≡ head_total_len
    → handler_read_head h false bytes s w ≡ on_head h bytes s w
unfolding handler_read_head on_head
handler_read_head-on_head h bytes s w size = elim (Option-cases (fill_head bytes s)) [
  | inl fault ↦ rw fault
  | inr (s', filled) ↦ rw (filled, size)
]

-- Whatever bytes, at least one, a read of a body of that size gives, the coroutine and the
-- callback do the same.
pub handler_read_msg-on_msg :
    (bytes : Bytes) (s : Session) (w : World) (a : ℕ) (n : MsgNode)
    → s.recv_msg_node ≡ some a
    → get_elem? w.nodes a ≡ some n
    → length bytes ≡ n.total_len
    → 0 < length bytes
    → handler_read_msg false bytes s w ≡ on_msg bytes s w
unfolding handler_read_msg on_msg
handler_read_msg-on_msg bytes s w a n held at_a size some_byte =
    elim (Option-cases (memcpy n.chars 0 bytes)) [
      | inl fault ↦ rw (held, at_a, fault)
      | inr (full, filled) ↦ rw (
        held,
        at_a,
        filled,
        get_elem?-set_self w.nodes a (record n { chars = full })
            (get_elem?-eq_some-lt w.nodes a at_a),
        (==_iff (length bytes) n.total_len).1 size,
        ne_zero (length bytes) some_byte,
      )
    ]
