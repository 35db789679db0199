-- ===== src/Reader/Stream.antt =====
-- A whole connection through the reading side of src/05_ftp/Session.cpp: the bytes of messages
-- one behind the other, and then the end of the connection.
use boost_asio.Common.{
  ℕ, suc, ◌+◌, ◌≤◌, ◌<◌, ◌-◌, ◌%◌, ◌^◌, ◌≡◌, refl, some, List, [], ◌∷◌, ◌++◌, length, length-append,
  take-append, drop-append, get_elem?-append_end, set-append_end, Bytes, le→leb, arith,
}
use boost_asio.Wire.Const.{max_len}
use boost_asio.Wire.Host.{Host, IsHost}
use boost_asio.Wire.Node.{MsgNode, recv_node}
use boost_asio.Wire.Layout.{wire}
use boost_asio.Map.{nat_eq}
use boost_asio.Inbox.{LogicNode, post_msg_to_que}
use boost_asio.World.{World, remove_session}
use boost_asio.Session.{Session, clear_head, clear_msg}
use boost_asio.Reader.{reading_msg, returned, await_head, on_exception, feed_once, feed}
use boost_asio.Reader.Message.{
  HeadFits, with_head, on_head-head, on_msg-body, delivered, terminated,
}
use boost_asio.Reader.Ending.{feed-returned}

pub record Message : Type 0 where
  pub id : ℕ
  pub body : Bytes

-- A message that a session takes.
abbrev pub IsTaken : Message → Type 0
IsTaken m = (m.id < 2 ^ 16) × (0 < length m.body) × (length m.body ≤ max_len)

abbrev pub stream_of : List Message → Bytes
stream_of [] = []
stream_of (m ∷ ms) = wire m.id m.body ++ stream_of ms

-- The node that holds a message after it has been read.
abbrev pub read_node : Message → MsgNode
read_node m = record {
  cur_len = 0;
  total_len = length m.body;
  chars = m.body ++ 0 ∷ [];
  msg_id = m.id;
}

-- What the logic system gets of messages whose nodes stand on the heap from `at` on.
abbrev pub posts : ℕ → ℕ → List Message → List LogicNode
posts id at [] = []
posts id at (m ∷ ms) = record { session = id; recv_node = at } ∷ posts id (suc at) ms

abbrev pub after_session : Message → Session → World → Session
after_session m s w = record (with_head m.id (length m.body) s) {
  recv_msg_node = some (length w.nodes);
}

abbrev pub after_world : Message → Session → World → World
after_world m s w = record w {
  nodes = w.nodes ++ read_node m ∷ [];
  inbox = post_msg_to_que (record { session = s.id; recv_node = length w.nodes }) w.inbox;
}

module _ (h : Host) (law : IsHost h) where
  feed_once-head :
      (m : Message) (rest : Bytes) (s : Session) (w : World)
      → IsTaken m
      → HeadFits s
      → feed_once h (wire m.id m.body ++ rest) (await_head s w)
        ≡ some (
          m.body ++ rest,
          record {
            co = reading_msg;
            session = after_session m s w;
            world = record w { nodes = w.nodes ++ recv_node h (length m.body) m.id ∷ [] };
          },
        )
  unfolding feed_once
  feed_once-head m rest s w ok v = rw (
    le→leb 6 (length (wire m.id m.body ++ rest)) (omega arith),
    on_head-head h law m.id (length m.body) s w v ok.0 ok.2,
  )

  feed_once-body :
      (m : Message) (rest : Bytes) (s : Session) (w : World)
      → IsTaken m
      → feed_once h (m.body ++ rest) (record {
        co = reading_msg;
        session = after_session m s w;
        world = record w { nodes = w.nodes ++ recv_node h (length m.body) m.id ∷ [] };
      })
        ≡ some (rest, await_head (after_session m s w) (after_world m s w))
  unfolding feed_once delivered recv_node with_head
  feed_once-body m rest s w ok =
      let n = recv_node h (length m.body) m.id in
      let at_end = get_elem?-append_end w.nodes n in
      rw (
        at_end,
        le→leb (length m.body) (length (m.body ++ rest)) (omega (arith, length-append m.body rest)),
        take-append m.body rest,
        drop-append m.body rest,
        on_msg-body m.body (after_session m s w) (record w { nodes = w.nodes ++ n ∷ [] })
            (length w.nodes) n refl at_end refl (omega (arith, length_array (length m.body))) ok.1,
        set-append_end w.nodes n (terminated n m.body),
      )
    where
      length_array : (k : ℕ) → k < 2 ^ 32 - 1 → length (h.new_char ((k + 1) % 2 ^ 32)) ≡ k + 1
      length_array k small = omega (arith, law.length-new_char ((k + 1) % 2 ^ 32))

  pub feed_once-message :
      (m : Message) (rest : Bytes) (s : Session) (w : World) (fuel : ℕ)
      → IsTaken m
      → HeadFits s
      → feed (suc (suc fuel)) h (wire m.id m.body ++ rest) (await_head s w)
        ≡ feed fuel h rest (await_head (after_session m s w) (after_world m s w))
  unfolding feed
  feed_once-message m rest s w fuel ok v =
      rw (feed_once-head m rest s w ok v, feed_once-body m rest s w ok)

  -- The connection ends where a header would begin.
  pub feed-end :
      (fuel : ℕ) (s : Session) (w : World)
      → clear_msg s w ≡ w
      → feed (suc fuel) h [] (await_head s w)
        ≡ some (record { co = returned; session = clear_head s; world = remove_session s.id w })
  unfolding feed feed_once on_exception
  feed-end fuel s w quiet =
      rw (quiet, feed-returned h fuel [] (clear_head s) (remove_session s.id w))
