-- ===== src/Reader/Arrival.antt =====
-- What a connection leaves behind when it has ended: the nodes, the posts and the table of
-- sessions of src/05_ftp.
use mathlib.Core.List.{append-nil, append_assoc}
use boost_asio.Common.{
  ℕ, zero, suc, ◌+◌, ◌≤◌, ◌<◌, ◌≡◌, refl, ◌∙◌, sym, some, List, [], ◌∷◌, ◌++◌, map, length,
  length-append, get_elem?-append_end, set-append_end, All, arith,
}
use boost_asio.Wire.Const.{max_recv_queue_len}
use boost_asio.Wire.Host.{Host, IsHost}
use boost_asio.Wire.Node.{recv_node, clear}
use boost_asio.Map.{erase, nat_eq}
use boost_asio.Inbox.{LogicNode, post_msg_to_que, post_msg_to_que-room}
use boost_asio.World.{World, remove_session}
use boost_asio.Session.{Session, new_session, clear_head, clear_msg, clear_at}
use boost_asio.Reader.{Reader, returned, await_head, feed, start}
use boost_asio.Reader.Message.{HeadFits, with_head, with_head-HeadFits}
use boost_asio.Reader.Stream.{
  Message, IsTaken, stream_of, read_node, posts, after_session, after_world, feed_once-message,
  feed-end,
}

-- `Clear` would change nothing on the heap.
abbrev Quiet : Session → World → Type 0
Quiet s w = clear_msg s w ≡ w

after-Quiet :
    (m : Message) (s : Session) (w : World) → Quiet (after_session m s w) (after_world m s w)
unfolding clear_msg clear
after-Quiet m s w =
    let at_end = get_elem?-append_end w.nodes (read_node m) in
    rw (at_end, clear_at, set-append_end w.nodes (read_node m) (read_node m))

-- What a connection leaves behind.
pub record Arrived (s : Session) (w : World) (ms : List Message) (r : Reader) : Type 0 where
  pub ended : r.co ≡ returned
  pub nodes_are : r.world.nodes ≡ w.nodes ++ map read_node ms
  pub queue_is : r.world.inbox.msg_queue ≡ w.inbox.msg_queue ++ posts s.id (length w.nodes) ms
  pub sessions_are : r.world.sessions ≡ erase s.id w.sessions

Arrived-cons :
    (m : Message) (ms : List Message) (s : Session) (w : World) {r : Reader}
    → length w.inbox.msg_queue < max_recv_queue_len
    → Arrived (after_session m s w) (after_world m s w) ms r
    → Arrived s w (m ∷ ms) r
unfolding with_head
Arrived-cons m ms s w room a =
    let post : LogicNode = record { session = s.id; recv_node = length w.nodes } in
    record {
      ended = a.ended;
      nodes_are = a.nodes_are ∙ append_assoc w.nodes (read_node m ∷ []) (map read_node ms);
      queue_is =
          a.queue_is
          ∙ rw
              (
                post_msg_to_que-room post w.inbox room,
                length-append w.nodes (read_node m ∷ []),
                let e : length w.nodes + 1 ≡ suc (length w.nodes) = omega arith in e,
              )
              (append_assoc w.inbox.msg_queue (post ∷ []) (posts s.id (suc (length w.nodes)) ms));
      sessions_are = a.sessions_are;
    }

module _ (h : Host) (law : IsHost h) where
  feed-Arrived :
      (ms : List Message) (s : Session) (w : World) (fuel : ℕ)
      → HeadFits s
      → Quiet s w
      → All IsTaken ms
      → length w.inbox.msg_queue + length ms ≤ max_recv_queue_len
      → length ms + length ms < fuel
      → (r : Reader) × (feed fuel h (stream_of ms) (await_head s w) ≡ some r) × Arrived s w ms r
  unfolding remove_session
  feed-Arrived ms s w zero v quiet ok room enough = absurd (omega arith)
  feed-Arrived [] s w (suc fuel) v quiet ok room enough =
      let r : Reader = record {
        co = returned;
        session = clear_head s;
        world = remove_session s.id w;
      } in
      (
        r,
        feed-end h law fuel s w quiet,
        record {
          ended = refl;
          nodes_are = sym (append-nil w.nodes);
          queue_is = sym (append-nil w.inbox.msg_queue);
          sessions_are = refl;
        },
      )
  feed-Arrived (m ∷ ms) s w (suc zero) v quiet ok room enough = absurd (omega arith)
  feed-Arrived (m ∷ ms) s w (suc (suc fuel)) v quiet ok room enough =
      let fits : length w.inbox.msg_queue < max_recv_queue_len = omega arith in
      let (r, fed, arrived) =
        feed-Arrived ms (after_session m s w) (after_world m s w) fuel
          (with_head-HeadFits m.id (length m.body) s v) (after-Quiet m s w) ok.1 (still_room fits)
          (omega arith) in
      (
        r,
        feed_once-message h law m (stream_of ms) s w fuel ok.0 v ∙ fed,
        Arrived-cons m ms s w fits arrived,
      )
    where
      post : LogicNode
      post = record { session = s.id; recv_node = length w.nodes }

      still_room :
          length w.inbox.msg_queue < max_recv_queue_len
          → length (post_msg_to_que post w.inbox).msg_queue + length ms ≤ max_recv_queue_len
      still_room fits =
          rw (post_msg_to_que-room post w.inbox fits)
            (omega (arith, length-append w.inbox.msg_queue (post ∷ [])))

  -- A new session reads the bytes of messages that it takes, one behind the other, and then the end
  -- of the connection, where the receive queue has room for all of them: the coroutine returns, each
  -- message stands in a node of its own with a terminator behind its body, the nodes are posted in
  -- the order of the messages, and the session is off the server's table. Two resumptions for each message and one for the end are
  -- enough.
  pub feed-messages :
      (id : ℕ) (w : World) (ms : List Message) (fuel : ℕ)
      → All IsTaken ms
      → length w.inbox.msg_queue + length ms ≤ max_recv_queue_len
      → length ms + length ms < fuel
      → (r : Reader) × (feed fuel h (stream_of ms) (start (new_session h id) w) ≡ some r)
        × Arrived (new_session h id) w ms r
  unfolding start new_session recv_node clear_head clear
  feed-messages id w ms fuel ok room enough =
      feed-Arrived ms (clear_head (new_session h id)) w fuel (law.length-new_char 7) refl ok room
        enough
