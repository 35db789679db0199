-- ===== src/Reader/EndToEnd.antt =====
-- A sending session of src/05_ftp connected to a reading one, on machines of any byte orders.
use mathlib.Core.List.{flatten}
use boost_asio.Common.{
  ℕ, ◌+◌, ◌≤◌, ◌<◌, ◌≡◌, refl, ap, some, List, [], ◌∷◌, ◌++◌, map, length, Bytes, All, arith,
}
use boost_asio.World.{World}
use boost_asio.Wire.Const.{max_recv_queue_len, max_send_queue_len}
use boost_asio.Wire.Host.{Host, IsHost}
use boost_asio.Wire.Layout.{wire, sent}
use boost_asio.Session.{new_session}
use boost_asio.Session.Queue.{Event, sends, completes, Run, run, Fits, fresh}
use boost_asio.Session.Order.{messages, run-messages}
use boost_asio.Reader.{Reader, feed, start}
use boost_asio.Reader.Stream.{Message, IsTaken, stream_of}
use boost_asio.Reader.Arrival.{Arrived, feed-messages}

abbrev pub sent_messages : List Event → List Message
sent_messages [] = []
sent_messages (sends msg msg_id ∷ es) = record { id = msg_id; body = msg } ∷ sent_messages es
sent_messages (completes ∷ es) = sent_messages es

stream_of-sent_messages : (es : List Event) → stream_of (sent_messages es) ≡ flatten (messages es)
unfolding flatten
stream_of-sent_messages [] = refl
stream_of-sent_messages (sends msg msg_id ∷ es) =
    ap (λ (l : Bytes). wire msg_id msg ++ l) (stream_of-sent_messages es)
stream_of-sent_messages (completes ∷ es) = stream_of-sent_messages es

length-sent_messages : (es : List Event) → length (sent_messages es) ≡ length (messages es)
length-sent_messages [] = refl
length-sent_messages (sends msg msg_id ∷ es) = omega (arith, length-sent_messages es)
length-sent_messages (completes ∷ es) = length-sent_messages es

taken-Fits : (es : List Event) → All IsTaken (sent_messages es) → All Fits es
taken-Fits [] ok = tt
taken-Fits (sends msg msg_id ∷ es) ok = ((ok.0.0, omega arith), taken-Fits es ok.1)
taken-Fits (completes ∷ es) ok = (tt, taken-Fits es ok)

-- Messages that one session sends, as many as the queues have room for, and whose bytes all go
-- over the connection, arrive at the other session as they were sent: each in a node of its own,
-- with its id, its length and a terminator, and posted in the order of the sends. The sender's
-- writes may complete at any time, and the machines may have different byte orders.
pub run-feed :
    (h h' : Host)
    → IsHost h
    → IsHost h'
    → (id id' : ℕ) (w w' : World) (es : List Event) (fuel : ℕ) → All IsTaken (sent_messages es)
    → length (messages es) ≤ max_send_queue_len
    → length w'.inbox.msg_queue + length (messages es) ≤ max_recv_queue_len
    → length (messages es) + length (messages es) < fuel
    → (r : Run) × (r' : Reader) × (run h es (fresh h id w) ≡ some r)
      × (feed fuel h'
            (flatten (r.out ++ map sent r.session.send_queue))
            (start (new_session h' id') w')
          ≡ some r')
      × Arrived (new_session h' id') w' (sent_messages es) r'
run-feed h h' law law' id id' w w' es fuel ok room room' enough =
    let (r, ran, same) = run-messages h law id w es (taken-Fits es ok) room in
    let count = length-sent_messages es in
    let (r', fed, arrived) =
      feed-messages h' law' id' w' (sent_messages es) fuel ok (omega arith) (omega arith) in
    (r, r', ran, rw (same, ← stream_of-sent_messages es) fed, arrived)
