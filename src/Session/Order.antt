-- ===== src/Session/Order.antt =====
-- The order of the messages that a session of src/05_ftp sends, while its queue has room.
use mathlib.Core.List.{append_assoc, append-nil}
use boost_asio.Common.{
  ℕ, ◌+◌, ◌≤◌, ◌<◌, ◌≡◌, refl, sym, ap, ◌∙◌, some, List, [], ◌∷◌, ◌++◌, map, lt→leb, length,
  length-append, Bytes, All, arith,
}
use boost_asio.World.{World}
use boost_asio.Wire.Const.{max_send_queue_len}
use boost_asio.Wire.Host.{Host, IsHost}
use boost_asio.Wire.Layout.{wire, sent}
use boost_asio.Session.Fifo.{Fifo, idle, offer, advance}
use boost_asio.Session.Queue.{
  Event, sends, completes, Run, run, Fits, fifo_step, fifo_run, fresh, run-fifo_run,
}

-- The messages of a history, as they are to go over the network.
abbrev pub messages : List Event → List Bytes
messages [] = []
messages (sends msg msg_id ∷ es) = wire msg_id msg ∷ messages es
messages (completes ∷ es) = messages es

abbrev pub all_of : Fifo → List Bytes
all_of f = f.out ++ f.pending

all_of-advance : (p o : List Bytes) → all_of (advance (record { pending = p; out = o })) ≡ o ++ p
unfolding advance
all_of-advance [] o = refl
all_of-advance (b ∷ p) o = append_assoc o (b ∷ []) p

length-all_of : (f : Fifo) → length (all_of f) ≡ length f.out + length f.pending
length-all_of f = length-append f.out f.pending

offer-room :
    (capacity : ℕ) (b : Bytes) (f : Fifo)
    → length f.pending < capacity
    → offer capacity b f ≡ record f { pending = f.pending ++ b ∷ [] }
unfolding offer
offer-room capacity b f h = rw (lt→leb capacity (length f.pending) h)

-- While fewer messages than the capacity are around, each is accepted and none changes places.
fifo_run-messages :
    (es : List Event) (f : Fifo)
    → length (all_of f) + length (messages es) ≤ max_send_queue_len
    → all_of (fifo_run es f) ≡ all_of f ++ messages es
unfolding fifo_run fifo_step
fifo_run-messages [] f room = sym (append-nil (all_of f))
fifo_run-messages (completes ∷ es) f room =
    let e = all_of-advance f.pending f.out in
    fifo_run-messages es (advance f) (rw e room) ∙ ap (λ l. l ++ messages es) e
fifo_run-messages (sends msg msg_id ∷ es) f room =
    let b = wire msg_id msg in
    let g = record f { pending = f.pending ++ b ∷ [] } in
    let grown : all_of g ≡ all_of f ++ b ∷ [] = sym (append_assoc f.out f.pending (b ∷ [])) in
    let sizes = length-append (all_of f) (b ∷ []) in
    ap (λ k. all_of (fifo_run es k))
      (offer-room max_send_queue_len b f (omega (arith, length-all_of f)))
    ∙ fifo_run-messages es g (rw grown (omega (arith, sizes)))
    ∙ rw grown (append_assoc (all_of f) (b ∷ []) (messages es))

-- A new session sends, of at most as many messages as its queue has room for, exactly those
-- messages: what has been written in full and what waits is the history in its order.
pub run-messages :
    (h : Host)
    → IsHost h
    → (id : ℕ) (w : World) (es : List Event) → All Fits es
    → length (messages es) ≤ max_send_queue_len
    → (r : Run) × (run h es (fresh h id w) ≡ some r)
      × (r.out ++ map sent r.session.send_queue ≡ messages es)
run-messages h law id w es fits room =
    let (r, ran, _, same) = run-fifo_run h law id w es fits in
    (r, ran, ap all_of same ∙ fifo_run-messages es idle (omega arith))
