-- ===== src/Logic/Delivery.antt =====
-- An upload from the connection (src/05_ftp/Session.cpp) to the file (src/05_ftp/LogicSystem.cpp).
use mathlib.Core.Option
use boost_asio.Common.{
  ℕ, suc, ◌+◌, ◌≤◌, ◌<◌, ◌≡◌, ◌≢◌, refl, ap, ◌∙◌, true, some, List, [], ◌∷◌, ◌++◌, Bytes, map,
  length, arith, All,
}
use boost_asio.Map.{find, assign, find-assign_self, nat_eq, bytes_eq}
use boost_asio.Wire.Const.{max_recv_queue_len, upload_file_recv}
use boost_asio.Wire.Host.{Host, IsHost}
use boost_asio.World.{World}
use boost_asio.Session.{Session, new_session}
use boost_asio.Reader.{Reader, feed, start}
use boost_asio.Reader.Stream.{IsTaken, stream_of, read_node, posts}
use boost_asio.Reader.Arrival.{Arrived, feed-messages}
use boost_asio.Logic.Codec.{Libraries}
use boost_asio.Logic.{System, returns, deal_msg}
use boost_asio.Logic.Upload.{IsPart}
use boost_asio.Logic.Files.{contents, upload_all, upload_all-contents}
use boost_asio.Logic.Worker.{with_queue, handle_all, deal_msg-stopped}
use boost_asio.Logic.Posts.{Sent, part, message_of, handle_all-posts}

-- The system of a server that stops, after its connection has ended
abbrev pub stopping : ℕ → Reader → List (ℕ × Session) → List (Bytes × Bytes) → Bytes → System
stopping id r objects files static_path = record {
  world = record r.world { inbox = record r.world.inbox { stop = true } };
  objects = assign id r.session objects;
  files = files;
  static_path = static_path;
}

module _ (c : Libraries) (name : Bytes) where
  -- A message that the session takes and that is a part of the file `name`
  abbrev pub IsUpload : Sent → Type 0
  IsUpload u =
      IsTaken u.message
      × (u.message.id ≡ upload_file_recv)
      × IsPart c (read_node u.message) name u.seq u.bytes

  takes : (us : List Sent) → All IsUpload us → All IsTaken (map message_of us)
  takes [] ok = tt
  takes (u ∷ us) ok = (ok.0.0, takes us ok.1)

  ids : (us : List Sent) → All IsUpload us → All (λ u. u.message.id ≡ upload_file_recv) us
  ids [] ok = tt
  ids (u ∷ us) ok = (ok.0.1, ids us ok.1)

  follows :
      (us : List Sent)
      → All IsUpload us
      → All (λ u. u.seq ≢ 0) us
      → All (λ p. IsPart c p.node name p.seq p.bytes × (p.seq ≢ 0)) (map part us)
  follows [] ok later = tt
  follows (u ∷ us) ok later = ((ok.0.2, later.0), follows us ok.1 later.1)

length-map : (us : List Sent) → length (map message_of us) ≡ length us
length-map [] = refl
length-map (u ∷ us) = ap suc (length-map us)

module _ (c : Libraries) (h : Host) (law : IsHost h) (id : ℕ) (w : World) (us : List Sent) where
  deal_msg-upload_all :
      (r : Reader) (objects : List (ℕ × Session)) (files : List (Bytes × Bytes))
      (static_path : Bytes)
      → w.inbox.msg_queue ≡ []
      → Arrived (new_session h id) w (map message_of us) r
      → All (λ u. u.message.id ≡ upload_file_recv) us
      → deal_msg c h (stopping id r objects files static_path)
        ≡ Option.map
            (λ s. returns (with_queue [] s))
            (upload_all c h id (map part us) (stopping id r objects files static_path))
  unfolding new_session
  deal_msg-upload_all r objects files static_path empty arrived is_upload =
      let sys = stopping id r objects files static_path in
      let queue : r.world.inbox.msg_queue ≡ posts id (length w.nodes) (map message_of us) =
        arrived.queue_is ∙ ap (λ q. q ++ posts id (length w.nodes) (map message_of us)) empty in
      deal_msg-stopped c h sys refl
      ∙ ap (λ q. Option.map (λ s. returns (with_queue [] s)) (handle_all c h q sys)) queue
      ∙ ap (Option.map (λ s. returns (with_queue [] s)))
          (handle_all-posts c h id us w.nodes sys arrived.nodes_are is_upload)

-- The queue of messages is empty and has room for the parts, and the file can be opened: then the parts of a
-- file, the first numbered 0 and no other, that arrive at a new session one behind the other and are
-- followed by the end of the connection, are in the file in their order when the worker, told to
-- stop, has handled what was posted; no other file has changed.
pub feed-contents :
    (c : Libraries) (h : Host) (law : IsHost h) (id : ℕ) (w : World) (first : Sent) (us : List Sent)
    (fuel : ℕ) (name path other : Bytes) (objects : List (ℕ × Session))
    (files : List (Bytes × Bytes)) (static_path : Bytes)
    → path ≢ other
    → w.inbox.msg_queue ≡ []
    → All (IsUpload c name) (first ∷ us)
    → first.seq ≡ 0
    → All (λ u. u.seq ≢ 0) us
    → length (first ∷ us) ≤ max_recv_queue_len
    → length (first ∷ us) + length (first ∷ us) < fuel
    → c.join static_path name ≡ path
    → c.opens path ≡ true
    → (r : Reader) × (after : System) × (feed fuel h
          (stream_of (map message_of (first ∷ us)))
          (start (new_session h id) w)
        ≡ some r)
      × (deal_msg c h (stopping id r objects files static_path) ≡ some (returns after))
      × (find path after.files ≡ some (contents (map part (first ∷ us))))
      × (find other after.files ≡ find other files)
unfolding with_queue
feed-contents c h law id w first us fuel name path other objects files static_path ne empty ok
      zeroth later room enough at opens =
    let sent = first ∷ us in
    let many = length-map sent in
    let (r, fed, arrived) =
      feed-messages h law id w (map message_of sent) fuel (takes c name sent ok)
        (rw (empty) (omega (arith, many))) (omega (arith, many)) in
    let sys = stopping id r objects files static_path in
    let (after, ran, holds, kept) =
      upload_all-contents c h law id name other path ne (part first) (map part us) sys r.session
        ok.0.2 zeroth (follows c name us ok.1 later) at opens
        (find-assign_self id r.session objects) in
    (
      r,
      with_queue [] after,
      fed,
      deal_msg-upload_all c h law id w sent r objects files static_path empty arrived
            (ids c name sent ok)
          ∙ rw (ran) refl,
      holds,
      kept,
    )
