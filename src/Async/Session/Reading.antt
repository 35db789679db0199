-- ===== src/Async/Session/Reading.antt =====
-- The coroutine of src/02_async/Session.cpp on the messages that it takes and on those with a
-- negative length.
use boost_asio.Common.{
  ℕ, suc, ◌+◌, ◌≤◌, ◌<◌, ◌^◌, ◌/◌, ◌%◌, ◌≡◌, refl, sym, ap, ◌∙◌, false, some, List, [], ◌∷◌, ◌++◌,
  map, length, drop, length-drop, length-append, get_elem?-append_end, set-append_end, Bytes, All,
  lt→leb, arith,
}
use mathlib.Core.List.{append_assoc, append-nil}
use boost_asio.Memory.{memcpy-append, peek-append}
use boost_asio.Wire.Host.{Host, IsHost, bytes16, value16-bytes, load16}
use boost_asio.Reader.Message.{fill_array, ne_zero}
use boost_asio.Inbox.{LogicNode}
use boost_asio.Async.Wire.{
  Outcome, ok, ◌>>=◌, pos, signed16, max_id, max_len, max_recv_queue_len, MsgNode, msg_node,
  new_chars, terminate,
}
use boost_asio.Async.Session.{
  Session, World, Reader, Read, received, threw, reading_msg, returned, post_msg_to_que, exceeds,
  prase_head, deref, prase_msg, await_head, await_msg, on_head, on_msg, on_exception, catches,
  resume_at,
}

-- The four bytes in front of a body
abbrev pub head : ℕ → ℕ → Bytes
head msg_id len = bytes16 msg_id ++ bytes16 len

-- The header's array has room for the header and a terminator.
abbrev pub HeadFits : Session → Type 0
HeadFits s = length s.recv_head_node.chars ≡ 5

unfoldable pub with_head : ℕ → ℕ → Session → Session
with_head msg_id len s = record s {
  recv_head_node = record s.recv_head_node {
    chars = head msg_id len ++ drop 4 s.recv_head_node.chars;
  };
}

abbrev pub Message : Type 0
Message = ℕ × Bytes

-- What the session takes: an id up to MAX_ID, as a `short`, and a body of one byte up to MAX_LEN.
pub record IsTaken (m : Message) : Type 0 where
  pub id_short : m.0 < 2 ^ 16
  pub id_small : exceeds max_id m.0 ≡ false
  pub some_byte : 0 < length m.1
  pub small : length m.1 ≤ max_len

-- The node of a message, when it is posted
abbrev pub taken : Message → MsgNode
taken m = record { cur_len = 0; total_len = pos (length m.1); chars = m.1 ++ 0 ∷ []; msg_id = m.0 }

-- What is posted, from the place of the first node on
abbrev pub posts : ℕ → ℕ → List Message → List LogicNode
posts id a [] = []
posts id a (m ∷ ms) = record { session = id; recv_node = a } ∷ posts id (suc a) ms

exceeds-small : (n : ℕ) → n ≤ max_len → exceeds max_len n ≡ false
unfolding exceeds
exceeds-small n h = ground arith

pub exceeds-negative : (limit n : ℕ) → 2 ^ 15 ≤ n → exceeds limit n ≡ false
unfolding exceeds
exceeds-negative limit n h = ground arith

signed16-small : (n : ℕ) → n ≤ max_len → signed16 n ≡ pos n
signed16-small n h = ground arith

module _ (h : Host) (law : IsHost h) where
  read_short : (v : ℕ) → v < 2 ^ 16 → h.network_to_host_short (load16 h.order (bytes16 v)) ≡ v
  read_short v fits =
      law.short_in (v / 256 % 256) (v % 256) (omega arith) (omega arith) ∙ value16-bytes v fits

  -- `PraseHead` of a header in the buffer whose id and length pass its checks
  pub prase_head-head :
      (msg_id len : ℕ) (s : Session) (w : World)
      → msg_id < 2 ^ 16
      → len < 2 ^ 16
      → exceeds max_id msg_id ≡ false
      → exceeds max_len len ≡ false
      → prase_head h (with_head msg_id len s) w ≡ (
          msg_node h len msg_id >>= λ n. ok (
            record (with_head msg_id len s) { recv_msg_node = some (length w.nodes) },
            record w { nodes = w.nodes ++ n ∷ [] },
          ))
  unfolding prase_head with_head
  prase_head-head msg_id len s w id_short len_short id_small small = rw (
    peek-append [] (bytes16 msg_id) (bytes16 len ++ drop 4 s.recv_head_node.chars),
    peek-append (bytes16 msg_id) (bytes16 len) (drop 4 s.recv_head_node.chars),
    read_short msg_id id_short,
    read_short len len_short,
    id_small,
    small,
  )

  -- The node that is made for a message, before its body is read
  abbrev pub empty_node : Message → MsgNode
  empty_node m = record {
    cur_len = 0;
    total_len = pos (length m.1);
    chars = h.new_char (length m.1 + 1);
    msg_id = m.0;
  }

  abbrev pub ready : Message → Session → World → Session
  ready m s w = record (with_head m.0 (length m.1) s) { recv_msg_node = some (length w.nodes) }

  msg_node-small :
      (m : Message) → length m.1 ≤ max_len → msg_node h (length m.1) m.0 ≡ ok (empty_node m)
  unfolding msg_node new_chars
  msg_node-small m small = rw (signed16-small (length m.1) small) refl

  -- A header is read into the buffer, and what `PraseHead` throws is caught.
  pub on_head-filled :
      (msg_id len : ℕ) (s : Session) (w : World)
      → HeadFits s
      → on_head h (head msg_id len) s w
        ≡ catches
            (with_head msg_id len s)
            w
            (prase_head h (with_head msg_id len s) w >>= λ p. await_msg p.0 p.1)
  unfolding on_head with_head
  on_head-filled msg_id len s w v =
      rw (memcpy-append [] s.recv_head_node.chars (head msg_id len) (omega arith)) refl

  pub on_head-head :
      (m : Message) (s : Session) (w : World)
      → HeadFits s
      → IsTaken m
      → on_head h (head m.0 (length m.1)) s w
        ≡ ok (record {
          co = reading_msg;
          session = ready m s w;
          world = record w { nodes = w.nodes ++ empty_node m ∷ [] };
        })
  unfolding await_msg deref
  on_head-head m s w v t =
      on_head-filled m.0 (length m.1) s w v
      ∙ rw
          (
            prase_head-head m.0 (length m.1) s w t.id_short (omega (arith, t.small)) t.id_small
                (exceeds-small (length m.1) t.small),
            msg_node-small m t.small,
            get_elem?-append_end w.nodes (empty_node m),
          )
          refl

  pub on_msg-body :
      (m : Message) (s : Session) (w : World) (a : ℕ)
      → s.recv_msg_node ≡ some a
      → a ≡ length w.nodes
      → IsTaken m
      → length w.msg_queue < max_recv_queue_len
      → on_msg m.1 s (record w { nodes = w.nodes ++ empty_node m ∷ [] })
        ≡ ok (
            await_head s (record w {
              nodes = w.nodes ++ taken m ∷ [];
              msg_queue = w.msg_queue ++ record { session = s.id; recv_node = a } ∷ [];
            }))
  unfolding on_msg deref prase_msg terminate post_msg_to_que
  on_msg-body m s w a held at t room =
      let (full, copied, ended) =
        fill_array (h.new_char (length m.1 + 1)) m.1 (law.length-new_char (length m.1 + 1)) in
      rw (held, at) rw
        (
          get_elem?-append_end w.nodes (empty_node m),
          copied,
          set-append_end w.nodes (empty_node m) (record (empty_node m) { chars = full }),
          get_elem?-append_end w.nodes (record (empty_node m) { chars = full }),
          ended,
          set-append_end w.nodes (record (empty_node m) { chars = full }) (taken m),
          ne_zero (length m.1) t.some_byte,
          lt→leb max_recv_queue_len (length w.msg_queue) room,
        )
        refl

-- A connection as the reads of the coroutine: the messages, each a header and a body, one after the
-- other, and then the exception at its end.
unfoldable pub reads_of : List Message → List Read
reads_of [] = threw ∷ []
reads_of (m ∷ ms) = received (head m.0 (length m.1)) ∷ received m.1 ∷ reads_of ms

unfoldable pub run_reads : Host → List Read → Reader → Outcome Reader
run_reads h [] r = ok r
run_reads h (read ∷ reads) r = do r' ← resume_at h r.co read r.session r.world; run_reads h reads r'

module _ (h : Host) (law : IsHost h) where
  ready-HeadFits :
      (m : Message) (s : Session) (w : World) → HeadFits s → HeadFits (ready h law m s w)
  unfolding with_head
  ready-HeadFits m s w v = omega (arith, length-drop 4 s.recv_head_node.chars)

  -- A session that reads messages that it takes, with room for them in the queue, and then the end of
  -- the connection, returns with the messages posted in their order, each in a node of its own as it
  -- was sent; but the server's table is as it was, so that the session stays in it.
  pub run_reads-messages :
      (ms : List Message) (s : Session) (w : World)
      → HeadFits s
      → All IsTaken ms
      → length w.msg_queue + length ms ≤ max_recv_queue_len
      → (r : Reader) × (run_reads h (reads_of ms) (await_head s w) ≡ ok r)
        × (r.co ≡ returned)
        × (r.world.nodes ≡ w.nodes ++ map taken ms)
        × (r.world.msg_queue ≡ w.msg_queue ++ posts s.id (length w.nodes) ms)
        × (r.world.sessions ≡ w.sessions)
  unfolding run_reads reads_of resume_at with_head
  run_reads-messages [] s w v t room =
      (on_exception s w, refl, refl, sym (append-nil w.nodes), sym (append-nil w.msg_queue), refl)
  run_reads-messages (m ∷ ms) s w v t room =
      let s' = ready h law m s w in
      let post : LogicNode = record { session = s.id; recv_node = length w.nodes } in
      let w' = record w { nodes = w.nodes ++ taken m ∷ []; msg_queue = w.msg_queue ++ post ∷ [] } in
      let grown : length (w.nodes ++ taken m ∷ []) ≡ suc (length w.nodes) =
        omega (arith, length-append w.nodes (taken m ∷ [])) in
      let (r, ran, co, nodes, queue, sessions) =
        run_reads-messages ms s' w' (ready-HeadFits m s w v) t.1
          (omega (arith, length-append w.msg_queue (post ∷ []))) in
      (
        r,
        (rw (on_head-head h law m s w v t.0)
            (rw (on_msg-body h law m s' w (length w.nodes) refl refl t.0 (omega arith)) ran)),
        co,
        nodes ∙ append_assoc w.nodes (taken m ∷ []) (map taken ms),
        queue
            ∙ ap (λ a. (w.msg_queue ++ post ∷ []) ++ posts s.id a ms) grown
            ∙ append_assoc w.msg_queue (post ∷ []) (posts s.id (suc (length w.nodes)) ms),
        sessions,
      )
