-- ===== src/Async/Exchange.antt =====
-- One exchange of the client of src/02_async/RunClient.cpp and the server: `testSend`, the session's reads,
-- the worker and its answer, and `testRecv`. The two machines and their JsonCpp may differ.
use boost_asio.Common.{
  ◌+◌, ◌%◌, ◌^◌, ◌≤◌, ◌<◌, ◌≡◌, refl, ap, ◌∙◌, false, some, inl, inr, [], ◌∷◌, ◌++◌, Bytes, length,
  take, take_all, get_elem?-append_end, arith,
}
use boost_asio.Memory.{c_string, c_string-append_zero}
use boost_asio.Map.{find, nat_eq, beq_self, find-assign_self}
use boost_asio.StringTool.Affixes.{HasNoZero}
use boost_asio.Wire.Host.{Host, IsHost}
use boost_asio.Inbox.{LogicNode}
use boost_asio.Logic.{text}
use boost_asio.Logic.Codec.{Libraries}
use boost_asio.Async.Wire.{ok, max_len, hello_world}
use boost_asio.Async.Layout.{wire}
use boost_asio.Async.Session.{
  Session, World, Reader, reading_head, received, await_head, exceeds, clear_head, resume_at,
}
use boost_asio.Async.Session.Reading.{
  head, HeadFits, with_head, Message, IsTaken, taken, ready, run_reads, on_head-head, on_msg-body,
}
use boost_asio.Async.Logic.{System, goes_on, deal_msg}
use boost_asio.Async.Logic.Answer.{answering, answered, deal_msg-hello}
use boost_asio.Async.Client.{base_send, test_send, test_recv}
use boost_asio.Async.Client.Buffers.{send_text-fits}
use boost_asio.Async.Client.Answers.{test_recv-wire}

-- What one side needs of the other's text
pub record IsText (msg : Bytes) : Type 0 where
  pub some_byte : 0 < length msg
  pub fits : length msg + 4 ≤ max_len
  pub free : HasNoZero msg

pub hello-IsTaken : (msg : Bytes) → IsText msg → IsTaken (hello_world, msg)
unfolding exceeds
hello-IsTaken msg v = record {
  id_short = omega arith;
  id_small = refl;
  some_byte = v.some_byte;
  small = omega (arith, v.fits);
}

whole : (msg : Bytes) → IsText msg → take (length msg % 2 ^ 16) msg ≡ msg
whole msg v = take_all (length msg % 2 ^ 16) msg (omega (arith, v.fits))

-- The value whose text the client sends
abbrev pub Greets : (d : Libraries) → d.Value → Type 0
Greets d root =
    (with_role : d.Value) × (d.put (text "role") (d.from_string (text "client")) d.null
      ≡ some with_role)
    × (d.put (text "data") (d.from_string (text "hello world")) with_role ≡ some root)

module _ (d : Libraries) (k : Host) (law : IsHost k) where
  pub test_send-head :
      (root : d.Value) (msg : Bytes)
      → Greets d root
      → d.to_styled_string root ≡ msg
      → IsText msg
      → test_send d k ≡ ok (head hello_world (length msg) ++ msg)
  unfolding test_send base_send c_string
  test_send-head root msg (with_role, role, greeting) is_text v =
      rw (role, greeting, is_text)
        (elim (send_text-fits k law msg hello_world (omega arith)) [
          | inl (large, faulted) ↦ absurd (omega (arith, v.fits))
          | inr (fits, sends) ↦ rw (sends, whole msg v) refl
        ])

  pub test_recv-text :
      (answer rest : Bytes)
      → IsText answer
      → test_recv k (wire hello_world answer ++ rest)
        ≡ ok ((hello_world, length answer, answer), rest)
  test_recv-text answer rest v =
      elim (test_recv-wire k law hello_world answer rest (omega arith) v.free
        (omega (arith, v.fits))) [
          | inl (short, printed) ↦ printed
          | inr (long, faulted) ↦ absurd (omega (arith, v.fits))
        ]

module _ (c : Libraries) (h : Host) (law : IsHost h) (s : Session) (w : World) (msg : Bytes) where
  -- The session and the world when the message has been read
  abbrev pub read_session : Session
  read_session = ready h law (hello_world, msg) s w

  abbrev pub read_world : World
  read_world = record w {
    nodes = w.nodes ++ taken (hello_world, msg) ∷ [];
    msg_queue = w.msg_queue ++ record { session = s.id; recv_node = length w.nodes } ∷ [];
  }

  pub reads_message :
      HeadFits s
      → IsText msg
      → w.msg_queue ≡ []
      → run_reads h (received (head hello_world (length msg)) ∷ received msg ∷ []) (await_head s w)
        ≡ ok (await_head read_session read_world)
  unfolding run_reads resume_at with_head
  reads_message fits v empty =
      let m : Message = (hello_world, msg) in
      rw (on_head-head h law m s w fits (hello-IsTaken msg v)) (
        rw
          (on_msg-body h law m read_session w (length w.nodes) refl refl (hello-IsTaken msg v)
            (rw (empty) (omega arith)))
          refl)

  abbrev pub queued : System
  queued = record { world = read_world; objects = (s.id, read_session) ∷ []; stop = false }

  abbrev pub node : LogicNode
  node = record { session = s.id; recv_node = length w.nodes }

  pub answers :
      (reply : c.Value) (answer : Bytes)
      → IsText msg
      → s.send_queue ≡ []
      → w.msg_queue ≡ []
      → c.put (text "role") (c.from_string (text "server")) (c.parse msg).1 ≡ some reply
      → c.to_styled_string reply ≡ answer
      → IsText answer
      → deal_msg c h queued
        ≡ ok (goes_on (answered c h law queued node [] (answering answer hello_world read_session)))
  unfolding find with_head
  answers reply answer v idle empty with_role is_text fits =
      elim (deal_msg-hello c h law queued node [] (taken (hello_world, msg)) reply read_session refl
        (ap (λ q. q ++ node ∷ []) empty) (get_elem?-append_end w.nodes (taken (hello_world, msg)))
        refl (rw (c_string-append_zero msg [] v.free) with_role) (rw (beq_self s.id) refl) idle) [
          | inl (short, deals) ↦ deals ∙ rw (is_text, whole answer fits) refl
          | inr (long, fails) ↦
              let e : length (c.to_styled_string reply) ≡ length answer = ap length is_text in
              absurd (omega (arith, fits.fits))
        ]

-- The client sends its greeting, and the session, which is idle and has nothing in the queue behind it, reads
-- what was sent as a header and a body; the worker then has the session write the bytes that the client
-- reads and prints as the server's answer, whatever comes behind them. This holds on machines of any byte
-- order, where both texts have at least one byte and at most MAX_LEN - 4, and none is zero.
pub test_send-test_recv :
    (c d : Libraries) (h k : Host) (law_h : IsHost h) (law_k : IsHost k) (s : Session) (w : World)
    (root : d.Value) (reply : c.Value) (msg answer rest : Bytes)
    → HeadFits s
    → s.send_queue ≡ []
    → w.msg_queue ≡ []
    → Greets d root
    → d.to_styled_string root ≡ msg
    → IsText msg
    → c.put (text "role") (c.from_string (text "server")) (c.parse msg).1 ≡ some reply
    → c.to_styled_string reply ≡ answer
    → IsText answer
    → (r : Reader) × (sys : System) × (s' : Session) × (bytes : Bytes) × (test_send d k
        ≡ ok (head hello_world (length msg) ++ msg))
      × (run_reads h (received (head hello_world (length msg)) ∷ received msg ∷ []) (await_head s w)
          ≡ ok r)
      × (r.co ≡ reading_head)
      × (deal_msg c h (record { world = r.world; objects = (s.id, r.session) ∷ []; stop = false })
          ≡ ok (goes_on sys))
      × (find s.id sys.objects ≡ some s')
      × (s'.writing ≡ s.writing ++ bytes ∷ [])
      × (test_recv k (bytes ++ rest) ≡ ok ((hello_world, length answer, answer), rest))
unfolding clear_head answering with_head
test_send-test_recv c d h k law_h law_k s w root reply msg answer rest fits idle empty greets
      is_text v with_role is_answer u =
    let read = read_session c h law_h s w msg in
    (
      await_head read (read_world c h law_h s w msg),
      answered c h law_h (queued c h law_h s w msg) (node c h law_h s w msg) []
          (answering answer hello_world read),
      clear_head (answering answer hello_world read),
      wire hello_world answer,
      test_send-head d k law_k root msg greets is_text v,
      reads_message c h law_h s w msg fits v empty,
      refl,
      answers c h law_h s w msg reply answer v idle empty with_role is_answer u,
      find-assign_self s.id (clear_head (answering answer hello_world read)) ((s.id, read) ∷ []),
      refl,
      test_recv-text d k law_k answer rest u,
    )
