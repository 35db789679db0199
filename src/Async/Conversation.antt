-- ===== src/Async/Conversation.antt =====
-- The whole `main` of src/02_async/RunClient.cpp and the server: ten greetings, and the ten answers that
-- the session, the worker and the ends of the writes make of them.
use boost_asio.Common.{
  ℕ, zero, suc, ◌≡◌, refl, ap, false, some, List, [], ◌∷◌, ◌++◌, map, Bytes, length, arith, All,
  length-drop, inl, inr,
}
use boost_asio.Map.{find, nat_eq, find-assign_self}
use boost_asio.Wire.Host.{Host, IsHost}
use boost_asio.Logic.{text}
use boost_asio.Logic.Codec.{Libraries}
use boost_asio.Async.Wire.{ok, hello_world, clear}
use boost_asio.Async.Layout.{wire}
use boost_asio.Async.Session.{
  Session, World, Reader, reading_head, received, await_head, clear_head, write_front,
  handler_write, write_done,
}
use boost_asio.Async.Session.Reading.{head, HeadFits, Message, with_head, run_reads}
use boost_asio.Async.Logic.{System, goes_on, deal_msg}
use boost_asio.Async.Logic.Answer.{answering, answered}
use boost_asio.Async.Client.Running.{
  main, send_num, wires, greetings, answer_of, printed_of, main-answers,
}
use boost_asio.Async.Exchange.{
  IsText, Greets, read_session, read_world, queued, node, reads_message, answers,
}

-- A message is read and posted, the worker answers it, and the write of the answer ends.
pub data Exchange (c : Libraries) (h : Host) (m : Message) (s : Session) (w : World) (bytes : Bytes)
    : Session → World → Type 0 where
  exchanges :
      (r : Reader) (sys : System) (s' s'' : Session) (w' : World)
      → run_reads h (received (head m.0 (length m.1)) ∷ received m.1 ∷ []) (await_head s w) ≡ ok r
      → r.co ≡ reading_head
      → deal_msg c h (record { world = r.world; objects = (s.id, r.session) ∷ []; stop = false })
        ≡ ok (goes_on sys)
      → find s.id sys.objects ≡ some s'
      → s'.writing ≡ bytes ∷ []
      → write_done false s' sys.world ≡ ok (s'', w')
      → Exchange c h m s w bytes s'' w'

-- The messages, one exchange after the other, and all that is written
pub data Serves (c : Libraries) (h : Host) : List Message → Session → World → Bytes → Type 0 where
  nothing : {s : Session} {w : World} → Serves c h [] s w []
  next :
      {m : Message} {ms : List Message} {s s' : Session} {w w' : World} {bytes rest : Bytes}
      → Exchange c h m s w bytes s' w'
      → Serves c h ms s' w' rest
      → Serves c h (m ∷ ms) s w (bytes ++ rest)

-- The session reads a header, and nothing is queued or being written.
pub record IsIdle (s : Session) (w : World) : Type 0 where
  pub head_fits : HeadFits s
  pub none_queued : s.send_queue ≡ []
  pub none_written : s.writing ≡ []
  pub none_posted : w.msg_queue ≡ []

unfoldable pub same : ℕ → Bytes → List Bytes
same zero answer = []
same (suc n) answer = answer ∷ same n answer

module _ (c : Libraries) (h : Host) (law : IsHost h) (reply : c.Value) (msg answer : Bytes)
    (v : IsText msg) (u : IsText answer)
    (with_role : c.put (text "role") (c.from_string (text "server")) (c.parse msg).1 ≡ some reply)
    (is_answer : c.to_styled_string reply ≡ answer) where
  Exchange-greeting :
      (s : Session) (w : World)
      → IsIdle s w
      → (s' : Session) × (w' : World) × Exchange c h
          (hello_world, msg)
          s
          w
          (wire hello_world answer)
          s'
          w'
        × IsIdle s' w'
  unfolding write_done handler_write write_front answering clear_head with_head clear
  Exchange-greeting s w idle =
      let read = read_session c h law s w msg in
      let s' = clear_head (answering answer hello_world read) in
      let sys =
        answered c h law (queued c h law s w msg) (node c h law s w msg) []
          (answering answer hello_world read) in
      let s'' : Session = record s' { send_queue = []; writing = [] } in
      (
        s'',
        sys.world,
        exchanges (await_head read (read_world c h law s w msg)) sys s' s'' sys.world
            (reads_message c h law s w msg idle.head_fits v idle.none_posted) refl
            (answers c h law s w msg reply answer v idle.none_queued idle.none_posted with_role
              is_answer u)
            (find-assign_self s.id s' ((s.id, read) ∷ [])) (rw (idle.none_written) refl)
            (rw (idle.none_written) refl),
        record {
          head_fits = omega (arith, length-drop 4 s.recv_head_node.chars, idle.head_fits);
          none_queued = refl;
          none_written = refl;
          none_posted = refl;
        },
      )

  serve_greetings :
      (n : ℕ) (s : Session) (w : World)
      → IsIdle s w
      → Serves c h (greetings n msg) s w (wires (map answer_of (same n answer)))
  unfolding greetings wires same
  serve_greetings zero s w idle = nothing
  serve_greetings (suc n) s w idle =
      let (s', w', exchanged, idle') = Exchange-greeting s w idle in
      next exchanged (serve_greetings n s' w' idle')

All-same :
    (answer : Bytes)
    → IsText answer
    → (n : ℕ) → All IsText (same n answer) × (length (same n answer) ≡ n)
unfolding same
All-same answer u zero = (tt, refl)
All-same answer u (suc n) = let (texts, size) = All-same answer u n in ((u, texts), ap suc size)

-- The client sends its greeting ten times. An idle session of the server reads the ten as they were sent,
-- each is answered before the next is read, and what is written is the stream of which the client
-- prints ten answers, whatever comes behind them, and returns 0. This holds on machines of any byte
-- order, where both texts have at least one byte and at most MAX_LEN - 4, and none is zero.
pub main-Serves :
    (c d : Libraries) (h k : Host) (law_h : IsHost h) (law_k : IsHost k) (s : Session) (w : World)
    (root : d.Value) (reply : c.Value) (msg answer : Bytes)
    → IsIdle s w
    → Greets d root
    → d.to_styled_string root ≡ msg
    → IsText msg
    → c.put (text "role") (c.from_string (text "server")) (c.parse msg).1 ≡ some reply
    → c.to_styled_string reply ≡ answer
    → IsText answer
    → (stream : Bytes) × Serves c h (greetings send_num msg) s w stream
      × ((more : Bytes)
          → main d k 0 (stream ++ more)
            ≡ ok (record {
              code = 0;
              sent = wires (greetings send_num msg);
              printed = map printed_of (same send_num answer);
            }))
main-Serves c d h k law_h law_k s w root reply msg answer idle greets is_text v with_role is_answer
      u =
    let (texts, size) = All-same answer u send_num in
    (
      wires (map answer_of (same send_num answer)),
      serve_greetings c h law_h reply msg answer v u with_role is_answer send_num s w idle,
      elim (main-answers d k law_k root msg (same send_num answer) [] greets is_text v texts
          (omega (arith, size)) (omega arith)) [
            | inl (fewer, fails) ↦ absurd (omega (arith, size))
            | inr (enough, prints) ↦ prints
          ],
    )
