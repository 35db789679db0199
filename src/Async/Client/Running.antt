-- ===== src/Async/Client/Running.antt =====
-- The `main` of src/02_async/RunClient.cpp: the connection, and the two threads, of which one sends
-- and one receives. What is thrown in a thread is not caught by `main`, and ends the program.
use boost_asio.Common.{
  ℕ, zero, suc, ◌<◌, ◌≡◌, refl, ap, ◌∙◌, not, List, [], ◌∷◌, ◌++◌, map, Bytes, ◌==◌, if◌then◌else◌,
  length, lt→leb, arith, All, ◌≤◌, ◌⊎◌, lt_or_le,
}
use mathlib.Core.List.{append_assoc}
use boost_asio.Wire.Host.{Host, IsHost}
use boost_asio.Logic.Codec.{Libraries}
use boost_asio.Async.Wire.{Outcome, ok, throws, ◌>>=◌, head_total_len, hello_world}
use boost_asio.Async.Layout.{wire}
use boost_asio.Async.Session.Reading.{Message}
use boost_asio.Async.Client.{Printed, test_send, read, test_recv}
use boost_asio.Async.Exchange.{IsText, Greets, test_send-head, test_recv-text}

abbrev pub send_num : ℕ
send_num = 10

-- `sendThread`: what it has sent when it ends
unfoldable pub send_thread : Libraries → Host → ℕ → Outcome Bytes
send_thread c h zero = ok []
send_thread c h (suc n) = do bytes ← test_send c h; more ← send_thread c h n; ok (bytes ++ more)

-- `recvThread`: what it has printed, and what it leaves of the stream
unfoldable pub recv_thread : Host → ℕ → Bytes → Outcome (List Printed × Bytes)
recv_thread h zero stream = ok ([], stream)
recv_thread h (suc n) stream = do
  (answer, rest) ← test_recv h stream
  (more, left) ← recv_thread h n rest
  ok (answer ∷ more, left)

pub record Exit : Type 0 where
  pub code : ℕ
  pub sent : Bytes
  pub printed : List Printed

-- The error code is that of `connect`, and 0 for none; the stream is all that the server sends.
unfoldable pub main : Libraries → Host → ℕ → Bytes → Outcome Exit
unfolding send_thread recv_thread
main c h ec stream =
    let joined : Outcome Exit = (do
      sent ← send_thread c h send_num
      (printed, left) ← recv_thread h send_num stream
      ok (record { code = 0; sent = sent; printed = printed })) in
    if not (ec == 0) then ok (record { code = ec; sent = []; printed = [] }) else joined

-- The bytes of messages, one after the other
unfoldable pub wires : List Message → Bytes
wires [] = []
wires (m ∷ ms) = wire m.0 m.1 ++ wires ms

-- The same text some number of times
unfoldable pub greetings : ℕ → Bytes → List Message
greetings zero msg = []
greetings (suc n) msg = (hello_world, msg) ∷ greetings n msg

abbrev pub answer_of : Bytes → Message
answer_of answer = (hello_world, answer)

abbrev pub printed_of : Bytes → Printed
printed_of answer = (hello_world, length answer, answer)

module _ (c : Libraries) (h : Host) (law : IsHost h) where
  pub send_thread-greetings :
      (root : c.Value) (msg : Bytes)
      → Greets c root
      → c.to_styled_string root ≡ msg
      → IsText msg
      → (n : ℕ) → send_thread c h n ≡ ok (wires (greetings n msg))
  unfolding send_thread wires greetings
  send_thread-greetings root msg greets is_text v zero = refl
  send_thread-greetings root msg greets is_text v (suc n) =
      rw
        (
          test_send-head c h law root msg greets is_text v,
          send_thread-greetings root msg greets is_text v n,
        )
        refl

  recv_thread-next :
      (answer rest : Bytes) (answers : List Bytes) (n : ℕ)
      → IsText answer
      → recv_thread h (suc n) (wires (map answer_of (answer ∷ answers)) ++ rest) ≡ (do
        (more, left) ← recv_thread h n (wires (map answer_of answers) ++ rest)
        ok (printed_of answer ∷ more, left))
  unfolding recv_thread wires
  recv_thread-next answer rest answers n v =
      ap (recv_thread h (suc n))
        (append_assoc (wire hello_world answer) (wires (map answer_of answers)) rest)
      ∙ ap (λ o. o >>= λ r. recv_thread h n r.1 >>= λ x. ok (r.0 ∷ x.0, x.1))
          (test_recv-text c h law answer (wires (map answer_of answers) ++ rest) v)

  recv_thread-answers :
      (answers : List Bytes) (rest : Bytes)
      → All IsText answers
      → recv_thread h (length answers) (wires (map answer_of answers) ++ rest)
        ≡ ok (map printed_of answers, rest)
  unfolding recv_thread wires
  recv_thread-answers [] rest v = refl
  recv_thread-answers (answer ∷ answers) rest v =
      recv_thread-next answer rest answers (length answers) v.0
      ∙ rw (recv_thread-answers answers rest v.1) refl

  recv_thread-short :
      (answers : List Bytes) (rest : Bytes) (n : ℕ)
      → All IsText answers
      → length rest < head_total_len
      → length answers < n
      → recv_thread h n (wires (map answer_of answers) ++ rest) ≡ throws
  unfolding recv_thread wires test_recv read
  recv_thread-short answers rest zero v short fewer = absurd (omega arith)
  recv_thread-short [] rest (suc n) v short fewer =
      rw (lt→leb head_total_len (length rest) short) refl
  recv_thread-short (answer ∷ answers) rest (suc n) v short fewer =
      recv_thread-next answer rest answers n v.0
      ∙ rw (recv_thread-short answers rest n v.1 short (omega arith)) refl

  -- The client is connected to a server whose first answers are texts as the client can print, at most ten.
  -- If they are ten, the client sends its greeting ten times, prints the answers in their order, and
  -- returns 0, whatever comes behind them. If they are fewer, and the stream ends with less than a header
  -- behind them, an exception ends the program.
  pub main-answers :
      (root : c.Value) (msg : Bytes) (answers : List Bytes) (rest : Bytes)
      → Greets c root
      → c.to_styled_string root ≡ msg
      → IsText msg
      → All IsText answers
      → length answers ≤ send_num
      → length rest < head_total_len
      → ((length answers < send_num)
          × (main c h 0 (wires (map answer_of answers) ++ rest) ≡ throws))
        ⊎ ((send_num ≤ length answers)
            × ((more : Bytes)
                → main c h 0 (wires (map answer_of answers) ++ more)
                  ≡ ok (record {
                    code = 0;
                    sent = wires (greetings send_num msg);
                    printed = map printed_of answers;
                  })))
  unfolding main
  main-answers root msg answers rest greets is_text v texts most short =
      let sends = send_thread-greetings root msg greets is_text v send_num in
      lt_or_le (length answers) send_num (
        (λ fewer. rw (sends, recv_thread-short answers rest send_num texts short fewer) refl),
        (λ enough more.
            let ten : send_num ≡ length answers = omega arith in
            rw
              (
                sends,
                ap (λ n. recv_thread h n (wires (map answer_of answers) ++ more)) ten
                    ∙ recv_thread-answers answers more texts,
              )
              refl),
      )
