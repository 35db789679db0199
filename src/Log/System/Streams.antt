-- ===== src/Log/System/Streams.antt =====
-- The file and the console of src/05_ftp/include/AsyncLogSystem.h.
use mathlib.Core.List.{append-nil}
use boost_asio.Common.{
  some-injective, ◌≡◌, refl, sym, ap, ◌∙◌, true, false, inl, inr, none, some, Option-cases, List,
  [], ◌∷◌, ◌++◌, Bytes,
}
use boost_asio.Logic.{text}
use boost_asio.StringTool.{find}
use boost_asio.Log.Queue.{new_queue}
use boost_asio.Log.System.{LogSystem, new_system, is_found, Event, step, run}
use boost_asio.Log.System.Steps.{
  said, lines, kept, pending, Adds, step-Adds, with_que, kept-append, kept-nothing,
}

Adds-trans : (l m l' : LogSystem) (a b : List Bytes) → Adds l m a → Adds m l' b → Adds l l' (a ++ b)
Adds-trans l m l' a b first rest = record {
  running = rest.running ∙ first.running;
  same_file = rest.same_file ∙ first.same_file;
  same_console = rest.same_console ∙ first.same_console;
  file =
      rw (first.same_file) at rest.file
      ∙ ap (λ t. t ++ kept l.to_file b) first.file
      ∙ sym (kept-append l.to_file (l.log_file ++ kept l.to_file (pending l)) a b);
  printed =
      rw (first.same_console) at rest.printed
      ∙ ap (λ t. t ++ kept l.to_console b) first.printed
      ∙ sym (kept-append l.to_console (l.console ++ kept l.to_console (pending l)) a b);
}

run-Adds :
    (es : List Event) (l l' : LogSystem)
    → l.is_shut_down ≡ false
    → run es l ≡ some l'
    → Adds l l' (lines es)
unfolding run
run-Adds [] l l' running ran =
    rw (sym (some-injective ran)) (with_que l l.log_que [] (sym (append-nil l.log_que.que)))
run-Adds (e ∷ es) l l' running ran = elim (Option-cases (step e l)) [
  | inl stuck ↦ let nothing : run (e ∷ es) l ≡ none = rw (stuck) refl in absurd (cc)
  | inr (m, stepped) ↦
      let goes_on : run (e ∷ es) l ≡ run es m = rw (stepped) refl in
      let first = step-Adds e l m running stepped in
      Adds-trans l m l' (said e) (lines es) first
        (run-Adds es m l' (first.running ∙ running) (sym goes_on ∙ ran))
]

-- While the log is not shut down, whatever is logged and whenever the worker takes a message, writes
-- it or waits: the file, if the mode says FILE, has what it had before, and then, together with the message
-- that the worker has taken and not written and with what is still in the queue, the lines of the messages
-- that were logged, in their order; if not, it is as it was. The same holds of the
-- console and CONSOLE.
pub run-new_system :
    (mode : Bytes) (old printed : List Bytes) (first l : LogSystem) (es : List Event)
    → new_system mode true old printed ≡ some first
    → run es first ≡ some l
    → (l.log_file ++ kept (is_found (find (text "FILE") mode)) (pending l)
        ≡ old ++ kept (is_found (find (text "FILE") mode)) (lines es))
      × (l.console ++ kept (is_found (find (text "CONSOLE") mode)) (pending l)
          ≡ printed ++ kept (is_found (find (text "CONSOLE") mode)) (lines es))
unfolding new_system new_queue
run-new_system mode old printed first l es made ran =
    let to_file = is_found (find (text "FILE") mode) in
    let to_console = is_found (find (text "CONSOLE") mode) in
    let start : LogSystem = record {
      log_que = new_queue;
      to_console = to_console;
      to_file = to_file;
      log_file = old;
      console = printed;
      is_shut_down = false;
      msg = none;
    } in
    let adds = run-Adds es start l refl (ap (run es) (some-injective made) ∙ ran) in
    (
      adds.file ∙ ap (λ t. t ++ kept to_file (lines es)) (kept-nothing to_file old),
      adds.printed ∙ ap (λ t. t ++ kept to_console (lines es)) (kept-nothing to_console printed),
    )
