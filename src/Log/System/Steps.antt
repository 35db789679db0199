-- ===== src/Log/System/Steps.antt =====
-- One step of the log or of its worker, from src/05_ftp/include/AsyncLogSystem.h: what it adds to the
-- streams and the queue.
use mathlib.Core.List.{append_assoc, append-nil}
use boost_asio.Common.{
  some-injective, ◌≡◌, refl, sym, ap, ◌∙◌, Bool, true, false, inl, inr, none, some, ◌>>=◌, Option,
  Option-cases, bind-eq-some, List, [], ◌∷◌, ◌++◌, Bytes, if◌then◌else◌,
}
use boost_asio.Logic.{text}
use boost_asio.Log.{LogLevel, level_string}
use boost_asio.Log.Placeholders.{fill, format_message-fill}
use boost_asio.Log.Queue.{LogQueue, push, pop, wait}
use boost_asio.Log.System.Queues.{push-que, pop-que, pop-que_empty, wait-que}
use boost_asio.Log.System.{
  LogSystem, put_out, pop_msg, worker_pops, worker_writes, log, Event, logs, pops, writes, waits,
  step,
}

-- The line of a message
abbrev pub line_of : LogLevel → Bytes → Bytes → List Bytes → Bytes
line_of level current_time fmt args =
    text "[" ++ level_string level ++ text "] " ++ current_time ++ text ": " ++ fill fmt args

abbrev pub said : Event → List Bytes
said (logs level current_time fmt args) = line_of level current_time fmt args ∷ []
said pops = []
said writes = []
said waits = []

abbrev pub lines : List Event → List Bytes
lines [] = []
lines (e ∷ es) = said e ++ lines es

-- What goes to a stream that is switched on
abbrev pub kept : Bool → List Bytes → List Bytes
kept true ls = ls
kept false ls = []

-- What the worker has taken and not written yet, and the queue
abbrev pub in_hand : Option Bytes → List Bytes
in_hand none = []
in_hand (some m) = m ∷ []

abbrev pub pending : LogSystem → List Bytes
pending l = in_hand l.msg ++ l.log_que.que

pub kept-append :
    (b : Bool) (out q ms : List Bytes) → out ++ kept b (q ++ ms) ≡ (out ++ kept b q) ++ kept b ms
kept-append true out q ms = sym (append_assoc out q ms)
kept-append false out q ms = sym (append-nil (out ++ []))

kept-put_out :
    (b : Bool) (out rest : List Bytes) (m : Bytes)
    → (if b then out ++ m ∷ [] else out) ++ kept b rest ≡ out ++ kept b (m ∷ rest)
kept-put_out true out rest m = append_assoc out (m ∷ []) rest
kept-put_out false out rest m = refl

pub kept-nothing : (b : Bool) (out : List Bytes) → out ++ kept b [] ≡ out
kept-nothing true out = append-nil out
kept-nothing false out = append-nil out

-- What a step keeps and what it adds
pub record Adds (l l' : LogSystem) (ms : List Bytes) : Type 0 where
  pub running : l'.is_shut_down ≡ l.is_shut_down
  pub same_file : l'.to_file ≡ l.to_file
  pub same_console : l'.to_console ≡ l.to_console
  pub file :
      l'.log_file ++ kept l.to_file (pending l')
      ≡ (l.log_file ++ kept l.to_file (pending l)) ++ kept l.to_file ms
  pub printed :
      l'.console ++ kept l.to_console (pending l')
      ≡ (l.console ++ kept l.to_console (pending l)) ++ kept l.to_console ms

with_pending :
    (l : LogSystem) (q : LogQueue) (msg : Option Bytes) (ms : List Bytes)
    → in_hand msg ++ q.que ≡ pending l ++ ms
    → Adds l (record l { log_que = q; msg = msg }) ms
with_pending l q msg ms e = record {
  running = refl;
  same_file = refl;
  same_console = refl;
  file = rw (e) (kept-append l.to_file l.log_file (pending l) ms);
  printed = rw (e) (kept-append l.to_console l.console (pending l) ms);
}

pub with_que :
    (l : LogSystem) (q : LogQueue) (ms : List Bytes)
    → q.que ≡ l.log_que.que ++ ms
    → Adds l (record l { log_que = q }) ms
with_que l q ms e =
    with_pending l q l.msg ms
      (ap (λ t. in_hand l.msg ++ t) e ∙ sym (append_assoc (in_hand l.msg) l.log_que.que ms))

log-Adds :
    (level : LogLevel) (current_time fmt : Bytes) (args : List Bytes) (l l' : LogSystem)
    → l.is_shut_down ≡ false
    → log level current_time fmt args l ≡ some l'
    → Adds l l' (line_of level current_time fmt args ∷ [])
unfolding log
log-Adds level current_time fmt args l l' running ran =
    let msg = line_of level current_time fmt args in
    elim (Option-cases (push msg l.log_que)) [
      | inl held ↦
          let stuck : log level current_time fmt args l ≡ none =
            rw (running, format_message-fill level current_time fmt args, held) refl in
          absurd (cc)
      | inr (q, pushed) ↦
          let same : record l { log_que = q } ≡ l' = some-injective (
            sym (rw (running, format_message-fill level current_time fmt args, pushed) refl)
            ∙ ran) in
          rw (sym same)
            (with_que l q (msg ∷ []) (push-que l.log_que.worker msg l.log_que q refl pushed))
    ]

pop_msg-empty :
    (l : LogSystem)
    → l.log_que.que ≡ []
    → pop_msg l ≡ (pop l.log_que >>= λ q. some (record l { log_que = q }))
unfolding pop_msg
pop_msg-empty l e = rw (e) refl

pop_msg-message :
    (l : LogSystem) (m : Bytes) (ms : List Bytes)
    → l.log_que.que ≡ m ∷ ms
    → pop_msg l ≡ (pop l.log_que >>= λ q. some (record l { log_que = q; msg = some m }))
unfolding pop_msg
pop_msg-message l m ms e = rw (e) refl

worker_pops-idle : (l : LogSystem) → l.msg ≡ none → worker_pops l ≡ pop_msg l
unfolding worker_pops
worker_pops-idle l idle = rw (idle) refl

pending-idle :
    (l : LogSystem) (ms : List Bytes) → l.msg ≡ none → l.log_que.que ≡ ms → pending l ≡ ms
pending-idle l ms idle e = simp (idle, e)

pops-empty :
    (l l' : LogSystem) → l.msg ≡ none → l.log_que.que ≡ [] → worker_pops l ≡ some l' → Adds l l' []
pops-empty l l' idle e ran =
    let (q, popped, done) =
      bind-eq-some (pop l.log_que) _ (sym (worker_pops-idle l idle ∙ pop_msg-empty l e) ∙ ran) in
    rw (sym (some-injective done)) (
      with_que l q []
        (pop-que_empty l.log_que.worker l.log_que q refl e popped ∙ sym (append-nil l.log_que.que)))

pops-message :
    (l l' : LogSystem) (m : Bytes) (ms : List Bytes)
    → l.msg ≡ none
    → l.log_que.que ≡ m ∷ ms
    → worker_pops l ≡ some l'
    → Adds l l' []
pops-message l l' m ms idle e ran =
    let (q, popped, done) =
      bind-eq-some (pop l.log_que) _
        (sym (worker_pops-idle l idle ∙ pop_msg-message l m ms e) ∙ ran) in
    let left : q.que ≡ ms = pop-que l.log_que.worker l.log_que q m ms refl e popped in
    let same : m ∷ q.que ≡ pending l ++ [] =
      ap (λ t. m ∷ t) left
      ∙ sym (append-nil (m ∷ ms))
      ∙ ap (λ t. t ++ []) (sym (pending-idle l (m ∷ ms) idle e)) in
    rw (sym (some-injective done)) (with_pending l q (some m) [] same)

pops-Adds :
    (msg : Option Bytes) (ms : List Bytes) (l l' : LogSystem)
    → l.msg ≡ msg
    → l.log_que.que ≡ ms
    → worker_pops l ≡ some l'
    → Adds l l' []
unfolding worker_pops
pops-Adds (some m) ms l l' busy e ran =
    let nothing : worker_pops l ≡ none = rw (busy) refl in absurd (cc)
pops-Adds none [] l l' idle e ran = pops-empty l l' idle e ran
pops-Adds none (m ∷ ms) l l' idle e ran = pops-message l l' m ms idle e ran

writes-Adds : (l l' : LogSystem) → worker_writes l ≡ some l' → Adds l l' []
unfolding worker_writes put_out
writes-Adds l l' ran =
    let (m, taken, done) = bind-eq-some l.msg _ ran in
    rw (sym (some-injective done)) (record {
      running = refl;
      same_file = refl;
      same_console = refl;
      file =
          rw (taken)
            (kept-put_out l.to_file l.log_file l.log_que.que m ∙ sym (kept-nothing l.to_file _));
      printed =
          rw (taken) (
            kept-put_out l.to_console l.console l.log_que.que m
            ∙ sym (kept-nothing l.to_console _));
    })

waits-Adds : (l l' : LogSystem) → step waits l ≡ some l' → Adds l l' []
unfolding step
waits-Adds l l' ran = elim (Option-cases (wait l.log_que)) [
  | inl stuck ↦ let nothing : step waits l ≡ none = rw (stuck) refl in absurd (cc)
  | inr (q, waited) ↦
      let same : record l { log_que = q } ≡ l' = some-injective (sym (rw (waited) refl) ∙ ran) in
      rw (sym same) (
        with_que l q []
          (wait-que l.log_que.worker l.log_que q refl waited ∙ sym (append-nil l.log_que.que)))
]

pub step-Adds :
    (e : Event) (l l' : LogSystem)
    → l.is_shut_down ≡ false
    → step e l ≡ some l'
    → Adds l l' (said e)
unfolding step
step-Adds (logs level current_time fmt args) l l' running ran =
    log-Adds level current_time fmt args l l' running ran
step-Adds pops l l' running ran = pops-Adds l.msg l.log_que.que l l' refl refl ran
step-Adds writes l l' running ran = writes-Adds l l' ran
step-Adds waits l l' running ran = waits-Adds l l' ran
