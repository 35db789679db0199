-- ===== src/Log/System.antt =====
-- The class AsyncLogSystem of src/05_ftp/include/AsyncLogSystem.h: what is logged, by any threads, against
-- what its worker writes. A stream is the list of its lines.
pub mod Queues
pub mod Steps
pub mod Streams
use mathlib.Core.List.{append_assoc, append-nil}
use boost_asio.Common.{
  ℕ, ◌≡◌, refl, sym, ap, ◌∙◌, Bool, true, false, ◌⊎◌, inl, inr, Option, none, some, ◌>>=◌,
  Option-cases, List, [], ◌∷◌, ◌++◌, Bytes, if◌then◌else◌, arith,
}
use boost_asio.Logic.{text}
use boost_asio.StringTool.{find}
use boost_asio.Log.{LogLevel, level_string, format_message}
use boost_asio.Log.Placeholders.{fill, format_message-fill}
use boost_asio.Log.Queue.{
  LogQueue, Phase, checking, going_to_wait, waiting, finished, new_queue, push, pop, wait, woken,
  set_shut_down, notify_all,
}

pub record LogSystem : Type 0 where
  pub log_que : LogQueue
  pub to_console : Bool
  pub to_file : Bool
  pub log_file : List Bytes
  pub console : List Bytes
  pub is_shut_down : Bool
  -- what the worker has taken and not written yet
  pub msg : Option Bytes

abbrev pub is_found : Option ℕ → Bool
is_found none = false
is_found (some i) = true

-- The constructor, with the mode of the configuration, whether the file can be opened and what it has,
-- and what has been printed
unfoldable pub new_system : Bytes → Bool → List Bytes → List Bytes → Option LogSystem
unfolding new_queue find
new_system mode opens old printed =
    if opens
    then some (record {
      log_que = new_queue;
      to_console = is_found (find (text "CONSOLE") mode);
      to_file = is_found (find (text "FILE") mode);
      log_file = old;
      console = printed;
      is_shut_down = false;
      msg = none;
    })
    else none

-- The body of the worker's loop
unfoldable pub put_out : Bytes → LogSystem → LogSystem
put_out msg l = record l {
  console = if l.to_console then l.console ++ msg ∷ [] else l.console;
  log_file = if l.to_file then l.log_file ++ msg ∷ [] else l.log_file;
}

-- `Pop`, which gives the mutex back when it returns, with its argument `msg`
unfoldable pub pop_msg : LogSystem → Option LogSystem
unfolding pop
pop_msg l = elim l.log_que.que [
  | [] ↦ do q ← pop l.log_que; some (record l { log_que = q })
  | m ∷ rest ↦ do q ← pop l.log_que; some (record l { log_que = q; msg = some m })
]

-- The condition of the worker's loop, when what it has taken has been written
unfoldable pub worker_pops : LogSystem → Option LogSystem
unfolding pop_msg
worker_pops l = elim l.msg [ none ↦ pop_msg l | some m ↦ none ]

-- The body of the loop, on what `Pop` has taken
unfoldable pub worker_writes : LogSystem → Option LogSystem
unfolding put_out
worker_writes l = do m ← l.msg; some (put_out m (record l { msg = none }))

-- AsyncLogSystem::Log
unfoldable pub log : LogLevel → Bytes → Bytes → List Bytes → LogSystem → Option LogSystem
unfolding format_message push
log level current_time fmt args l =
    let pushed : Option LogSystem = do
      msg ← format_message level current_time fmt args
      q ← push msg l.log_que
      some (record l { log_que = q })
    in if l.is_shut_down then some l else pushed

pub data Event : Type 0 where
  logs : LogLevel → Bytes → Bytes → List Bytes → Event
  pops : Event
  writes : Event
  waits : Event

-- `none`: the event cannot come now.
unfoldable pub step : Event → LogSystem → Option LogSystem
unfolding log worker_pops worker_writes wait
step (logs level current_time fmt args) l = log level current_time fmt args l
step pops l = worker_pops l
step writes l = worker_writes l
step waits l = do q ← wait l.log_que; some (record l { log_que = q })

unfoldable pub run : List Event → LogSystem → Option LogSystem
unfolding step
run [] l = some l
run (e ∷ es) l = do l' ← step e l; run es l'

-- The destructor, up to its wait for the worker
unfoldable pub shut_down : LogSystem → LogSystem
unfolding set_shut_down notify_all
shut_down l = record l { is_shut_down = true; log_que = notify_all (set_shut_down l.log_que) }
