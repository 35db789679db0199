-- ===== src/Tests/Logging.antt =====
-- A message that the log's worker has written.
use boost_asio.Common.{◌≡◌, refl, true, false, none, some, List, [], ◌∷◌, ◌++◌, Bytes}
use boost_asio.Logic.{text}
use boost_asio.StringTool.{find, has_prefix}
use boost_asio.Log.{
  info, format_message, format_loop, find_placeholder, opening, closing, next_argument, join_all,
  level_string,
}
use boost_asio.Log.Queue.{new_queue, push, pop, checking}
use boost_asio.Log.System.{
  LogSystem, Event, new_system, put_out, pop_msg, worker_pops, worker_writes, log, logs, pops,
  writes, step, run,
}
use boost_asio.Log.System.Steps.{lines}
use boost_asio.Log.System.Streams.{run-new_system}
use boost_asio.Tests.Machine.{hi}

abbrev started : LogSystem
started = record {
  log_que = record { que = []; is_shut_down = false; worker = checking; written = [] };
  to_console = false;
  to_file = true;
  log_file = hi ∷ [];
  console = [];
  is_shut_down = false;
  msg = none;
}

starts : new_system (text "FILE") true (hi ∷ []) [] ≡ some started
unfolding new_system new_queue find has_prefix
starts = refl

abbrev events : List Event
events = logs info hi (text "a{}") (hi ∷ []) ∷ pops ∷ writes ∷ []

abbrev line : Bytes
line = text "[INFO] hi: ahi"

abbrev written : LogSystem
written = record started {
  log_que = record { que = []; is_shut_down = false; worker = checking; written = line ∷ [] };
  log_file = hi ∷ line ∷ [];
}

runs : run events started ≡ some written
unfolding run step log worker_pops pop_msg worker_writes push pop put_out format_message format_loop
    find_placeholder opening closing next_argument join_all level_string
runs = refl

run-new_system_example :
    ((hi ∷ line ∷ []) ++ [] ≡ (hi ∷ []) ++ lines events) × (Path (List Bytes) [] [])
unfolding find has_prefix
run-new_system_example =
    run-new_system (text "FILE") (hi ∷ []) [] started written events starts runs
