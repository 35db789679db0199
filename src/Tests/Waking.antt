-- ===== src/Tests/Waking.antt =====
-- The thread of the worker of src/05_ftp/LogicSystem.cpp, a post and the destructor.
use boost_asio.Common.{◌≡◌, refl, true, false, some, List, [], ◌∷◌}
use boost_asio.Map.{find, assign, nat_eq}
use boost_asio.Wire.Machines.{little_endian}
use boost_asio.Inbox.{LogicNode, post_msg_to_que}
use boost_asio.Reader.{deref}
use boost_asio.Logic.{System, register_callbacks, dispatch, do_work, deal_msg}
use boost_asio.Logic.Waking.{
  going_to_wait, waiting, checking, finished, Thread, Turn, checks, waits_now, posts, sets_stop,
  notifies_stop, check, wait, post, notify, set_stop, step, run, created,
}
use boost_asio.Logic.Waking.Sleep.{run-woken}
use boost_asio.Logic.Waking.Trace.{Handles, accepted, handled, along}
use boost_asio.Logic.Waking.Order.{run-Handles}
use boost_asio.Logic.Waking.Shutdown.{shutdown-finishes}
use boost_asio.Tests.Machine.{empty_world, hi}
use boost_asio.Tests.Toy.{toy}

abbrev idle : System
idle = record { world = empty_world; objects = []; files = []; static_path = [] }

abbrev node : LogicNode
node = record { session = 7; recv_node = 0 }

abbrev asleep : Thread
asleep = record { phase = waiting; due = 0; system = idle }

falls_asleep :
    run (toy (λ p. true)) little_endian (checks ∷ waits_now ∷ []) (created idle) ≡ some asleep
unfolding run step check wait deal_msg
falls_asleep = refl

abbrev posted : Thread
posted = record {
  phase = waiting;
  due = 1;
  system = record idle {
    world = record empty_world { inbox = record { msg_queue = node ∷ []; stop = false } };
  };
}

gets_message :
    run (toy (λ p. true)) little_endian (checks ∷ waits_now ∷ posts node ∷ []) (created idle)
    ≡ some posted
unfolding run step check wait post deal_msg post_msg_to_que
gets_message = refl

run-woken_example :
    (t' : Thread) × (notify posted ≡ some t') × (t'.phase ≡ checking) × (t'.system ≡ posted.system)
run-woken_example =
    run-woken (toy (λ p. true)) little_endian idle (checks ∷ waits_now ∷ posts node ∷ []) posted
      node [] gets_message refl refl

abbrev between : Thread
between = record { phase = going_to_wait; due = 0; system = idle }

shutdown-finishes_example :
    run (toy (λ p. true)) little_endian (sets_stop ∷ notifies_stop ∷ checks ∷ []) asleep
    ≡ some (record (set_stop asleep) { phase = finished })
shutdown-finishes_example =
    shutdown-finishes (toy (λ p. true)) little_endian idle (checks ∷ waits_now ∷ []) asleep
      falls_asleep refl refl

-- A message whose id has no callback
abbrev busy : System
busy = record idle {
  world = record empty_world {
    nodes = record { cur_len = 0; total_len = 2; chars = hi; msg_id = 1 } ∷ [];
    inbox = record { msg_queue = node ∷ []; stop = false };
  };
}

abbrev turns : List Turn
turns = checks ∷ posts node ∷ checks ∷ checks ∷ waits_now ∷ []

abbrev idle_again : Thread
idle_again = record {
  phase = waiting;
  due = 1;
  system = record busy {
    world = record busy.world { inbox = record { msg_queue = []; stop = false } };
  };
}

both_handled : run (toy (λ p. true)) little_endian turns (created busy) ≡ some idle_again
unfolding run step check wait post deal_msg post_msg_to_que do_work dispatch deref
    register_callbacks find assign
both_handled = refl

run-Handles_example :
    Handles
      (toy (λ p. true))
      little_endian
      (created busy)
      idle_again
      (along (toy (λ p. true)) little_endian accepted turns (created busy))
      (along
        (toy (λ p. true))
        little_endian
        (handled (toy (λ p. true)) little_endian)
        turns
        (created busy))
run-Handles_example =
    run-Handles (toy (λ p. true)) little_endian turns (created busy) idle_again both_handled
