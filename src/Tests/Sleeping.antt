-- ===== src/Tests/Sleeping.antt =====
-- The worker of src/02_async that waits.
use boost_asio.Common.{◌≡◌, refl, true, false, some, [], ◌∷◌}
use boost_asio.Wire.Machines.{little_endian}
use boost_asio.Inbox.{LogicNode}
use boost_asio.Logic.Waking.{waiting, checking, finished}
use boost_asio.Async.Logic.{System, deal_msg}
use boost_asio.Async.Logic.Waking.{
  Thread, check, wait, checks, waits_now, posts, sets_stop, notifies_stop, set_stop, step, run,
  created,
}
use boost_asio.Async.Logic.Waking.Sleep.{run-asleep}
use boost_asio.Tests.Toy.{toy}
use boost_asio.Tests.Earlier.{world}

abbrev idle : System
idle = record { world = world; objects = []; stop = false }

abbrev asleep : Thread
asleep = record { phase = waiting; system = idle }

abbrev node : LogicNode
node = record { session = 7; recv_node = 0 }

falls_asleep :
    run (toy (λ p. true)) little_endian (checks ∷ waits_now ∷ []) (created idle) ≡ some asleep
unfolding run step check wait deal_msg
falls_asleep = refl

run-asleep_example :
    (asleep.system.world.msg_queue ≡ [])
    × ((t' : Thread) × (run (toy (λ p. true)) little_endian (posts node ∷ []) asleep ≡ some t')
        × (t'.phase ≡ checking)
        × (t'.system.world.msg_queue ≡ node ∷ []))
    × (run (toy (λ p. true)) little_endian (sets_stop ∷ notifies_stop ∷ checks ∷ []) asleep
        ≡ some (record (set_stop asleep) { phase = finished }))
run-asleep_example =
    run-asleep (toy (λ p. true)) little_endian idle (checks ∷ waits_now ∷ []) asleep node
      falls_asleep refl
