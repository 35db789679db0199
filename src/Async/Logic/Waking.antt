-- ===== src/Async/Logic/Waking.antt =====
-- The thread of the worker in src/02_async/LogicSystem.cpp, the threads that post, and the destructor, as
-- turns that they take. Other than in src/05_ftp, `PostMsgToQue` notifies before it lets go of the
-- mutex, so that it is one turn. The worker holds the mutex from its check of the condition until it
-- waits, or through a round; the destructor holds it nowhere. A wait that ends with no notification is
-- left out.
pub mod Sleep
use boost_asio.Common.{
  Bool, true, Option, none, some, ◌>>=◌, List, [], ◌∷◌, if◌then◌else◌, leb, length,
}
use boost_asio.Wire.Host.{Host}
use boost_asio.Inbox.{LogicNode}
use boost_asio.Logic.Codec.{Libraries}
use boost_asio.Logic.Waking.{Phase, checking, going_to_wait, waiting, finished, woken}
use boost_asio.Async.Wire.{Outcome, ok, throws, fault, max_recv_queue_len}
use boost_asio.Async.Session.{post_msg_to_que}
use boost_asio.Async.Logic.{System, Round, waits, goes_on, returns, deal_msg}

pub record Thread : Type 0 where
  pub phase : Phase
  pub system : System

abbrev pub after_round : Round → Thread → Thread
after_round waits t = record t { phase = going_to_wait }
after_round (goes_on sys) t = record t { phase = checking; system = sys }
after_round (returns sys) t = record t { phase = finished; system = sys }

-- `none`: what the round does ends the program.
abbrev pub round_of : Outcome Round → Thread → Option Thread
round_of (ok r) t = some (after_round r t)
round_of throws t = none
round_of fault t = none

-- `none`: the thread is somewhere else, or the program ends.
unfoldable pub check : Libraries → Host → Thread → Option Thread
unfolding deal_msg
check c h t = elim t.phase [
  | checking ↦ round_of (deal_msg c h t.system) t
  | going_to_wait ↦ none
  | waiting ↦ none
  | finished ↦ none
]

unfoldable pub wait : Thread → Option Thread
wait t = elim t.phase [
  | checking ↦ none
  | going_to_wait ↦ some (record t { phase = waiting })
  | waiting ↦ none
  | finished ↦ none
]

-- PostMsgToQue, which notifies when it has pushed. `none`: the mutex is held.
unfoldable pub post : LogicNode → Thread → Option Thread
unfolding post_msg_to_que woken
post node t =
    let w = t.system.world in
    let posted : Thread = record t {
      phase = if leb max_recv_queue_len (length w.msg_queue) then t.phase else woken t.phase;
      system = record t.system { world = post_msg_to_que node w };
    } in
    elim t.phase [
      | checking ↦ some posted
      | going_to_wait ↦ none
      | waiting ↦ some posted
      | finished ↦ some posted
    ]

-- LogicSystem::~LogicSystem, up to its `join`
unfoldable pub set_stop : Thread → Thread
set_stop t = record t { system = record t.system { stop = true } }

unfoldable pub notify_stop : Thread → Thread
unfolding woken
notify_stop t = record t { phase = woken t.phase }

pub data Turn : Type 0 where
  checks waits_now sets_stop notifies_stop : Turn
  posts : LogicNode → Turn

module _ (c : Libraries) (h : Host) where
  unfoldable pub step : Turn → Thread → Option Thread
  unfolding check wait post set_stop notify_stop
  step checks t = check c h t
  step waits_now t = wait t
  step (posts node) t = post node t
  step sets_stop t = some (set_stop t)
  step notifies_stop t = some (notify_stop t)

  unfoldable pub run : List Turn → Thread → Option Thread
  unfolding step
  run [] t = some t
  run (turn ∷ turns) t = do t' ← step turn t; run turns t'

-- The thread when it is created
abbrev pub created : System → Thread
created sys = record { phase = checking; system = sys }
