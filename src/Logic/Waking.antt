-- ===== src/Logic/Waking.antt =====
-- The thread of the worker in src/05_ftp/LogicSystem.cpp, the threads that post, and the destructor, as
-- turns that they take. The worker holds the mutex from its check of the condition until it waits, or
-- through a round; `PostMsgToQue` holds it while it pushes, and notifies afterwards; the destructor
-- holds it nowhere. A wait that ends with no notification is left out.
pub mod Sleep
pub mod Rounds
pub mod Trace
pub mod Steps
pub mod Order
pub mod Shutdown
use boost_asio.Common.{
  ℕ, zero, suc, Bool, true, false, Option, none, some, ◌>>=◌, List, [], ◌∷◌, if◌then◌else◌, leb,
  length,
}
use boost_asio.Wire.Const.{max_recv_queue_len}
use boost_asio.Wire.Host.{Host}
use boost_asio.Inbox.{LogicNode, post_msg_to_que}
use boost_asio.Logic.Codec.{Libraries}
use boost_asio.Logic.{System, Round, waits, goes_on, returns, deal_msg}

-- Where the worker is: about to check the condition, about to wait as it has found it false, waiting, or
-- at the end of DealMsg.
pub data Phase : Type 0 where
  checking going_to_wait waiting finished : Phase

pub record Thread : Type 0 where
  pub phase : Phase
  -- the posts that have pushed and are about to notify
  pub due : ℕ
  pub system : System

-- `notify_one`, with one thread that may wait
unfoldable pub woken : Phase → Phase
woken checking = checking
woken going_to_wait = going_to_wait
woken waiting = checking
woken finished = finished

abbrev pub after_round : Round → Thread → Thread
after_round waits t = record t { phase = going_to_wait }
after_round (goes_on sys) t = record t { phase = checking; system = sys }
after_round (returns sys) t = record t { phase = finished; system = sys }

-- `none`: the thread is somewhere else, or what it does ends the program.
module _ (c : Libraries) (h : Host) where
  unfoldable pub check : Thread → Option Thread
  unfolding deal_msg
  check t = elim t.phase [
    | checking ↦ do r ← deal_msg c h t.system; some (after_round r t)
    | going_to_wait ↦ none
    | waiting ↦ none
    | finished ↦ none
  ]

unfoldable pub wait : Thread → Option Thread
wait t = elim t.phase [
  | checking ↦ none
  | going_to_wait ↦ some (record t { phase = waiting })
  | waiting ↦ none
  | finished ↦ none
]

-- The first part of PostMsgToQue. `none`: the mutex is held.
unfoldable pub post : LogicNode → Thread → Option Thread
unfolding post_msg_to_que
post node t =
    let inbox = t.system.world.inbox in
    let posted : Thread = record t {
      due = if leb max_recv_queue_len (length inbox.msg_queue) then t.due else suc t.due;
      system = record t.system {
        world = record t.system.world { inbox = post_msg_to_que node inbox };
      };
    } in
    elim t.phase [
      | checking ↦ some posted
      | going_to_wait ↦ none
      | waiting ↦ some posted
      | finished ↦ some posted
    ]

-- Its second part
unfoldable pub notify : Thread → Option Thread
unfolding woken
notify t = elim t.due [ zero ↦ none | suc n ↦ some (record t { phase = woken t.phase; due = n }) ]

-- LogicSystem::~LogicSystem, up to its `join`
unfoldable pub set_stop : Thread → Thread
set_stop t = record t {
  system = record t.system {
    world = record t.system.world { inbox = record t.system.world.inbox { stop = true } };
  };
}

unfoldable pub notify_stop : Thread → Thread
unfolding woken
notify_stop t = record t { phase = woken t.phase }

pub data Turn : Type 0 where
  checks waits_now notifies sets_stop notifies_stop : Turn
  posts : LogicNode → Turn

module _ (c : Libraries) (h : Host) where
  unfoldable pub step : Turn → Thread → Option Thread
  unfolding check wait post notify set_stop notify_stop
  step checks t = check c h t
  step waits_now t = wait t
  step (posts node) t = post node t
  step notifies t = notify t
  step sets_stop t = some (set_stop t)
  step notifies_stop t = some (notify_stop t)

  unfoldable pub run : List Turn → Thread → Option Thread
  unfolding step
  run [] t = some t
  run (turn ∷ turns) t = do t' ← step turn t; run turns t'

-- The thread when it is created
abbrev pub created : System → Thread
created sys = record { phase = checking; due = 0; system = sys }
