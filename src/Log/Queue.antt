-- ===== src/Log/Queue.antt =====
-- LogQueue of src/05_ftp/include/AsyncLogSystem.h, its worker and its producers, as steps of threads
-- that take turns. `Pop` checks its condition and begins to wait while it holds the mutex, `Push`
-- holds the mutex, and `ShutDown` does not.
use mathlib.Core.List.{append_assoc, append-nil}
use boost_asio.Common.{
  ◌≡◌, refl, sym, Bool, true, false, Option, none, some, ◌>>=◌, List, [], ◌∷◌, ◌++◌, Bytes,
  if◌then◌else◌, length, ◌==◌,
}

-- What the worker is doing: it is about to check the condition of `Pop`, it has found it false and
-- is about to wait, it waits, or its last `Pop` has returned false.
pub data Phase : Type 0 where
  checking : Phase
  going_to_wait : Phase
  waiting : Phase
  finished : Phase

pub record LogQueue : Type 0 where
  pub que : List Bytes
  pub is_shut_down : Bool
  pub worker : Phase
  -- what the worker has taken and put out
  pub written : List Bytes

unfoldable pub new_queue : LogQueue
new_queue = record { que = []; is_shut_down = false; worker = checking; written = [] }

-- notify_one and notify_all, with one thread that waits
unfoldable pub woken : Phase → Phase
woken checking = checking
woken going_to_wait = going_to_wait
woken waiting = checking
woken finished = finished

-- Push. `none`: the mutex is held.
unfoldable pub push : Bytes → LogQueue → Option LogQueue
unfolding woken
push msg q =
    let added = q.que ++ msg ∷ [] in
    elim q.worker [
      | checking ↦ some (record q { que = added })
      | going_to_wait ↦ none
      | waiting ↦
          some (record q {
            que = added;
            worker = if length added == 1 then woken waiting else waiting;
          })
      | finished ↦ some (record q { que = added })
    ]

-- Pop, from a check of the condition to the end or to the wait, and the worker's use of it
unfoldable pub pop : LogQueue → Option LogQueue
pop q = elim q.worker [
  | checking ↦ elim q.que [
    | [] ↦ some (record q { worker = if q.is_shut_down then finished else going_to_wait })
    | msg ∷ rest ↦ some (record q { que = rest; written = q.written ++ msg ∷ [] })
  ]
  | going_to_wait ↦ none
  | waiting ↦ none
  | finished ↦ none
]

unfoldable pub wait : LogQueue → Option LogQueue
wait q = elim q.worker [
  | checking ↦ none
  | going_to_wait ↦ some (record q { worker = waiting })
  | waiting ↦ none
  | finished ↦ none
]

-- The two statements of ShutDown
unfoldable pub set_shut_down : LogQueue → LogQueue
set_shut_down q = record q { is_shut_down = true }

unfoldable pub notify_all : LogQueue → LogQueue
unfolding woken
notify_all q = record q { worker = woken q.worker }

pub data Turn : Type 0 where
  pushes : Bytes → Turn
  pops : Turn
  waits : Turn
  sets : Turn
  notifies : Turn

unfoldable pub step : Turn → LogQueue → Option LogQueue
unfolding push pop wait set_shut_down notify_all
step (pushes msg) q = push msg q
step pops q = pop q
step waits q = wait q
step sets q = some (set_shut_down q)
step notifies q = some (notify_all q)

unfoldable pub run : List Turn → LogQueue → Option LogQueue
unfolding step
run [] q = some q
run (t ∷ ts) q = do q' ← step t q; run ts q'

-- as many turns of the worker as there are messages, and one more
abbrev pub pop_all : List Bytes → List Turn
pop_all [] = pops ∷ []
pop_all (msg ∷ left) = pops ∷ pop_all left

run-pop_all :
    (left written : List Bytes)
    → run
        (pop_all left)
        (record { que = left; is_shut_down = true; worker = checking; written = written })
      ≡ some
          (record { que = []; is_shut_down = true; worker = finished; written = written ++ left })
unfolding run step pop
run-pop_all [] written = rw (append-nil written) refl
run-pop_all (msg ∷ left) written =
    rw (sym (append_assoc written (msg ∷ []) left)) (run-pop_all left (written ++ msg ∷ []))

-- When the worker is about to check an empty queue, whatever it has put out before, and ShutDown
-- comes between its check and its wait, it waits, what ShutDown does is over, and none of the worker's
-- own steps can be taken until something is pushed.
pub shut_down-hangs :
    (written : List Bytes)
    → (q : LogQueue) × (run
          (pops ∷ sets ∷ notifies ∷ waits ∷ [])
          (record { que = []; is_shut_down = false; worker = checking; written = written })
        ≡ some q)
      × (q.is_shut_down ≡ true)
      × (pop q ≡ none)
      × (wait q ≡ none)
unfolding run step pop wait set_shut_down notify_all woken
shut_down-hangs written = (
  record { que = []; is_shut_down = true; worker = waiting; written = written },
  refl,
  refl,
  refl,
  refl,
)

-- When ShutDown comes before the check instead, the worker puts out what is left and finishes.
pub shut_down-finishes :
    (left written : List Bytes)
    → run
        (sets ∷ notifies ∷ pop_all left)
        (record { que = left; is_shut_down = false; worker = checking; written = written })
      ≡ some
          (record { que = []; is_shut_down = true; worker = finished; written = written ++ left })
unfolding run step set_shut_down notify_all woken
shut_down-finishes left written = run-pop_all left written
