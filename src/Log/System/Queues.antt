-- ===== src/Log/System/Queues.antt =====
-- What `Push`, `Pop` and the wait of src/05_ftp/include/AsyncLogSystem.h do to the messages of the queue.
use boost_asio.Common.{◌≡◌, some, List, [], ◌∷◌, ◌++◌, Bytes, arith}
use boost_asio.Log.Queue.{
  LogQueue, Phase, checking, going_to_wait, waiting, finished, push, pop, wait,
}

pub push-que :
    (p : Phase) (msg : Bytes) (q q' : LogQueue)
    → q.worker ≡ p
    → push msg q ≡ some q'
    → q'.que ≡ q.que ++ msg ∷ []
unfolding push
push-que checking msg q q' e ran = ground arith
push-que going_to_wait msg q q' e ran = ground arith
push-que waiting msg q q' e ran = ground arith
push-que finished msg q q' e ran = ground arith

pub pop-que :
    (p : Phase) (q q' : LogQueue) (m : Bytes) (rest : List Bytes)
    → q.worker ≡ p
    → q.que ≡ m ∷ rest
    → pop q ≡ some q'
    → q'.que ≡ rest
unfolding pop
pop-que checking q q' m rest e at ran = ground arith
pop-que going_to_wait q q' m rest e at ran = ground arith
pop-que waiting q q' m rest e at ran = ground arith
pop-que finished q q' m rest e at ran = ground arith

pub pop-que_empty :
    (p : Phase) (q q' : LogQueue) → q.worker ≡ p → q.que ≡ [] → pop q ≡ some q' → q'.que ≡ q.que
unfolding pop
pop-que_empty checking q q' e at ran = ground arith
pop-que_empty going_to_wait q q' e at ran = ground arith
pop-que_empty waiting q q' e at ran = ground arith
pop-que_empty finished q q' e at ran = ground arith

pub wait-que : (p : Phase) (q q' : LogQueue) → q.worker ≡ p → wait q ≡ some q' → q'.que ≡ q.que
unfolding wait
wait-que checking q q' e ran = ground arith
wait-que going_to_wait q q' e ran = ground arith
wait-que waiting q q' e ran = ground arith
wait-que finished q q' e ran = ground arith
