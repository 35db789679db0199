-- ===== src/Logic/Waking/Steps.antt =====
-- One turn of the worker's thread of src/05_ftp/LogicSystem.cpp, and what is handled in it.
use mathlib.Core.List.{append-nil}
use boost_asio.Common.{
  some-injective, ℕ, zero, suc, ◌≡◌, refl, sym, ap, ◌∙◌, inl, inr, none, some, Option-cases,
  Bool-cases, List, [], ◌∷◌, ◌++◌, length, leb, take, drop, arith,
}
use boost_asio.Map.{nat_eq}
use boost_asio.Wire.Const.{max_recv_queue_len}
use boost_asio.Wire.Host.{Host}
use boost_asio.Inbox.{Inbox, LogicNode, post_msg_to_que}
use boost_asio.Logic.Codec.{Libraries}
use boost_asio.Logic.Worker.{with_queue}
use boost_asio.Logic.{Round, waits, goes_on, returns, deal_msg}
use boost_asio.Logic.Waking.{
  Phase, checking, going_to_wait, waiting, finished, Thread, check, wait, post, notify, set_stop,
  notify_stop, Turn, checks, waits_now, notifies, sets_stop, notifies_stop, posts, step,
}
use boost_asio.Logic.Waking.Sleep.{checked_as}
use boost_asio.Logic.Waking.Rounds.{with_inbox, deal_msg-goes_on, deal_msg-returns}
use boost_asio.Logic.Waking.Trace.{Handles, accepted, handled_by, handled, quiet}

whole : (q : List LogicNode) → q ++ [] ≡ take 1 q ++ drop 1 q
whole [] = refl
whole (node ∷ q) = append-nil (node ∷ q)

check-Handles :
    (c : Libraries) (h : Host) (p : Phase) (t u : Thread)
    → t.phase ≡ p
    → check c h t ≡ some u
    → Handles c h t u [] (handled c h checks t)
unfolding check handled with_inbox with_queue
check-Handles c h checking t u e ran =
    let took : (r : Round)
        → deal_msg c h t.system ≡ some r
        → handled c h checks t ≡ handled_by (some r) t.system.world.inbox.msg_queue =
      λ r. ap (λ o. handled_by o t.system.world.inbox.msg_queue) in
    elim (Option-cases (deal_msg c h t.system)) [
      | inl ended ↦ let nothing : check c h t ≡ none = rw (e, ended) refl in absurd (cc)
      | inr (waits, dealt) ↦
          rw (took waits dealt, sym (some-injective (sym (checked_as c h t waits e dealt) ∙ ran)))
            (quiet c h t (record t { phase = going_to_wait }) [] (append-nil _) refl)
      | inr (goes_on sys, dealt) ↦
          let (s, done, after) = deal_msg-goes_on c h t.system sys dealt in
          rw
            (
              took (goes_on sys) dealt,
              sym (some-injective (sym (checked_as c h t (goes_on sys) e dealt) ∙ ran)),
              after,
            )
            (record {
              in_order = whole t.system.world.inbox.msg_queue;
              after = s;
              ran = done;
              same = refl;
            })
      | inr (returns sys, dealt) ↦
          let (s, done, after) = deal_msg-returns c h t.system sys dealt in
          rw
            (
              took (returns sys) dealt,
              sym (some-injective (sym (checked_as c h t (returns sys) e dealt) ∙ ran)),
              after,
            )
            (record { in_order = refl; after = s; ran = done; same = refl })
    ]
check-Handles c h going_to_wait t u e ran = ground arith
check-Handles c h waiting t u e ran = ground arith
check-Handles c h finished t u e ran = ground arith

-- The system with the inbox that a turn leaves
settled :
    (c : Libraries) (h : Host) (i : Inbox) (t u : Thread) (xs : List LogicNode)
    → u.system ≡ with_inbox i t.system
    → t.system.world.inbox.msg_queue ++ xs ≡ i.msg_queue
    → Handles c h t u xs []
unfolding with_inbox
settled c h i t u xs e queue =
    quiet c h t u xs (queue ∙ ap (λ s. s.world.inbox.msg_queue) (sym e))
      (e ∙ ap (λ s. with_inbox s.world.inbox t.system) (sym e))

post-system :
    (node : LogicNode) (p : Phase) (t u : Thread)
    → t.phase ≡ p
    → post node t ≡ some u
    → u.system ≡ with_inbox (post_msg_to_que node t.system.world.inbox) t.system
unfolding post with_inbox
post-system node checking t u e ran = ground arith
post-system node going_to_wait t u e ran = ground arith
post-system node waiting t u e ran = ground arith
post-system node finished t u e ran = ground arith

post-queue :
    (node : LogicNode) (t : Thread)
    → t.system.world.inbox.msg_queue ++ accepted (posts node) t
      ≡ (post_msg_to_que node t.system.world.inbox).msg_queue
unfolding accepted post_msg_to_que
post-queue node t =
    elim (Bool-cases (leb max_recv_queue_len (length t.system.world.inbox.msg_queue))) [
      | inl full ↦ rw full (append-nil t.system.world.inbox.msg_queue)
      | inr room ↦ rw room refl
    ]

wait-system : (p : Phase) (t u : Thread) → t.phase ≡ p → wait t ≡ some u → u.system ≡ t.system
unfolding wait
wait-system checking t u e ran = ground arith
wait-system going_to_wait t u e ran = ground arith
wait-system waiting t u e ran = ground arith
wait-system finished t u e ran = ground arith

notify-system : (n : ℕ) (t u : Thread) → t.due ≡ n → notify t ≡ some u → u.system ≡ t.system
unfolding notify
notify-system zero t u e ran = ground arith
notify-system (suc n) t u e ran = ground arith

pub step-Handles :
    (c : Libraries) (h : Host) (turn : Turn) (t u : Thread)
    → step c h turn t ≡ some u
    → Handles c h t u (accepted turn t) (handled c h turn t)
unfolding step accepted handled with_inbox set_stop notify_stop
step-Handles c h checks t u ran = check-Handles c h t.phase t u refl ran
step-Handles c h waits_now t u ran =
    settled c h t.system.world.inbox t u [] (wait-system t.phase t u refl ran) (append-nil _)
step-Handles c h (posts node) t u ran =
    settled c h (post_msg_to_que node t.system.world.inbox) t u (accepted (posts node) t)
      (post-system node t.phase t u refl ran) (post-queue node t)
step-Handles c h notifies t u ran =
    settled c h t.system.world.inbox t u [] (notify-system t.due t u refl ran) (append-nil _)
step-Handles c h sets_stop t u ran =
    rw (sym (some-injective ran)) (quiet c h t (set_stop t) [] (append-nil _) refl)
step-Handles c h notifies_stop t u ran =
    rw (sym (some-injective ran)) (quiet c h t (notify_stop t) [] (append-nil _) refl)
