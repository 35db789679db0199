-- ===== src/Logic/Waking/Order.antt =====
-- What the worker of src/05_ftp/LogicSystem.cpp handles, while other threads post and the destructor comes.
use mathlib.Core.Option
use mathlib.Core.List.{append_assoc, append-nil}
use boost_asio.Common.{
  some-injective, ◌≡◌, refl, sym, ap, ◌∙◌, inl, inr, Option, none, some, Option-cases, List, [],
  ◌∷◌, ◌++◌, arith,
}
use boost_asio.Map.{nat_eq}
use boost_asio.Wire.Host.{Host}
use boost_asio.Inbox.{LogicNode}
use boost_asio.Logic.Codec.{Libraries}
use boost_asio.Logic.Worker.{handle_all}
use boost_asio.Logic.{waits, goes_on, returns, deal_msg}
use boost_asio.Logic.Waking.{
  Phase, checking, going_to_wait, waiting, finished, Thread, check, Turn, checks, step, run,
}
use boost_asio.Logic.Waking.Sleep.{checked_as}
use boost_asio.Logic.Waking.Rounds.{with_inbox, handle_all-with_inbox, handle_all-append}
use boost_asio.Logic.Waking.Trace.{Handles, accepted, handled_by, handled, along, quiet}
use boost_asio.Logic.Waking.Steps.{step-Handles}

Option_map-eq-some :
    {A B : Type 0} (f : A → B) (o : Option A) {b : B}
    → Option.map f o ≡ some b
    → (a : A) × (o ≡ some a) × (f a ≡ b)
Option_map-eq-some f none e = absurd (cc)
Option_map-eq-some f (some a) e = (a, refl, some-injective e)

Handles-then :
    (c : Libraries) (h : Host) (t u v : Thread) (xs ys xs' ys' : List LogicNode)
    → Handles c h t u xs ys
    → Handles c h u v xs' ys'
    → Handles c h t v (xs ++ xs') (ys ++ ys')
unfolding with_inbox
Handles-then c h t u v xs ys xs' ys' first second =
    let moved : handle_all c h ys' (with_inbox u.system.world.inbox first.after)
        ≡ some second.after =
      ap (handle_all c h ys') (sym first.same) ∙ second.ran in
    let (s, ran, same) =
      Option_map-eq-some (with_inbox u.system.world.inbox) (handle_all c h ys' first.after)
        (sym (handle_all-with_inbox c h u.system.world.inbox ys' first.after) ∙ moved) in
    record {
      in_order =
          sym (append_assoc t.system.world.inbox.msg_queue xs xs')
          ∙ ap (λ q. q ++ xs') first.in_order
          ∙ append_assoc ys u.system.world.inbox.msg_queue xs'
          ∙ ap (λ q. ys ++ q) second.in_order
          ∙ sym (append_assoc ys ys' v.system.world.inbox.msg_queue);
      after = s;
      ran = handle_all-append c h ys ys' t.system ∙ rw (first.ran) ran;
      same = second.same ∙ ap (with_inbox v.system.world.inbox) (sym same);
    }

-- Whatever turns the worker, the posts and the destructor take: the messages that were queued and those that
-- posts have put into the queue are, in this order, the ones that have been handled and then the ones that
-- are queued; and but for the queue and the flag, the system is as the handling of those messages, one
-- after the other, has left it.
pub run-Handles :
    (c : Libraries) (h : Host) (turns : List Turn) (t u : Thread)
    → run c h turns t ≡ some u
    → Handles c h t u (along c h accepted turns t) (along c h (handled c h) turns t)
unfolding run along with_inbox
run-Handles c h [] t u ran = rw (sym (some-injective ran)) (quiet c h t t [] (append-nil _) refl)
run-Handles c h (turn ∷ turns) t u ran = elim (Option-cases (step c h turn t)) [
  | inl stuck ↦ let nothing : run c h (turn ∷ turns) t ≡ none = rw (stuck) refl in absurd (cc)
  | inr (v, stepped) ↦
      let goes_on : run c h (turn ∷ turns) t ≡ run c h turns v = rw (stepped) refl in
      rw (stepped) (
        Handles-then c h t v u (accepted turn t) (handled c h turn t) (along c h accepted turns v)
          (along c h (handled c h) turns v) (step-Handles c h turn t v stepped)
          (run-Handles c h turns v u (sym goes_on ∙ ran)))
]

finished-handled :
    (c : Libraries) (h : Host) (p : Phase) (t u : Thread)
    → t.phase ≡ p
    → check c h t ≡ some u
    → u.phase ≡ finished
    → handled c h checks t ≡ t.system.world.inbox.msg_queue
unfolding check handled
finished-handled c h checking t u e ran ends = elim (Option-cases (deal_msg c h t.system)) [
  | inl ended ↦ let nothing : check c h t ≡ none = rw (e, ended) refl in absurd (cc)
  | inr (waits, dealt) ↦
      let at : going_to_wait ≡ finished =
        ap (λ t. t.phase) (some-injective (sym (checked_as c h t waits e dealt) ∙ ran)) ∙ ends in
      absurd (cc)
  | inr (goes_on sys, dealt) ↦
      let at : checking ≡ finished =
        ap (λ t. t.phase) (some-injective (sym (checked_as c h t (goes_on sys) e dealt) ∙ ran))
        ∙ ends in
      absurd (cc)
  | inr (returns sys, dealt) ↦ ap (λ o. handled_by o t.system.world.inbox.msg_queue) dealt
]
finished-handled c h going_to_wait t u e ran ends = ground arith
finished-handled c h waiting t u e ran ends = ground arith
finished-handled c h finished t u e ran ends = ground arith

-- Whatever turns came before the round with which the worker finishes: with that round, the messages that were
-- queued at first and all that posts have put into the queue by then have been handled, each once and in
-- this order.
pub run-finished :
    (c : Libraries) (h : Host) (turns : List Turn) (t u v : Thread)
    → run c h turns t ≡ some u
    → check c h u ≡ some v
    → v.phase ≡ finished
    → t.system.world.inbox.msg_queue ++ along c h accepted turns t
      ≡ along c h (handled c h) turns t ++ handled c h checks u
run-finished c h turns t u v ran checked ends =
    let done = run-Handles c h turns t u ran in
    done.in_order
    ∙ ap (λ q. along c h (handled c h) turns t ++ q)
        (sym (finished-handled c h u.phase u v refl checked ends))
