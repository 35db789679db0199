-- ===== src/Async/Logic/Waking/Sleep.antt =====
-- The worker of src/02_async/LogicSystem.cpp while it waits.
use boost_asio.Common.{
  some-injective, ◌≡◌, refl, sym, ◌∙◌, true, inl, inr, none, some, Option-cases, Bool-cases, List,
  [], ◌∷◌, arith, length, ap, ◌>>=◌,
}
use boost_asio.Wire.Host.{Host}
use boost_asio.Inbox.{LogicNode}
use boost_asio.Logic.Codec.{Libraries}
use boost_asio.Logic.Waking.{Phase, checking, going_to_wait, waiting, finished, woken}
use boost_asio.Async.Wire.{ok}
use boost_asio.Async.Session.{post_msg_to_que}
use boost_asio.Async.Session.Sending.{Outcome-cases}
use boost_asio.Async.Logic.{System, Round, waits, goes_on, returns, do_work, drain, deal_msg}
use boost_asio.Async.Logic.Waking.{
  Thread, after_round, check, wait, post, set_stop, notify_stop, Turn, checks, waits_now, sets_stop,
  notifies_stop, posts, step, run, created,
}

-- What the queue holds where the worker is about to wait, or waits
abbrev pub Left : Phase → List LogicNode → Type 0
Left checking q = Unit {0}
Left going_to_wait q = q ≡ []
Left waiting q = q ≡ []
Left finished q = Unit {0}

abbrev pub Inv : Thread → Type 0
Inv t = Left t.phase t.system.world.msg_queue

deal_msg-waits :
    (c : Libraries) (h : Host) (q : List LogicNode) (sys : System)
    → sys.world.msg_queue ≡ q
    → deal_msg c h sys ≡ ok waits
    → q ≡ []
unfolding deal_msg
deal_msg-waits c h [] sys e ran = refl
deal_msg-waits c h (node ∷ rest) sys e ran = elim (Bool-cases sys.stop) [
  | inl stopped ↦ elim (Outcome-cases (drain c h (length sys.world.msg_queue) sys)) [
    | inl (sys', handled) ↦ ground arith
    | inr (inl threw) ↦ ground arith
    | inr (inr faulted) ↦ ground arith
  ]
  | inr running ↦ elim (Outcome-cases (do_work c h sys)) [
    | inl (sys', handled) ↦ ground arith
    | inr (inl threw) ↦ ground arith
    | inr (inr faulted) ↦ ground arith
  ]
]

deal_nothing :
    (c : Libraries) (h : Host) (sys : System)
    → sys.stop ≡ true
    → sys.world.msg_queue ≡ []
    → deal_msg c h sys ≡ ok (returns sys)
unfolding deal_msg drain
deal_nothing c h sys stopped e = rw (stopped, e) refl

checked_as :
    (c : Libraries) (h : Host) (t : Thread) (r : Round)
    → t.phase ≡ checking
    → deal_msg c h t.system ≡ ok r
    → check c h t ≡ some (after_round r t)
unfolding check
checked_as c h t r e dealt = rw (e, dealt) refl

check-Inv :
    (c : Libraries) (h : Host) (p : Phase) (t t' : Thread)
    → t.phase ≡ p
    → check c h t ≡ some t'
    → Inv t'
unfolding check
check-Inv c h checking t t' e ran = elim (Outcome-cases (deal_msg c h t.system)) [
  | inl (waits, dealt) ↦
      rw (sym (some-injective (sym (checked_as c h t waits e dealt) ∙ ran)))
        (deal_msg-waits c h t.system.world.msg_queue t.system refl dealt)
  | inl (goes_on sys, dealt) ↦
      rw (sym (some-injective (sym (checked_as c h t (goes_on sys) e dealt) ∙ ran))) tt
  | inl (returns sys, dealt) ↦
      rw (sym (some-injective (sym (checked_as c h t (returns sys) e dealt) ∙ ran))) tt
  | inr (inl threw) ↦ let nothing : check c h t ≡ none = rw (e, threw) refl in absurd (cc)
  | inr (inr faulted) ↦ let nothing : check c h t ≡ none = rw (e, faulted) refl in absurd (cc)
]
check-Inv c h going_to_wait t t' e ran = ground arith
check-Inv c h waiting t t' e ran = ground arith
check-Inv c h finished t t' e ran = ground arith

step-Inv :
    (c : Libraries) (h : Host) (turn : Turn) (p : Phase) (t t' : Thread)
    → t.phase ≡ p
    → Inv t
    → step c h turn t ≡ some t'
    → Inv t'
unfolding step wait post set_stop notify_stop post_msg_to_que woken
step-Inv c h checks p t t' e v ran = check-Inv c h t.phase t t' refl ran
step-Inv c h waits_now checking t t' e v ran = ground arith
step-Inv c h waits_now going_to_wait t t' e v ran = ground arith
step-Inv c h waits_now waiting t t' e v ran = ground arith
step-Inv c h waits_now finished t t' e v ran = ground arith
step-Inv c h sets_stop checking t t' e v ran = ground arith
step-Inv c h sets_stop going_to_wait t t' e v ran = ground arith
step-Inv c h sets_stop waiting t t' e v ran = ground arith
step-Inv c h sets_stop finished t t' e v ran = ground arith
step-Inv c h notifies_stop checking t t' e v ran = ground arith
step-Inv c h notifies_stop going_to_wait t t' e v ran = ground arith
step-Inv c h notifies_stop waiting t t' e v ran = ground arith
step-Inv c h notifies_stop finished t t' e v ran = ground arith
step-Inv c h (posts node) checking t t' e v ran = ground arith
step-Inv c h (posts node) going_to_wait t t' e v ran = ground arith
step-Inv c h (posts node) waiting t t' e v ran = ground arith
step-Inv c h (posts node) finished t t' e v ran = ground arith

pub run-Inv :
    (c : Libraries) (h : Host) (turns : List Turn) (t t' : Thread)
    → Inv t
    → run c h turns t ≡ some t'
    → Inv t'
unfolding run
run-Inv c h [] t t' v ran = ground arith
run-Inv c h (turn ∷ turns) t t' v ran = elim (Option-cases (step c h turn t)) [
  | inl stuck ↦ let nothing : run c h (turn ∷ turns) t ≡ none = rw (stuck) refl in absurd (cc)
  | inr (u, stepped) ↦
      let goes_on : run c h (turn ∷ turns) t ≡ run c h turns u = rw (stepped) refl in
      run-Inv c h turns u t' (step-Inv c h turn t.phase t u refl v stepped) (sym goes_on ∙ ran)
]

-- Whatever turns the worker, the posts and the destructor have taken since the thread was created: if the
-- worker waits, its queue is empty; a post wakes it, and it is about to check with that one message in the
-- queue; and if the destructor sets the flag and notifies then, the worker finds nothing left to do and
-- finishes.
pub run-asleep :
    (c : Libraries) (h : Host) (sys : System) (turns : List Turn) (t : Thread) (node : LogicNode)
    → run c h turns (created sys) ≡ some t
    → t.phase ≡ waiting
    → (t.system.world.msg_queue ≡ [])
      × ((t' : Thread) × (run c h (posts node ∷ []) t ≡ some t')
          × (t'.phase ≡ checking)
          × (t'.system.world.msg_queue ≡ node ∷ []))
      × (run c h (sets_stop ∷ notifies_stop ∷ checks ∷ []) t
          ≡ some (record (set_stop t) { phase = finished }))
unfolding run step post post_msg_to_que set_stop notify_stop woken
run-asleep c h sys turns t node ran asleep =
    let empty : Left waiting t.system.world.msg_queue =
      rw (asleep) at (run-Inv c h turns (created sys) t tt ran) in
    let u = notify_stop (set_stop t) in
    (
      empty,
      (
        record t {
          phase = checking;
          system = record t.system { world = record t.system.world { msg_queue = node ∷ [] } };
        },
        (rw (asleep, empty) refl),
        refl,
        refl,
      ),
      ap (λ o. o >>= λ t'. some t')
          (checked_as c h u (returns u.system) (ap woken asleep)
            (deal_nothing c h u.system refl empty)),
    )
