-- ===== src/Logic/Waking/Sleep.antt =====
-- No message is left in the queue of the worker of src/05_ftp/LogicSystem.cpp while it sleeps.
use boost_asio.Common.{
  some-injective, ℕ, zero, suc, ◌<◌, ◌≡◌, refl, sym, ◌∙◌, ◌⊎◌, inl, inr, none, some, Option-cases,
  Bool-cases, List, [], ◌∷◌, arith,
}
use boost_asio.Wire.Host.{Host}
use boost_asio.Inbox.{LogicNode, post_msg_to_que}
use boost_asio.Logic.Codec.{Libraries}
use boost_asio.Logic.Worker.{with_queue, handle_all, one_round, deal_msg-stopped, deal_msg-running}
use boost_asio.Reader.{deref}
use boost_asio.Logic.{dispatch, System, Round, waits, goes_on, returns, deal_msg}
use boost_asio.Logic.Waking.{
  Phase, checking, going_to_wait, waiting, finished, Thread, woken, after_round, check, wait, post,
  notify, set_stop, notify_stop, Turn, checks, waits_now, notifies, sets_stop, notifies_stop, posts,
  step, run, created,
}

-- What a worker that sleeps leaves in the queue
abbrev pub Left : Phase → List LogicNode → ℕ → Type 0
Left checking q due = Unit {0}
Left going_to_wait q due = q ≡ []
Left waiting q due = (q ≡ []) ⊎ (0 < due)
Left finished q due = Unit {0}

abbrev pub Inv : Thread → Type 0
Inv t = Left t.phase t.system.world.inbox.msg_queue t.due

queue_of_waits :
    (c : Libraries) (h : Host) (q : List LogicNode) (sys : System)
    → one_round c h q sys ≡ some waits
    → q ≡ []
unfolding one_round
queue_of_waits c h [] sys ran = refl
queue_of_waits c h (node ∷ rest) sys ran =
    elim (Option-cases (deref (some node.recv_node) sys.world)) [
      | inl dangling ↦
          let nothing : one_round c h (node ∷ rest) sys ≡ none = rw (dangling) refl in absurd (cc)
      | inr ((a, n), there) ↦ elim (Option-cases (dispatch c h node.session n sys)) [
        | inl threw ↦
            let nothing : one_round c h (node ∷ rest) sys ≡ none = rw (there, threw) refl in
            absurd (cc)
        | inr (sys', handled) ↦
            let goes : one_round c h (node ∷ rest) sys ≡ some (goes_on (with_queue rest sys')) =
              rw (there, handled) refl in
            absurd (cc)
      ]
    ]

deal_msg-waits :
    (c : Libraries) (h : Host) (sys : System)
    → deal_msg c h sys ≡ some waits
    → sys.world.inbox.msg_queue ≡ []
deal_msg-waits c h sys ran = elim (Bool-cases sys.world.inbox.stop) [
  | inl stopped ↦ elim (Option-cases (handle_all c h sys.world.inbox.msg_queue sys)) [
    | inl threw ↦
        let nothing : deal_msg c h sys ≡ none =
          deal_msg-stopped c h sys stopped ∙ rw (threw) refl in
        absurd (cc)
    | inr (sys', handled) ↦
        let ends : deal_msg c h sys ≡ some (returns (with_queue [] sys')) =
          deal_msg-stopped c h sys stopped ∙ rw (handled) refl in
        absurd (cc)
  ]
  | inr running ↦
      queue_of_waits c h sys.world.inbox.msg_queue sys
        (sym (deal_msg-running c h sys running) ∙ ran)
]

pub checked_as :
    (c : Libraries) (h : Host) (t : Thread) (r : Round)
    → t.phase ≡ checking
    → deal_msg c h t.system ≡ some r
    → check c h t ≡ some (after_round r t)
unfolding check
checked_as c h t r e dealt = rw (e, dealt) refl

check-Inv :
    (c : Libraries) (h : Host) (p : Phase) (t t' : Thread)
    → t.phase ≡ p
    → check c h t ≡ some t'
    → Inv t'
unfolding check
check-Inv c h checking t t' e ran = elim (Option-cases (deal_msg c h t.system)) [
  | inl ended ↦ let nothing : check c h t ≡ none = rw (e, ended) refl in absurd (cc)
  | inr (waits, dealt) ↦
      rw (sym (some-injective (sym (checked_as c h t waits e dealt) ∙ ran)))
        (deal_msg-waits c h t.system dealt)
  | inr (goes_on sys, dealt) ↦
      rw (sym (some-injective (sym (checked_as c h t (goes_on sys) e dealt) ∙ ran))) tt
  | inr (returns sys, dealt) ↦
      rw (sym (some-injective (sym (checked_as c h t (returns sys) e dealt) ∙ ran))) tt
]
check-Inv c h going_to_wait t t' e ran = ground arith
check-Inv c h waiting t t' e ran = ground arith
check-Inv c h finished t t' e ran = ground arith

step-Inv :
    (c : Libraries) (h : Host) (turn : Turn) (p : Phase) (t t' : Thread)
    → t.phase ≡ p
    → Inv t
    → step c h turn t ≡ some t'
    → Inv t'
unfolding step wait post notify set_stop notify_stop post_msg_to_que woken
step-Inv c h checks p t t' e v ran = check-Inv c h t.phase t t' refl ran
step-Inv c h waits_now checking t t' e v ran = ground arith
step-Inv c h waits_now going_to_wait t t' e v ran = ground arith
step-Inv c h waits_now waiting t t' e v ran = ground arith
step-Inv c h waits_now finished t t' e v ran = ground arith
step-Inv c h notifies checking t t' e v ran = ground arith
step-Inv c h notifies going_to_wait t t' e v ran = ground arith
step-Inv c h notifies waiting t t' e v ran = ground arith
step-Inv c h notifies finished t t' e v ran = ground arith
step-Inv c h sets_stop checking t t' e v ran = ground arith
step-Inv c h sets_stop going_to_wait t t' e v ran = ground arith
step-Inv c h sets_stop waiting t t' e v ran = ground arith
step-Inv c h sets_stop finished t t' e v ran = ground arith
step-Inv c h notifies_stop checking t t' e v ran = ground arith
step-Inv c h notifies_stop going_to_wait t t' e v ran = ground arith
step-Inv c h notifies_stop waiting t t' e v ran = ground arith
step-Inv c h notifies_stop finished t t' e v ran = ground arith
step-Inv c h (posts node) checking t t' e v ran = ground arith
step-Inv c h (posts node) going_to_wait t t' e v ran = ground arith
step-Inv c h (posts node) waiting t t' e v ran = ground arith
step-Inv c h (posts node) finished t t' e v ran = ground arith

pub run-Inv :
    (c : Libraries) (h : Host) (turns : List Turn) (t t' : Thread)
    → Inv t
    → run c h turns t ≡ some t'
    → Inv t'
unfolding run
run-Inv c h [] t t' v ran = ground arith
run-Inv c h (turn ∷ turns) t t' v ran = elim (Option-cases (step c h turn t)) [
  | inl stuck ↦ let nothing : run c h (turn ∷ turns) t ≡ none = rw (stuck) refl in absurd (cc)
  | inr (u, stepped) ↦
      let goes_on : run c h (turn ∷ turns) t ≡ run c h turns u = rw (stepped) refl in
      run-Inv c h turns u t' (step-Inv c h turn t.phase t u refl v stepped) (sym goes_on ∙ ran)
]

due_of_message :
    (q rest : List LogicNode) (node : LogicNode) (due : ℕ)
    → Left waiting q due
    → q ≡ node ∷ rest
    → (n : ℕ) × (due ≡ suc n)
due_of_message q rest node zero v e = ground arith
due_of_message q rest node (suc n) v e = (n, refl)

-- Whatever turns the worker, the posts and the destructor have taken since the thread was created: if the
-- worker waits although there is a message, a post is about to notify; the notification wakes the worker,
-- which is then about to check, with the queue as it was.
pub run-woken :
    (c : Libraries) (h : Host) (sys : System) (turns : List Turn) (t : Thread) (node : LogicNode)
    (rest : List LogicNode)
    → run c h turns (created sys) ≡ some t
    → t.phase ≡ waiting
    → t.system.world.inbox.msg_queue ≡ node ∷ rest
    → (t' : Thread) × (notify t ≡ some t') × (t'.phase ≡ checking) × (t'.system ≡ t.system)
unfolding notify woken
run-woken c h sys turns t node rest ran asleep queue =
    let v : Left waiting t.system.world.inbox.msg_queue t.due =
      rw (asleep) at (run-Inv c h turns (created sys) t tt ran) in
    let (n, e) = due_of_message t.system.world.inbox.msg_queue rest node t.due v queue in
    (record t { phase = checking; due = n }, (rw (e, asleep) refl), refl, refl)
