-- ===== src/Logic/Waking/Shutdown.antt =====
-- The destructor of src/05_ftp/LogicSystem.cpp and the thread that it joins.
use mathlib.Core.Option
use boost_asio.Common.{
  ℕ, ◌≡◌, refl, sym, ap, ◌∙◌, true, inl, inr, none, some, ◌>>=◌, List, [], ◌∷◌, arith,
}
use boost_asio.Wire.Host.{Host}
use boost_asio.Inbox.{LogicNode}
use boost_asio.Logic.Codec.{Libraries}
use boost_asio.Logic.Worker.{with_queue, with_queue-own, handle_all, deal_msg-stopped}
use boost_asio.Logic.{System, returns, deal_msg}
use boost_asio.Logic.Waking.{
  going_to_wait, waiting, finished, Thread, woken, check, wait, notify, set_stop, notify_stop, Turn,
  checks, waits_now, sets_stop, notifies_stop, step, run, created,
}
use boost_asio.Logic.Waking.Sleep.{Left, checked_as, run-Inv}

-- If the destructor sets the flag and notifies while the worker is between its check and its wait, and no
-- post is about to notify, the worker waits then, and has no turn of its own until a message is posted.
pub shutdown-hangs :
    (c : Libraries) (h : Host) (t : Thread)
    → t.phase ≡ going_to_wait
    → t.due ≡ 0
    → (t' : Thread) × (run c h (sets_stop ∷ notifies_stop ∷ waits_now ∷ []) t ≡ some t')
      × (t'.system.world.inbox.stop ≡ true)
      × (check c h t' ≡ none)
      × (wait t' ≡ none)
      × (notify t' ≡ none)
unfolding run step set_stop notify_stop wait check notify woken
shutdown-hangs c h t before none_due = (
  record (set_stop t) { phase = waiting },
  (rw (before) refl),
  refl,
  refl,
  refl,
  (rw (none_due) refl),
)

Left-none : (q : List LogicNode) (due : ℕ) → Left waiting q due → due ≡ 0 → q ≡ []
Left-none q due (inl nothing) e = nothing
Left-none q due (inr some_due) e = absurd (omega arith)

handle_none :
    (c : Libraries) (h : Host) (q : List LogicNode) (sys : System)
    → q ≡ []
    → handle_all c h q sys ≡ some sys
unfolding handle_all
handle_none c h [] sys e = refl
handle_none c h (node ∷ q) sys e = absurd (cc)

deal_nothing :
    (c : Libraries) (h : Host) (sys : System)
    → sys.world.inbox.stop ≡ true
    → sys.world.inbox.msg_queue ≡ []
    → deal_msg c h sys ≡ some (returns sys)
deal_nothing c h sys stopped e =
    deal_msg-stopped c h sys stopped
    ∙ ap (Option.map (λ s. returns (with_queue [] s)))
        (handle_none c h sys.world.inbox.msg_queue sys e)
    ∙ ap (λ s. some (returns s)) (sym (with_queue-own [] sys e))

-- If the worker waits when the destructor comes, whatever turns were taken before, and no post is about
-- to notify, the worker wakes, finds nothing left to do and finishes.
pub shutdown-finishes :
    (c : Libraries) (h : Host) (sys : System) (turns : List Turn) (t : Thread)
    → run c h turns (created sys) ≡ some t
    → t.phase ≡ waiting
    → t.due ≡ 0
    → run c h (sets_stop ∷ notifies_stop ∷ checks ∷ []) t
      ≡ some (record (set_stop t) { phase = finished })
unfolding run step set_stop notify_stop woken
shutdown-finishes c h sys turns t ran asleep none_due =
    let v : Left waiting t.system.world.inbox.msg_queue t.due =
      rw (asleep) at (run-Inv c h turns (created sys) t tt ran) in
    let u = notify_stop (set_stop t) in
    let deals : deal_msg c h u.system ≡ some (returns u.system) =
      deal_nothing c h u.system refl (Left-none t.system.world.inbox.msg_queue t.due v none_due) in
    let checks_it : check c h u ≡ some (record (set_stop t) { phase = finished }) =
      checked_as c h u (returns u.system) (ap woken asleep) deals in
    ap (λ o. o >>= λ t'. some t') checks_it
