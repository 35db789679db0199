-- ===== src/Logic/Waking/Rounds.antt =====
-- The rounds of the worker of src/05_ftp/LogicSystem.cpp, by the messages that they handle.
use mathlib.Core.Option
use boost_asio.Common.{
  ℕ, ◌≡◌, refl, sym, ◌∙◌, inl, inr, none, some, ◌>>=◌, Option-cases, Bool-cases, List, [], ◌∷◌,
  ◌++◌, take, drop, arith, get_elem?, ◌≢◌,
}
use boost_asio.Map.{find, nat_eq}
use boost_asio.Wire.Host.{Host}
use boost_asio.Wire.Node.{MsgNode}
use boost_asio.Inbox.{Inbox, LogicNode}
use boost_asio.Reader.{deref}
use boost_asio.Logic.Codec.{Libraries}
use boost_asio.Logic.Worker.{with_queue, handle_all, one_round, deal_msg-stopped, deal_msg-running}
use boost_asio.Logic.{
  System, Callback, test_msg, upload_file, goes_on, returns, call, dispatch, deal_msg,
  register_callbacks,
}

-- The system with another queue and another flag
unfoldable pub with_inbox : Inbox → System → System
with_inbox i sys = record sys { world = record sys.world { inbox = i } }

module _ (c : Libraries) (h : Host) (i : Inbox) where
  call-with_inbox :
      (f : Callback) (id : ℕ) (node : MsgNode) (sys : System)
      → call c h f id node (with_inbox i sys) ≡ Option.map (with_inbox i) (call c h f id node sys)
  unfolding call with_inbox
  call-with_inbox test_msg id node sys = ground arith
  call-with_inbox upload_file id node sys = ground arith

  dispatch-with_inbox :
      (id : ℕ) (node : MsgNode) (sys : System)
      → dispatch c h id node (with_inbox i sys)
        ≡ Option.map (with_inbox i) (dispatch c h id node sys)
  unfolding dispatch
  dispatch-with_inbox id node sys = elim (Option-cases (find node.msg_id register_callbacks)) [
    | inl missing ↦ rw (missing, dispatch)
    | inr (f, found) ↦ rw (found, dispatch) (call-with_inbox f id node sys)
  ]

  pub handle_all-with_inbox :
      (q : List LogicNode) (sys : System)
      → handle_all c h q (with_inbox i sys) ≡ Option.map (with_inbox i) (handle_all c h q sys)
  unfolding handle_all deref with_inbox
  handle_all-with_inbox [] sys = refl
  handle_all-with_inbox (node ∷ q) sys =
      elim (Option-cases (get_elem? sys.world.nodes node.recv_node)) [
        | inl dangling ↦ rw dangling refl
        | inr (n, there) ↦
            rw (there, dispatch-with_inbox node.session n sys)
              (elim (Option-cases (dispatch c h node.session n sys)) [
                | inl threw ↦ rw threw refl
                | inr (sys', handled) ↦ rw handled (handle_all-with_inbox q sys')
              ])
      ]

pub handle_all-append :
    (c : Libraries) (h : Host) (xs ys : List LogicNode) (sys : System)
    → handle_all c h (xs ++ ys) sys ≡ handle_all c h xs sys >>= λ s. handle_all c h ys s
unfolding handle_all
handle_all-append c h [] ys sys = refl
handle_all-append c h (node ∷ xs) ys sys =
    elim (Option-cases (deref (some node.recv_node) sys.world)) [
      | inl dangling ↦ rw dangling refl
      | inr ((a, n), there) ↦ rw there (elim (Option-cases (dispatch c h node.session n sys)) [
        | inl threw ↦ rw threw refl
        | inr (sys', handled) ↦ rw handled (handle_all-append c h xs ys sys')
      ])
    ]

module _ (c : Libraries) (h : Host) where
  one_round-goes_on :
      (q : List LogicNode) (sys sys' : System)
      → one_round c h q sys ≡ some (goes_on sys')
      → (s : System) × (handle_all c h (take 1 q) sys ≡ some s) × (sys' ≡ with_queue (drop 1 q) s)
  unfolding one_round handle_all
  one_round-goes_on [] sys sys' ran = absurd (cc)
  one_round-goes_on (node ∷ rest) sys sys' ran =
      elim (Option-cases (deref (some node.recv_node) sys.world)) [
        | inl dangling ↦
            let nothing : one_round c h (node ∷ rest) sys ≡ none = rw (dangling) refl in absurd (cc)
        | inr ((a, n), there) ↦ elim (Option-cases (dispatch c h node.session n sys)) [
          | inl threw ↦
              let nothing : one_round c h (node ∷ rest) sys ≡ none = rw (there, threw) refl in
              absurd (cc)
          | inr (s, done) ↦
              let goes : one_round c h (node ∷ rest) sys ≡ some (goes_on (with_queue rest s)) =
                rw (there, done) refl in
              (s, (rw (there, done) refl), cc)
        ]
      ]

  one_round-returns :
      (q : List LogicNode) (sys sys' : System) → one_round c h q sys ≢ some (returns sys')
  unfolding one_round
  one_round-returns [] sys sys' ran = absurd (cc)
  one_round-returns (node ∷ rest) sys sys' ran =
      elim (Option-cases (deref (some node.recv_node) sys.world)) [
        | inl dangling ↦
            let nothing : one_round c h (node ∷ rest) sys ≡ none = rw (dangling) refl in absurd (cc)
        | inr ((a, n), there) ↦ elim (Option-cases (dispatch c h node.session n sys)) [
          | inl threw ↦
              let nothing : one_round c h (node ∷ rest) sys ≡ none = rw (there, threw) refl in
              absurd (cc)
          | inr (s, done) ↦
              let goes : one_round c h (node ∷ rest) sys ≡ some (goes_on (with_queue rest s)) =
                rw (there, done) refl in
              absurd (cc)
        ]
      ]

  pub deal_msg-goes_on :
      (sys sys' : System)
      → deal_msg c h sys ≡ some (goes_on sys')
      → (s : System) × (handle_all c h (take 1 sys.world.inbox.msg_queue) sys ≡ some s)
        × (sys' ≡ with_queue (drop 1 sys.world.inbox.msg_queue) s)
  deal_msg-goes_on sys sys' ran = elim (Bool-cases sys.world.inbox.stop) [
    | inl stopped ↦ elim (Option-cases (handle_all c h sys.world.inbox.msg_queue sys)) [
      | inl threw ↦
          let nothing : deal_msg c h sys ≡ none =
            deal_msg-stopped c h sys stopped ∙ rw (threw) refl in
          absurd (cc)
      | inr (s, done) ↦
          let ends : deal_msg c h sys ≡ some (returns (with_queue [] s)) =
            deal_msg-stopped c h sys stopped ∙ rw (done) refl in
          absurd (cc)
    ]
    | inr running ↦
        one_round-goes_on sys.world.inbox.msg_queue sys sys'
          (sym (deal_msg-running c h sys running) ∙ ran)
  ]

  pub deal_msg-returns :
      (sys sys' : System)
      → deal_msg c h sys ≡ some (returns sys')
      → (s : System) × (handle_all c h sys.world.inbox.msg_queue sys ≡ some s)
        × (sys' ≡ with_queue [] s)
  deal_msg-returns sys sys' ran = elim (Bool-cases sys.world.inbox.stop) [
    | inl stopped ↦ elim (Option-cases (handle_all c h sys.world.inbox.msg_queue sys)) [
      | inl threw ↦
          let nothing : deal_msg c h sys ≡ none =
            deal_msg-stopped c h sys stopped ∙ rw (threw) refl in
          absurd (cc)
      | inr (s, done) ↦
          let ends : deal_msg c h sys ≡ some (returns (with_queue [] s)) =
            deal_msg-stopped c h sys stopped ∙ rw (done) refl in
          (s, done, cc)
    ]
    | inr running ↦ absurd (
        one_round-returns sys.world.inbox.msg_queue sys sys'
          (sym (deal_msg-running c h sys running) ∙ ran))
  ]
