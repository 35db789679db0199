-- ===== src/Logic/Posts.antt =====
-- The posts of a session's messages in the worker of src/05_ftp/LogicSystem.cpp.
use mathlib.Core.List.{append_assoc}
use boost_asio.Common.{
  ℕ, suc, ◌≡◌, refl, sym, ap, ◌∙◌, inl, inr, Bool, true, false, Option, none, some, ◌>>=◌,
  Option-cases, List, [], ◌∷◌, ◌++◌, Bytes, map, length, length-append, get_elem?, arith, All,
  if◌then◌else◌, not, ◌==◌,
}
use boost_asio.Memory.{c_string}
use boost_asio.Map.{find, assign, nat_eq, bytes_eq}
use boost_asio.Wire.Const.{upload_file_recv, upload_file_send}
use boost_asio.Wire.Host.{Host}
use boost_asio.Wire.Node.{MsgNode}
use boost_asio.World.{World}
use boost_asio.Reader.{deref}
use boost_asio.Reader.Stream.{Message, read_node, posts}
use boost_asio.Logic.Codec.{Libraries}
use boost_asio.Logic.{
  System, text, write_file, upload_response, string_member, int_member, register_callbacks, respond,
  call, dispatch, upload_file_callback,
}
use boost_asio.Logic.Files.{Part, upload_all}
use boost_asio.Logic.Worker.{handle_all}

-- A message of an upload, and what it says
pub record Sent : Type 0 where
  pub message : Message
  pub seq : ℕ
  pub bytes : Bytes

abbrev pub part : Sent → Part
part u = record { node = read_node u.message; seq = u.seq; bytes = u.bytes }

abbrev pub message_of : Sent → Message
message_of u = u.message

-- What comes of a computation leaves the world as it was.
abbrev Keeps : World → Option System → Type 0
Keeps w o = (after : System) → o ≡ some after → after.world ≡ w

Keeps-bind :
    {A : Type 0} (w : World) (m : Option A) (f : A → Option System)
    → ((a : A) → Keeps w (f a))
    → Keeps w (m >>= f)
Keeps-bind w none f keeps after ran = absurd (cc)
Keeps-bind w (some a) f keeps after ran = keeps a after ran

module _ (c : Libraries) (h : Host) where
  respond-Keeps :
      (id : ℕ) (msg : Bytes) (msg_id : ℕ) (sys : System)
      → Keeps sys.world (respond h id msg msg_id sys)
  unfolding respond
  respond-Keeps id msg msg_id sys after ran = ground arith

  answered-Keeps :
      (is_open : Bool) (id : ℕ) (m : Option c.Value) (sys written : System)
      → written.world ≡ sys.world
      → Keeps sys.world (
          if is_open
          then (do
            response ← m
            respond h id (c.to_styled_string response) upload_file_send written)
          else some sys)
  answered-Keeps true id m sys written same after ran =
      Keeps-bind sys.world m
        (λ response. respond h id (c.to_styled_string response) upload_file_send written)
        (λ response later done.
          respond-Keeps id (c.to_styled_string response) upload_file_send written later done ∙ same)
        after ran
  answered-Keeps false id m sys written same after ran = ground arith

  upload_file_callback-Keeps :
      (id : ℕ) (node : MsgNode) (sys : System)
      → Keeps sys.world (upload_file_callback c h id node sys)
  unfolding upload_file_callback
  upload_file_callback-Keeps id node sys =
      let w = sys.world in
      let root = (c.parse (c_string node.chars)).1 in
      Keeps-bind w (string_member c (text "data") root) _ (λ encoded.
        Keeps-bind w (c.base64_decode encoded) _ (λ decoded.
          Keeps-bind w (int_member c (text "seq") root) _ (λ seq.
            Keeps-bind w (string_member c (text "name") root) _ (λ name.
              Keeps-bind w (int_member c (text "total_size") root) _ (λ total_size.
                Keeps-bind w (int_member c (text "trans_size") root) _ (λ trans_size.
                  let path = c.join sys.static_path name in
                  answered-Keeps (c.opens path) id
                    (upload_response c name seq total_size trans_size) sys
                    (record sys { files = write_file (not (seq == 0)) path decoded sys.files })
                    refl))))))

  get_elem?-middle :
      (before : List MsgNode) (n : MsgNode) (after : List MsgNode)
      → get_elem? (before ++ n ∷ after) (length before) ≡ some n
  get_elem?-middle [] n after = refl
  get_elem?-middle (m ∷ before) n after = get_elem?-middle before n after

  -- The worker handles the posts of the messages as the callback of the uploads handles the parts.
  pub handle_all-posts :
      (id : ℕ) (us : List Sent) (before : List MsgNode) (sys : System)
      → sys.world.nodes ≡ before ++ map read_node (map message_of us)
      → All (λ u. u.message.id ≡ upload_file_recv) us
      → handle_all c h (posts id (length before) (map message_of us)) sys
        ≡ upload_all c h id (map part us) sys
  unfolding handle_all upload_all dispatch call deref register_callbacks assign find
  handle_all-posts id [] before sys at is_upload = refl
  handle_all-posts id (u ∷ us) before sys at is_upload =
      let there : get_elem? sys.world.nodes (length before) ≡ some (read_node u.message) =
        ap (λ l. get_elem? l (length before)) at
        ∙ get_elem?-middle before (read_node u.message) (map read_node (map message_of us)) in
      rw (there, is_upload.0)
        (elim (Option-cases (upload_file_callback c h id (read_node u.message) sys)) [
          | inl threw ↦ rw (threw, upload_all) refl
          | inr (sys', handled) ↦
              rw (handled, upload_all)
                (rw
                  (let e : suc (length before) ≡ length (before ++ read_node u.message ∷ []) =
                      omega (arith, length-append before (read_node u.message ∷ [])) in
                    e)
                  (handle_all-posts id us (before ++ read_node u.message ∷ []) sys'
                    (ap (λ w. w.nodes)
                        (upload_file_callback-Keeps id (read_node u.message) sys sys' handled)
                      ∙ at
                      ∙ sym (
                          append_assoc before (read_node u.message ∷ [])
                            (map read_node (map message_of us))))
                    is_upload.1))
        ])
