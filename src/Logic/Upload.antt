-- ===== src/Logic/Upload.antt =====
-- The upload of a file in parts, `LogicSystem::UploadFileCallback` of src/05_ftp/LogicSystem.cpp.
use boost_asio.Common.{
  ℕ, ◌+◌, ◌<◌, ◌^◌, ◌≡◌, refl, Bool, true, not, none, some, List, ◌++◌, Bytes, length, arith,
  if◌then◌else◌, ◌==◌,
}
use boost_asio.Memory.{c_string}
use boost_asio.Map.{find, assign, find-assign, find-assign_self, nat_eq, bytes_eq}
use boost_asio.Wire.Const.{upload_file_send}
use boost_asio.Wire.Host.{Host, IsHost}
use boost_asio.Wire.Node.{MsgNode}
use boost_asio.Session.{Session}
use boost_asio.Session.Queue.{send_view-some}
use boost_asio.Logic.Codec.{Libraries}
use boost_asio.Logic.{
  System, text, write_file, upload_response, upload_file_callback, string_member, int_member,
}

pub find-write_file :
    (append : Bool) (path p bytes : Bytes) (files : List (Bytes × Bytes)) (old : Bytes)
    → find path files ≡ some old
    → find p (write_file append path bytes files) ≡ (
        if bytes_eq.beq path p then some (if append then old ++ bytes else bytes) else find p files)
unfolding write_file
find-write_file append path p bytes files old there =
    rw (there, write_file) (find-assign path p (if append then old ++ bytes else bytes) files)

pub find-write_file_new :
    (append : Bool) (path p bytes : Bytes) (files : List (Bytes × Bytes))
    → find path files ≡ none
    → find p (write_file append path bytes files)
      ≡ (if bytes_eq.beq path p then some bytes else find p files)
unfolding write_file
find-write_file_new append path p bytes files there =
    rw (there, write_file) (find-assign path p bytes files)

module _ (c : Libraries) where
  -- A message that holds one part of a file.
  pub record IsPart (node : MsgNode) (name : Bytes) (seq : ℕ) (part : Bytes) : Type 0 where
    pub encoded : Bytes
    pub total_size : ℕ
    pub trans_size : ℕ
    pub response : c.Value
    pub data_is : string_member c (text "data") (c.parse (c_string node.chars)).1 ≡ some encoded
    pub decodes : c.base64_decode encoded ≡ some part
    pub seq_is : int_member c (text "seq") (c.parse (c_string node.chars)).1 ≡ some seq
    pub name_is : string_member c (text "name") (c.parse (c_string node.chars)).1 ≡ some name
    pub total_is :
        int_member c (text "total_size") (c.parse (c_string node.chars)).1 ≡ some total_size
    pub trans_is :
        int_member c (text "trans_size") (c.parse (c_string node.chars)).1 ≡ some trans_size
    pub answers : upload_response c name seq total_size trans_size ≡ some response
    pub response_fits : length (c.to_styled_string response) + 7 < 2 ^ 32

  module _ (h : Host) (law : IsHost h) where
    -- What one part does to the files, and to the session that sent it.
    pub record Stored (id : ℕ) (node : MsgNode) (path part : Bytes) (append : Bool) (sys : System)
        : Type 0 where
      pub after : System
      pub runs : upload_file_callback c h id node sys ≡ some after
      pub files_are : after.files ≡ write_file append path part sys.files
      pub path_is : after.static_path ≡ sys.static_path
      pub object : Session
      pub still_there : find id after.objects ≡ some object

    pub upload-Stored :
        (id : ℕ) (node : MsgNode) (name : Bytes) (seq : ℕ) (part : Bytes) (sys : System)
        (s : Session)
        → IsPart node name seq part
        → c.opens (c.join sys.static_path name) ≡ true
        → find id sys.objects ≡ some s
        → Stored id node (c.join sys.static_path name) part (not (seq == 0)) sys
    unfolding upload_file_callback
    upload-Stored id node name seq part sys s p opens there =
        let (s', sent) =
          send_view-some h law (c.to_styled_string p.response) upload_file_send s
            (omega arith, p.response_fits) in
        let files = write_file (not (seq == 0)) (c.join sys.static_path name) part sys.files in
        record {
          after = record sys { files = files; objects = assign id s' sys.objects };
          runs = rw (
            p.data_is, p.decodes, p.seq_is, p.name_is, p.total_is, p.trans_is, opens, p.answers,
            there, sent,
          );
          files_are = refl;
          path_is = refl;
          object = s';
          still_there = find-assign_self id s' sys.objects;
        }
