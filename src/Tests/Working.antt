-- ===== src/Tests/Working.antt =====
-- The worker and its callbacks at concrete messages, with the toy for JSON and base64.
use mathlib.Core.Option
use boost_asio.Common.{◌≡◌, refl, Bool, true, false, some, List, [], ◌∷◌, ◌++◌, Bytes, arith}
use boost_asio.Memory.{c_string}
use boost_asio.Map.{find, assign, nat_eq, bytes_eq, bytes_beq}
use boost_asio.Wire.Machines.{little_endian, little_endian-IsHost}
use boost_asio.Wire.Node.{MsgNode}
use boost_asio.Session.{Session}
use boost_asio.Logic.{System, returns, text, deal_msg, string_member, int_member, upload_response}
use boost_asio.Logic.Worker.{with_queue, handle_all, deal_msg-stopped}
use boost_asio.Logic.Upload.{IsPart}
use boost_asio.Logic.Files.{Part, upload_all, upload_all-contents}
use boost_asio.Tests.Machine.{empty_world}
use boost_asio.Tests.Toy.{str, int, object, toy}

abbrev part_node : Bytes → MsgNode
part_node s = record { cur_len = 0; total_len = 3; chars = s ++ 0 ∷ []; msg_id = 1003 }

abbrev client : Session
client = record {
  id = 7;
  sock = record { is_open = true; writing = [] };
  send_queue = [];
  recv_msg_node = some 1;
  recv_head_node = part_node [];
}

abbrev system : System
system = record {
  world = record empty_world {
    nodes = part_node (text "0ab") ∷ part_node (text "1cd") ∷ [];
    inbox = record {
      msg_queue =
          record { session = 7; recv_node = 0 } ∷ record { session = 7; recv_node = 1 } ∷ [];
      stop = false;
    };
  };
  objects = (7, client) ∷ [];
  files = (text "s/f", text "old") ∷ (text "s/fg", text "kept") ∷ [];
  static_path = text "s";
}

abbrev stopping : System
stopping = record system {
  world = record system.world { inbox = record system.world.inbox { stop = true } };
}

deal_msg-stopped_example :
    deal_msg (toy (λ p. true)) little_endian stopping
    ≡ Option.map
        (λ s. returns (with_queue [] s))
        (handle_all (toy (λ p. true)) little_endian stopping.world.inbox.msg_queue stopping)
deal_msg-stopped_example = deal_msg-stopped (toy (λ p. true)) little_endian stopping refl

pub first-IsPart :
    (opens : Bytes → Bool) → IsPart (toy opens) (part_node (text "0ab")) (text "f") 0 (text "ab")
unfolding string_member int_member upload_response find assign c_string bytes_beq
first-IsPart opens = record {
  encoded = text "ab";
  total_size = 4;
  trans_size = 2;
  response = object (
      (text "error", int 0)
      ∷ (text "name", str (text "f"))
      ∷ (text "seq", int 0)
      ∷ (text "total_size", int 4)
      ∷ (text "trans_size", int 2)
      ∷ []);
  data_is = refl;
  decodes = refl;
  seq_is = refl;
  name_is = refl;
  total_is = refl;
  trans_is = refl;
  answers = refl;
  response_fits = omega arith;
}

pub second-IsPart :
    (opens : Bytes → Bool) → IsPart (toy opens) (part_node (text "1cd")) (text "f") 1 (text "cd")
unfolding string_member int_member upload_response find assign c_string bytes_beq
second-IsPart opens = record {
  encoded = text "cd";
  total_size = 4;
  trans_size = 2;
  response = object (
      (text "error", int 0)
      ∷ (text "name", str (text "f"))
      ∷ (text "seq", int 1)
      ∷ (text "total_size", int 4)
      ∷ (text "trans_size", int 2)
      ∷ []);
  data_is = refl;
  decodes = refl;
  seq_is = refl;
  name_is = refl;
  total_is = refl;
  trans_is = refl;
  answers = refl;
  response_fits = omega arith;
}

abbrev parts : List Part
parts = record { node = part_node (text "1cd"); seq = 1; bytes = text "cd" } ∷ []

abbrev first : Part
first = record { node = part_node (text "0ab"); seq = 0; bytes = text "ab" }

upload_all-contents_example :
    (after : System) × (upload_all (toy (λ p. true)) little_endian 7 (first ∷ parts) system
      ≡ some after)
    × (find (text "s/f") after.files ≡ some (text "abcd"))
    × (find (text "s/fg") after.files ≡ find (text "s/fg") system.files)
unfolding find
upload_all-contents_example =
    upload_all-contents (toy (λ p. true)) little_endian little_endian-IsHost 7 (text "f")
      (text "s/fg") (text "s/f") (λ e. cc) first parts system client (first-IsPart (λ p. true)) refl
      ((second-IsPart (λ p. true), omega arith), tt) refl refl refl
