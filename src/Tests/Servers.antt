-- ===== src/Tests/Servers.antt =====
-- The pool, the tables, the log and the other servers at concrete inputs.
use boost_asio.Common.{
  ℕ, ◌+◌, ◌%◌, ◌^◌, ◌≡◌, refl, Bool, true, false, Option, none, some, List, [], ◌∷◌, ◌++◌, ◌==◌,
  if◌then◌else◌, Bytes, length, get_elem?, arith,
}
use boost_asio.Map.{bytes_beq, bytes_eq, find, assign, find-assign, find-assign_self}
use boost_asio.Logic.{text}
use boost_asio.Logic.Codec.{Libraries}
use boost_asio.Session.{new_session}
use boost_asio.Pool.{IoServicePool, new_pool, get_io_service, destroy_session}
use boost_asio.Pool.RoundRobin.{take_services, destroy_session-shared}
use boost_asio.Log.{info, level_string, opening, closing, next_argument, join_all, format_message}
use boost_asio.Log.Placeholders.{fill, format_message-fill}
use boost_asio.WebSocket.{Connection, Memory, new_connection, on_read, write_completes}
use boost_asio.WebSocket.Sends.{on_read-dangles}
use boost_asio.Http.{
  Request, get, post, count_page, handle, handle_get, set_field, set_result, write_body, Response,
  process_request,
}
use boost_asio.Http.Serving.{process_all, asking_count, process_all-count}
use boost_asio.Config.{Directories, ConfigManager, load}
use boost_asio.Wire.Machines.{little_endian}
use boost_asio.Tests.Machine.{empty_world, hi}

destroy_session-shared_example :
    (p : IoServicePool) × (before : List ℕ) × (take_services 3 (new_pool 2) ≡ some (before, p))
    × ((i : ℕ) × (p1 : IoServicePool) × (get_io_service p ≡ some (i, p1))
        × ((p2 : IoServicePool) × (between : List ℕ) × (take_services 1 p1 ≡ some (between, p2))
            × ((j : ℕ) × (p3 : IoServicePool) × (get_io_service p2 ≡ some (j, p3))
                × (get_elem? p3.io_services j ≡ some (record { stopped = false }))
                × (get_elem?
                      (destroy_session i (new_session little_endian 7) p3 empty_world).0.io_services
                      j
                    ≡ some (record { stopped = true })))))
destroy_session-shared_example =
    destroy_session-shared (new_session little_endian 7) empty_world 1 3

-- "{}-{}"
abbrev two_places : Bytes
two_places = b'{' ∷ b'}' ∷ b'-' ∷ b'{' ∷ b'}' ∷ []

fill_runs : fill two_places (hi ∷ []) ≡ b'h' ∷ b'i' ∷ b'-' ∷ b'{' ∷ b'}' ∷ []
unfolding fill opening closing next_argument join_all
fill_runs = refl

format_message-fill_example :
    format_message info hi two_places (hi ∷ [])
    ≡ some
        (text "[" ++ level_string info ++ text "] " ++ hi ++ text ": " ++ fill two_places (hi ∷ []))
format_message-fill_example = format_message-fill info hi two_places (hi ∷ [])

abbrev memory : Memory
memory = record { strings = []; connections = (7, 7) ∷ []; delivered = [] }

on_read-dangles_example :
    (c' : Connection) × (m' : Memory) × (on_read false hi (new_connection 7) memory ≡ some (c', m'))
    × (c'.send_queue ≡ hi ∷ [])
    × (write_completes false c' m' ≡ none)
unfolding new_connection
on_read-dangles_example = on_read-dangles hi (new_connection 7) memory refl

-- One directory of the given name; creating another succeeds.
abbrev pub disk : Directories (List (Bytes × ℕ))
disk = record {
  join = ◌++◌;
  exists = λ p f. elim (find p f) [ none ↦ false | some _ ↦ true ];
  create_directory = λ p f. some (assign p 0 f);
}

abbrev tree : List (Bytes × List (Bytes × Bytes))
tree = (text "Log", (text "Path", hi) ∷ []) ∷ (text "Output", (text "Path", two_places) ∷ []) ∷ []

abbrev loaded : ConfigManager
loaded = record { config_map = load tree []; static_path = []; bin_path = [] }

created :
    (p : Bytes) (g g' : List (Bytes × ℕ))
    → disk.create_directory p g ≡ some g'
    → disk.exists p g' ≡ true
created p g g' e = ground (arith, find-assign_self p 0 g)

kept :
    (p q : Bytes) (g g' : List (Bytes × ℕ))
    → disk.create_directory p g ≡ some g'
    → disk.exists q g ≡ true
    → disk.exists q g' ≡ true
kept p q g g' e h = ground (arith, find-assign p q 0 g)

-- A JSON value is a string, or else an array.
abbrev string_parse : Bytes → Bool × Option Bytes
string_parse [] = (false, some [])
string_parse (b ∷ rest) = (true, if b == b'[' then none else some rest)

abbrev string_field : Option Bytes → Option (Option Bytes)
string_field none = none
string_field (some s) = some (some s)

abbrev string_put : Option Bytes → Option Bytes → Option (Option Bytes)
string_put v none = none
string_put v (some s) = some v

abbrev libraries : Libraries
libraries = record {
  Value = Option Bytes;
  parse = string_parse;
  null = some [];
  from_string = some;
  from_int = λ n. some (n ∷ []);
  put = λ key. string_put;
  member = λ key. string_field;
  as_string = λ v. v;
  as_int = λ v. none;
  to_styled_string = λ v. [];
  base64_decode = some;
  join = ◌++◌;
  opens = λ p. true;
}

abbrev get_count : Request
get_count = record {
  version = 11;
  method = get;
  method_string = text "GET";
  target = text "/count";
  body = [];
}

abbrev post_email : Request
post_email = record get_count { method = post; target = text "/email" }

-- "[]"
abbrev post_array : Request
post_array = record post_email { body = b'[' ∷ b']' ∷ [] }

abbrev digit : ℕ → Bytes
digit n = (48 + n) ∷ []

abbrev largest : ℕ
largest = 18446744073709551615

-- the response after the counter has wrapped around
abbrev count_response : Response
count_response = record {
  version = 11;
  keep_alive = false;
  result = 200;
  fields = (text "Server", text "lyf") ∷ (text "Content-Type", text "text/html") ∷ [];
  body = count_page digit hi libraries 0;
  content_length = some (length (count_page digit hi libraries 0));
}

process_all-count_example : 0 ≡ (asking_count (get_count ∷ []) + largest) % 2 ^ 64
unfolding process_all process_request handle handle_get set_field set_result write_body assign
    bytes_beq
process_all-count_example =
    process_all-count digit hi libraries (get_count ∷ []) largest (count_response ∷ []) 0
      (omega arith) refl
