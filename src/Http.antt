-- ===== src/Http.antt =====
-- src/03_beast-http/RunServer.cpp: one connection of the HTTP server and the counter of requests.
-- A number and a time are printed by functions that are parameters, and JsonCpp is that of
-- Logic.Codec. The socket's completions are arguments.
pub mod Serving
pub mod Deadline
pub mod Accepting
use boost_asio.Common.{
  ℕ, zero, suc, ◌+◌, ◌%◌, ◌^◌, Bool, true, false, not, Option, none, some, ◌>>=◌, List, [], ◌∷◌,
  ◌++◌, Bytes, if◌then◌else◌, length,
}
use boost_asio.Logic.{text}
use boost_asio.Map.{assign, bytes_beq, bytes_eq}
use boost_asio.Logic.Codec.{Libraries}

pub data Verb : Type 0 where
  get : Verb
  post : Verb
  other : Verb

pub record Request : Type 0 where
  pub version : ℕ
  pub method : Verb
  pub method_string : Bytes
  pub target : Bytes
  pub body : Bytes

pub record Response : Type 0 where
  pub version : ℕ
  pub keep_alive : Bool
  pub result : ℕ
  pub fields : List (Bytes × Bytes)
  pub body : Bytes
  pub content_length : Option ℕ

-- A default-constructed response of Beast is HTTP/1.1, 200, with no field and an empty body.
abbrev pub new_response : Response
new_response = record {
  version = 11;
  keep_alive = true;
  result = 200;
  fields = [];
  body = [];
  content_length = none;
}

unfoldable pub set_result : ℕ → Response → Response
set_result n r = record r { result = n }

unfoldable pub set_field : Bytes → Bytes → Response → Response
set_field k v r = record r { fields = assign k v r.fields }

-- beast::ostream(_response.body()) << s
unfoldable pub write_body : Bytes → Response → Response
write_body s r = record r { body = r.body ++ s }

-- RequestCount, whose static `count` is a `std::size_t` of 64 bits
unfoldable pub request_count : ℕ → ℕ
request_count count = (count + 1) % 2 ^ 64

module _ (show_number : ℕ → Bytes) (current_time : Bytes) (c : Libraries) where
  open c use {parse, null, from_string, put, member, as_string, to_styled_string}

  unfoldable pub count_page : ℕ → Bytes
  count_page n =
      text
        "<html>\n<head><title>Request count</title></head>\n<body>\n<h1>Request count</h1>\n<p>There have been "
      ++ show_number n
      ++ text " requests so far.</p>\n</body>\n</html>\n"

  unfoldable pub time_page : Bytes
  time_page =
      text
        "<html>\n<head><title>Current time</title></head>\n<body>\n<h1>Current time</h1>\n<p>The current time is "
      ++ current_time
      ++ text "\n</body>\n</html>\n"

  -- HandleGet, with the static count of `RequestCount` before and after
  unfoldable pub handle_get : Request → Response → ℕ → Response × ℕ
  unfolding set_result set_field write_body request_count
  handle_get q r count =
      let ok = set_field (text "Server") (text "lyf") (set_result 200 r) in
      if bytes_beq q.target (text "/count")
      then (
        write_body (count_page (request_count count))
            (set_field (text "Content-Type") (text "text/html") ok),
        request_count count,
      )
      else if bytes_beq q.target (text "/time")
      then (write_body time_page (set_field (text "Content-Type") (text "text/html") ok), count)
      else (
        write_body (text "GET request received")
            (set_field (text "Content-Type") (text "text/plain") (set_result 404 ok)),
        count,
      )

  -- The answer to an email whose text is JSON. `none` is an exception of JsonCpp.
  unfoldable pub accept_email : c.Value → Response → Option Response
  unfolding write_body
  accept_email src r = do
    value ← member (text "email") src
    email ← as_string value
    with_message ← put (text "message") (from_string (text "Email received successfully")) null
    with_email ← put (text "email") value with_message
    with_error ← put (text "error") (from_string (text "0")) with_email
    some (write_body (to_styled_string with_error) r)

  unfoldable pub reject_email : Response → Option Response
  unfolding write_body
  reject_email r = do
    with_error ← put (text "error") (from_string (text "1001")) null
    some (write_body (to_styled_string with_error) r)

  -- HandlePost
  unfoldable pub handle_post : Request → Response → Option Response
  unfolding accept_email reject_email set_field
  handle_post q r =
      let typed = set_field (text "Content-Type") (text "text/json") r in
      let (is_json, src) = parse q.body in
      if bytes_beq q.target (text "/email")
      then (if is_json then accept_email src typed else reject_email typed)
      else some r

  unfoldable pub bad_request : Request → Response → Response
  unfolding set_result set_field write_body
  bad_request q r = write_body (text "Invalid request-method '" ++ q.method_string ++ text "'") (
      set_field (text "Content-Type") (text "text/plain")
        (set_field (text "Server") (text "lyf") (set_result 400 r)))

  -- The switch of ProcessRequest
  unfoldable pub handle : Request → Response → ℕ → Option (Response × ℕ)
  unfolding handle_get handle_post bad_request
  handle q r count = elim q.method [
    | get ↦ some (handle_get q r count)
    | post ↦ (do r' ← handle_post q r; some (r', count))
    | other ↦ some (bad_request q r, count)
  ]

  -- ProcessRequest, up to the `async_write` of WriteResponse, whose message is the response
  unfoldable pub process_request : Request → ℕ → Option (Response × ℕ)
  unfolding handle
  process_request q count = do
    (r, count') ← handle q (record new_response { version = q.version; keep_alive = false }) count
    some (record r { content_length = some (length r.body) }, count')

-- What is left of a connection in the io_context: the socket and the deadline.
pub record HttpConnection : Type 0 where
  pub socket_open : Bool
  pub send_open : Bool
  pub deadline_pending : Bool

-- Start: the read and the wait for the deadline are under way.
unfoldable pub start_connection : HttpConnection
start_connection = record { socket_open = true; send_open = true; deadline_pending = true }

-- The handler of CheckDeadline; `cancelled` is its error code.
unfoldable pub on_deadline : Bool → HttpConnection → HttpConnection
on_deadline cancelled k =
    if cancelled
    then record k { deadline_pending = false }
    else record k { deadline_pending = false; socket_open = false; send_open = false }

-- The handler of WriteResponse: `failed` is the error code of the write and `shutdown_failed` that
-- of the shutdown. A cancelled wait completes with an error.
unfoldable pub on_written : Bool → Bool → HttpConnection → HttpConnection
unfolding on_deadline
on_written failed shutdown_failed k =
    if failed
    then k
    else if shutdown_failed
    then on_deadline true k
    else record k { send_open = false }
