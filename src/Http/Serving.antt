-- ===== src/Http/Serving.antt =====
-- The answers of src/03_beast-http/RunServer.cpp to one request and to several.
use boost_asio.Common.{
  ℕ, ◌+◌, ◌%◌, ◌^◌, ◌<◌, ◌≡◌, true, false, Option, none, some, ◌>>=◌, List, [], ◌∷◌, Bytes,
  if◌then◌else◌, length, bind-eq-some, arith,
}
use boost_asio.Map.{bytes_beq}
use boost_asio.Logic.{text}
use boost_asio.Logic.Codec.{Libraries}
use boost_asio.Http.{
  get, post, other, Request, Response, handle_get, handle_post, accept_email, handle, request_count,
  process_request,
}

-- A GET for /count
unfoldable pub asks_count : Request → ℕ
asks_count q = elim q.method [
  | get ↦ if bytes_beq q.target (text "/count") then 1 else 0
  | post ↦ 0
  | other ↦ 0
]

unfoldable pub asking_count : List Request → ℕ
asking_count [] = 0
asking_count (q ∷ qs) = asks_count q + asking_count qs

module _ (show_number : ℕ → Bytes) (current_time : Bytes) (c : Libraries) where
  -- the responses to requests, one connection each, in the order of their processing
  unfoldable pub process_all : List Request → ℕ → Option (List Response × ℕ)
  process_all [] count = some ([], count)
  process_all (q ∷ qs) count = do
    (r, count') ← process_request show_number current_time c q count
    (rs, after) ← process_all qs count'
    some (r ∷ rs, after)

  process_request-count :
      (q : Request) (count : ℕ) (r : Response) (after : ℕ)
      → process_request show_number current_time c q count ≡ some (r, after)
      → count < 2 ^ 64
      → after ≡ (asks_count q + count) % 2 ^ 64
  unfolding process_request handle handle_get asks_count request_count
  process_request-count q count r after h small = ground arith

  -- If none of some requests raises an exception, the counter, which has 64 bits, has grown by the number
  -- of GETs for /count among them, modulo 2 ^ 64; other requests are not counted.
  pub process_all-count :
      (qs : List Request) (count : ℕ) (rs : List Response) (after : ℕ)
      → count < 2 ^ 64
      → process_all qs count ≡ some (rs, after)
      → after ≡ (asking_count qs + count) % 2 ^ 64
  unfolding process_all asking_count
  process_all-count [] count rs after small h = ground arith
  process_all-count (q ∷ qs) count rs after small h =
      let ((r, between), e, h') =
        bind-eq-some (process_request show_number current_time c q count) _ h in
      let ((rs', after'), e', h'') = bind-eq-some (process_all qs between) _ h' in
      let one = process_request-count q count r between e small in
      let below : between < 2 ^ 64 = ground (arith, one) in
      let more = process_all-count qs between rs' after' below e' in ground (arith, one, more, h'')

  -- Every response asks to close the connection, has the version of the request, and announces
  -- the length of its body.
  pub process_request-closes :
      (q : Request) (count : ℕ) (r : Response) (after : ℕ)
      → process_request show_number current_time c q count ≡ some (r, after)
      → (r.keep_alive ≡ false) × (r.version ≡ q.version) × (r.content_length ≡ some (length r.body))
  unfolding process_request handle handle_get handle_post
  process_request-closes q count r after h = ground arith

  -- A POST for /email whose body is JSON in which no member can be looked up raises an exception.
  pub process_request-throws :
      (q : Request) (count : ℕ)
      → q.method ≡ post
      → bytes_beq q.target (text "/email") ≡ true
      → (c.parse q.body).0 ≡ true
      → c.member (text "email") (c.parse q.body).1 ≡ none
      → process_request show_number current_time c q count ≡ none
  unfolding process_request handle handle_post accept_email
  process_request-throws q count is_post is_email is_json no_member = ground arith
