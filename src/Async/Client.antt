-- ===== src/Async/Client.antt =====
-- src/02_async/RunClient.cpp: what the test client sends and what it makes of an answer. JsonCpp is
-- that of Logic.Codec. A read of a connection that ends too early throws.
pub mod Buffers
pub mod Answers
pub mod Running
use boost_asio.Common.{
  ℕ, zero, suc, ◌+◌, ◌-◌, ◌%◌, ◌^◌, Option, none, some, List, [], ◌∷◌, ◌++◌, Bytes, leb, ◌==◌,
  if◌then◌else◌, length, take, drop,
}
use boost_asio.Memory.{memcpy, peek, c_string}
use boost_asio.Wire.Host.{Host, store16, load16}
use boost_asio.Logic.{text}
use boost_asio.Logic.Codec.{Libraries}
use boost_asio.Async.Wire.{
  Outcome, ok, throws, fault, ◌>>=◌, checked, or_throw, ℤ, pos, negsuc, signed16, head_id_len,
  head_data_len, head_total_len, max_len, hello_world, text_chars,
}

-- `{0}`
unfoldable pub zeros : ℕ → Bytes
zeros zero = []
zeros (suc n) = 0 ∷ zeros n

-- The bytes that `buffer(array, n)` gives of an array: no more than it has; a negative number is one
-- of nearly 2^64.
unfoldable pub buffered : Bytes → ℤ → Bytes
buffered chars (pos n) = take n chars
buffered chars (negsuc n) = chars

-- `requestLen + HEAD_TOTAL_LEN`, where the length is not negative
unfoldable pub with_head_len : ℤ → ℤ
with_head_len (pos n) = pos (n + head_total_len)
with_head_len (negsuc n) = negsuc n

-- BaseSend, from the header on
unfoldable pub send_text : Host → Bytes → ℕ → Outcome Bytes
unfolding buffered with_head_len text_chars
send_text h msg msg_id = do
  let request_len = length msg % 2 ^ 16
  with_id ← checked (memcpy (zeros max_len) 0 (store16 h.order (h.host_to_network_short msg_id)))
  with_head ←
      checked (memcpy with_id head_id_len (store16 h.order (h.host_to_network_short request_len)))
  body ← text_chars msg (signed16 request_len)
  send_msg ← checked (memcpy with_head head_total_len body)
  ok (buffered send_msg (with_head_len (signed16 request_len)))

module _ (c : Libraries) where
  open c use {null, from_string, put, to_styled_string}

  -- BaseSend; `data.data()` is read up to its first zero.
  unfoldable pub base_send : Host → Bytes → ℕ → Outcome Bytes
  unfolding send_text
  base_send h message msg_id = do
    with_role ← or_throw (put (text "role") (from_string (text "client")) null)
    root ← or_throw (put (text "data") (from_string (c_string message)) with_role)
    send_text h (to_styled_string root) msg_id

  -- testSend
  unfoldable pub test_send : Host → Outcome Bytes
  unfolding base_send
  test_send h = base_send h (text "hello world") hello_world

  -- userInputSend; the line is what `getline` gives.
  unfoldable pub user_input_send : Host → Bytes → Outcome Bytes
  unfolding base_send
  user_input_send h line = base_send h line hello_world

-- boost::asio::read of as many bytes as the buffer has
unfoldable pub read : ℕ → Bytes → Outcome (Bytes × Bytes)
read n stream = if leb n (length stream) then ok (take n stream, drop n stream) else throws

-- A text in an array that is read up to its first zero, which has to be in the array
unfoldable pub text_in : Bytes → Outcome Bytes
text_in [] = fault
text_in (b ∷ chars) =
    let rest : Outcome Bytes = (do s ← text_in chars; ok (b ∷ s)) in if b == 0 then ok [] else rest

-- What testRecv prints: the id, the length and the text
abbrev pub Printed : Type 0
Printed = ℕ × ℕ × Bytes

-- testRecv: what is printed, and what it leaves of the stream
unfoldable pub test_recv : Host → Bytes → Outcome (Printed × Bytes)
unfolding buffered read text_in
test_recv h stream = do
  (receive_head, rest) ← read head_total_len stream
  id_chars ← checked (peek receive_head 0 head_id_len)
  len_chars ← checked (peek receive_head head_id_len head_data_len)
  let response_id = h.network_to_host_short (load16 h.order id_chars)
  let response_len = h.network_to_host_short (load16 h.order len_chars)
  (body, left) ← read (length (buffered (zeros max_len) (signed16 response_len))) rest
  receive_buf ← checked (memcpy (zeros max_len) 0 body)
  printed ← text_in receive_buf
  ok ((response_id, response_len, printed), left)
