-- ===== src/Async/Wire.antt =====
-- src/02_async/const.h and MsgNode.h: the limits, and the buffer of one message. A `short` is its
-- 16-bit pattern; `int` values made from it carry their sign.
use boost_asio.Common.{
  ℕ, zero, suc, ◌+◌, ◌-◌, ◌*◌, ◌%◌, ◌^◌, Option, none, some, Bytes, ltb, if◌then◌else◌,
}
use boost_asio.Memory.{memcpy, peek, poke}
use boost_asio.Wire.Host.{Host, store16}

-- What a piece of code comes to: an exception is caught by the coroutine, and what C++ leaves
-- undefined is a fault.
pub data Outcome {ℓ} (A : Type ℓ) : Type ℓ where
  ok : A → Outcome A
  throws : Outcome A
  fault : Outcome A

infixl 5 ◌>>=◌
abbrev pub ◌>>=◌ {ℓ κ} : {A : Type ℓ} {B : Type κ} → Outcome A → (A → Outcome B) → Outcome B
ok a >>= f = f a
throws >>= f = throws
fault >>= f = fault

abbrev pub checked {ℓ} : {A : Type ℓ} → Option A → Outcome A
checked none = fault
checked (some a) = ok a

-- where the library throws
abbrev pub or_throw {ℓ} : {A : Type ℓ} → Option A → Outcome A
or_throw none = throws
or_throw (some a) = ok a

-- `negsuc n` is -(n + 1).
pub data ℤ : Type 0 where
  pos : ℕ → ℤ
  negsuc : ℕ → ℤ

-- the number that a `short` stands for
abbrev pub signed16 : ℕ → ℤ
signed16 w = if ltb w (2 ^ 15) then pos w else negsuc (2 ^ 16 - w - 1)

abbrev pub head_id_len : ℕ
head_id_len = 2

abbrev pub head_data_len : ℕ
head_data_len = 2

abbrev pub head_total_len : ℕ
head_total_len = head_id_len + head_data_len

abbrev pub max_id : ℕ
max_id = 1024 * 10

abbrev pub max_len : ℕ
max_len = 1024 * 2

abbrev pub max_send_queue_len : ℕ
max_send_queue_len = 1024

abbrev pub max_recv_queue_len : ℕ
max_recv_queue_len = 1024 * 10

abbrev pub hello_world : ℕ
hello_world = 1001

pub record MsgNode : Type 0 where
  pub cur_len : ℕ
  pub total_len : ℤ
  -- the array `_data`
  pub chars : Bytes
  pub msg_id : ℕ

-- `new char[_totalLen + 1]` throws for a negative number of elements.
unfoldable pub new_chars : Host → ℤ → Outcome Bytes
new_chars h (pos n) = ok (h.new_char (n + 1))
new_chars h (negsuc zero) = ok (h.new_char 0)
new_chars h (negsuc (suc n)) = throws

-- The constructor of MsgNode, and of RecvNode
unfoldable pub msg_node : Host → ℕ → ℕ → Outcome MsgNode
unfolding new_chars
msg_node h total_len msg_id = do
  chars ← new_chars h (signed16 total_len)
  ok (record { cur_len = 0; total_len = signed16 total_len; chars = chars; msg_id = msg_id })

-- MsgNode::Clear
unfoldable pub clear : MsgNode → MsgNode
clear n = record n { cur_len = 0 }

-- memcpy from a text, of as many chars as an `int` says; a negative number is one of nearly 2^64.
unfoldable pub text_chars : Bytes → ℤ → Outcome Bytes
text_chars msg (pos n) = checked (peek msg 0 n)
text_chars msg (negsuc n) = fault

-- `_data[_totalLen] = '\0'`
unfoldable pub terminate : Bytes → ℤ → Outcome Bytes
terminate chars (pos n) = checked (poke chars n 0)
terminate chars (negsuc n) = fault

-- The constructor of SendNode; `totalLen + HEAD_TOTAL_LEN` becomes a `short` again.
unfoldable pub send_node : Host → Bytes → ℕ → ℕ → Outcome MsgNode
unfolding msg_node text_chars terminate
send_node h msg total_len msg_id = do
  node ← msg_node h ((total_len + head_total_len) % 2 ^ 16) msg_id
  with_id ← checked (memcpy node.chars 0 (store16 h.order (h.host_to_network_short msg_id)))
  with_head ←
      checked (memcpy with_id head_id_len (store16 h.order (h.host_to_network_short total_len)))
  body ← text_chars msg (signed16 total_len)
  with_body ← checked (memcpy with_head head_total_len body)
  chars ← terminate with_body node.total_len
  ok (record node { chars = chars })
