-- ===== src/Wire/Node.antt =====
-- src/05_ftp/include/MsgNode.h: the buffer of one message. `SendNode` and `RecvNode` add no
-- fields to `MsgNode`, so their constructors return one.
use boost_asio.Common.{ℕ, ◌+◌, ◌%◌, ◌^◌, Option, some, ◌>>=◌, Bytes}
use boost_asio.Memory.{memcpy, peek, poke}
use boost_asio.Wire.Const.{head_id_len, head_total_len}
use boost_asio.Wire.Host.{Host, store16, store32}

pub record MsgNode : Type 0 where
  pub cur_len : ℕ
  pub total_len : ℕ
  -- the array `_data`, of `_totalLen + 1` chars
  pub chars : Bytes
  pub msg_id : ℕ

unfoldable pub msg_node : Host → ℕ → ℕ → MsgNode
msg_node h total_len msg_id = record {
  cur_len = 0;
  total_len = total_len;
  chars = h.new_char ((total_len + 1) % 2 ^ 32);
  msg_id = msg_id;
}

-- MsgNode::Clear; `_data` is never null.
unfoldable pub clear : MsgNode → MsgNode
clear n = record n { cur_len = 0 }

unfoldable pub set_cur_len : MsgNode → ℕ → MsgNode
set_cur_len n len = record n { cur_len = len }

unfoldable pub recv_node : Host → ℕ → ℕ → MsgNode
unfolding msg_node
recv_node = msg_node

-- `totalLen + HEAD_TOTAL_LEN` is an `unsigned int`. The copies stay inside the array or fault.
unfoldable pub send_node : Host → Bytes → ℕ → ℕ → Option MsgNode
unfolding msg_node
send_node h msg total_len msg_id = do
  let node = msg_node h ((total_len + head_total_len) % 2 ^ 32) msg_id
  with_id ← memcpy node.chars 0 (store16 h.order (h.host_to_network_short msg_id))
  with_head ← memcpy with_id head_id_len (store32 h.order (h.host_to_network_long total_len))
  body ← peek msg 0 total_len
  with_body ← memcpy with_head head_total_len body
  chars ← poke with_body node.total_len 0
  some (record node { chars = chars })
