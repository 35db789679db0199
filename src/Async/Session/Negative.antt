-- ===== src/Async/Session/Negative.antt =====
-- Headers of src/02_async whose length is negative as a `short`.
use boost_asio.Common.{ℕ, zero}
use boost_asio.Wire.Host.{Host}
use boost_asio.Async.Wire.{negsuc, MsgNode}
use boost_asio.Async.Session.{Session}

abbrev minus_one : Host → ℕ → MsgNode
minus_one h msg_id = record {
  cur_len = 0;
  total_len = negsuc zero;
  chars = h.new_char 0;
  msg_id = msg_id;
}
