-- ===== src/Wire/Const.antt =====
-- src/05_ftp/include/const.h: the sizes of the header's fields and of the queues, and the ids.
-- The constants are plain definitions: a proof that needs the value of one unfolds it.
use boost_asio.Common.{ℕ, ◌+◌, ◌-◌, ◌^◌}

-- INT_MAX of a 32-bit int
abbrev pub max_len : ℕ
max_len = 2 ^ 31 - 1

abbrev pub head_id_len : ℕ
head_id_len = 2

abbrev pub head_data_len : ℕ
head_data_len = 4

abbrev pub head_total_len : ℕ
head_total_len = head_id_len + head_data_len

abbrev pub max_send_queue_len : ℕ
max_send_queue_len = 2000000

abbrev pub max_recv_queue_len : ℕ
max_recv_queue_len = 2000000

-- enum ErrorCodes
abbrev pub success : ℕ
success = 0

-- enum MsgIDType
abbrev pub test_msg_recv : ℕ
test_msg_recv = 1001

abbrev pub test_msg_send : ℕ
test_msg_send = 1002

abbrev pub upload_file_recv : ℕ
upload_file_recv = 1003

abbrev pub upload_file_send : ℕ
upload_file_send = 1004
