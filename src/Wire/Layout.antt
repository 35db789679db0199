-- ===== src/Wire/Layout.antt =====
-- What `SendNode` leaves in its array: the message as it goes over the network.
use mathlib.Core.List.{append-nil}
use boost_asio.Common.{
  ℕ, ◌+◌, ◌<◌, ◌^◌, ◌/◌, ◌%◌, ◌≡◌, refl, some, ◌>>=◌, [], ◌∷◌, ◌++◌, arith, Bytes, length, take,
  drop, take-append, length-drop,
}
use boost_asio.Memory.{memcpy, peek, poke, memcpy-append, peek-append, poke-append}
use boost_asio.Wire.Const.{head_id_len, head_total_len}
use boost_asio.Wire.Host.{Host, IsHost, bytes16, bytes32}
use boost_asio.Wire.Node.{MsgNode, send_node}

-- id, length, body
abbrev pub wire : ℕ → Bytes → Bytes
wire msg_id msg = bytes16 msg_id ++ (bytes32 (length msg) ++ msg)

-- What `async_write(_sock, buffer(node->Data(), node->TotalLen()), …)` sends.
abbrev pub sent : MsgNode → Bytes
sent n = take n.total_len n.chars

pub one_left : (xs : Bytes) → length xs ≡ 1 → (x : ℕ) × (xs ≡ x ∷ [])
one_left [] e = absurd (omega arith)
one_left (x ∷ []) e = (x, refl)
one_left (x ∷ y ∷ xs) e = absurd (omega arith)

peek_all : (msg : Bytes) → peek msg 0 (length msg) ≡ some msg
peek_all msg = rw (append-nil msg) at (peek-append [] msg [])

module _ (a b c d e f : ℕ) (msg : Bytes) where
  abbrev head : Bytes
  head = a ∷ b ∷ c ∷ d ∷ e ∷ f ∷ []

  -- The zero goes behind the body, and the array is full.
  terminate :
      (free : Bytes) (at : ℕ)
      → length free ≡ 1
      → at ≡ length msg + 6
      → poke ((head ++ msg) ++ free) at 0 ≡ some (head ++ (msg ++ 0 ∷ []))
  terminate free at one e_at =
      let (x, is_one) = one_left free one in
      rw (is_one, let q : at ≡ length (head ++ msg) = omega arith in q)
        (poke-append (head ++ msg) x 0 [])

  copies :
      (free : Bytes) (at : ℕ) (build : Bytes → MsgNode)
      → length free ≡ length msg + 7
      → at ≡ length msg + 6
      → (do
        with_id ← memcpy free 0 (a ∷ b ∷ [])
        with_head ← memcpy with_id head_id_len (c ∷ d ∷ e ∷ f ∷ [])
        body ← peek msg 0 (length msg)
        with_body ← memcpy with_head head_total_len body
        chars ← poke with_body at 0
        some (build chars))
        ≡ some (build (head ++ (msg ++ 0 ∷ [])))
  copies free at build size e_at =
      rw
        (
          memcpy-append [] free (a ∷ b ∷ []) (omega arith),
          memcpy-append (a ∷ b ∷ []) (drop 2 free) (c ∷ d ∷ e ∷ f ∷ [])
              (omega (arith, length-drop 2 free)),
          peek_all msg,
          memcpy-append head (drop 4 (drop 2 free)) msg
              (omega (arith, length-drop 2 free, length-drop 4 (drop 2 free))),
        )
        (rw (terminate (drop (length msg) (drop 4 (drop 2 free))) at one e_at))
    where
      one : length (drop (length msg) (drop 4 (drop 2 free))) ≡ 1
      one = omega (
        arith,
        length-drop 2 free,
        length-drop 4 (drop 2 free),
        length-drop (length msg) (drop 4 (drop 2 free)),
      )

-- The node that `SendNode` makes of a message.
unfoldable pub layout : Bytes → ℕ → MsgNode
layout msg msg_id = record {
  cur_len = 0;
  total_len = length msg + 6;
  chars = wire msg_id msg ++ 0 ∷ [];
  msg_id = msg_id;
}

pub sent-layout : (msg : Bytes) (msg_id : ℕ) → sent (layout msg msg_id) ≡ wire msg_id msg
unfolding layout
sent-layout msg msg_id =
    let q : length msg + 6 ≡ length (wire msg_id msg) = omega arith in
    rw q (take-append (wire msg_id msg) (0 ∷ []))

module _ (h : Host) (law : IsHost h) (msg : Bytes) (msg_id : ℕ) where
  pub send_node-layout :
      msg_id < 2 ^ 16
      → length msg + 7 < 2 ^ 32
      → send_node h msg (length msg) msg_id ≡ some (layout msg msg_id)
  unfolding send_node layout
  send_node-layout id_short fits =
      rw
        (
          law.short_out msg_id id_short,
          law.long_out (length msg) (omega arith),
          let e : (length msg + 6) % 2 ^ 32 ≡ length msg + 6 = omega arith in e,
        )
        (copies (msg_id / 256 % 256) (msg_id % 256) (length msg / 16777216 % 256)
          (length msg / 65536 % 256) (length msg / 256 % 256) (length msg % 256) msg
          (h.new_char ((length msg + 6 + 1) % 2 ^ 32)) (length msg + 6)
          (λ chars. record {
            cur_len = 0;
            total_len = length msg + 6;
            chars = chars;
            msg_id = msg_id;
          })
          (omega (arith, law.length-new_char ((length msg + 6 + 1) % 2 ^ 32))) refl)
