-- ===== src/Async/Layout.antt =====
-- What `SendNode` of src/02_async/MsgNode.h leaves in its array, and for which lengths it leaves
-- anything.
use boost_asio.Common.{
  ◌⊎◌, ℕ, suc, ◌+◌, ◌-◌, ◌≤◌, ◌<◌, ◌^◌, ◌%◌, ◌≡◌, ◌≢◌, refl, some, [], ◌∷◌, ◌++◌, arith, Bytes,
  length, take, drop, length-drop, length-take, le→leb, ltb, ltb→lt, ltb→le, inl, inr, Bool-cases,
  lt_or_le, ◌∙◌, ◌/◌,
}
use boost_asio.Memory.{memcpy, peek, poke, memcpy-append, poke-append}
use boost_asio.Wire.Host.{Host, IsHost, bytes16}
use boost_asio.Wire.Layout.{one_left}
use boost_asio.Async.Wire.{
  ok, throws, fault, ◌>>=◌, checked, pos, negsuc, signed16, MsgNode, msg_node, new_chars,
  text_chars, terminate, send_node, head_total_len, head_id_len,
}

-- id, length, body
abbrev pub wire : ℕ → Bytes → Bytes
wire msg_id msg = bytes16 msg_id ++ (bytes16 (length msg) ++ msg)

unfoldable pub layout : Bytes → ℕ → MsgNode
layout msg msg_id = record {
  cur_len = 0;
  total_len = pos (length msg + 4);
  chars = wire msg_id msg ++ 0 ∷ [];
  msg_id = msg_id;
}

module _ (a b c d : ℕ) (msg : Bytes) where
  abbrev head : Bytes
  head = a ∷ b ∷ c ∷ d ∷ []

  ended :
      (free : Bytes) (at : ℕ)
      → length free ≡ 1
      → at ≡ length msg + 4
      → poke ((head ++ msg) ++ free) at 0 ≡ some (head ++ (msg ++ 0 ∷ []))
  ended free at one e_at =
      let (x, is_one) = one_left free one in
      rw (is_one, let q : at ≡ length (head ++ msg) = omega arith in q)
        (poke-append (head ++ msg) x 0 [])

  copies :
      (free text : Bytes) (n at : ℕ) (build : Bytes → MsgNode)
      → peek text 0 n ≡ some msg
      → length free ≡ length msg + 5
      → at ≡ length msg + 4
      → (do
        with_id ← checked (memcpy free 0 (a ∷ b ∷ []))
        with_head ← checked (memcpy with_id head_id_len (c ∷ d ∷ []))
        body ← checked (peek text 0 n)
        with_body ← checked (memcpy with_head head_total_len body)
        chars ← checked (poke with_body at 0)
        ok (build chars))
        ≡ ok (build (head ++ (msg ++ 0 ∷ [])))
  copies free text n at build body size e_at =
      rw
        (
          memcpy-append [] free (a ∷ b ∷ []) (omega arith),
          memcpy-append (a ∷ b ∷ []) (drop 2 free) (c ∷ d ∷ []) (omega (arith, length-drop 2 free)),
          body,
          memcpy-append head (drop 2 (drop 2 free)) msg
              (omega (arith, length-drop 2 free, length-drop 2 (drop 2 free))),
        )
        (rw (ended (drop (length msg) (drop 2 (drop 2 free))) at one e_at))
    where
      one : length (drop (length msg) (drop 2 (drop 2 free))) ≡ 1
      one = omega (
        arith,
        length-drop 2 free,
        length-drop 2 (drop 2 free),
        length-drop (length msg) (drop 2 (drop 2 free)),
      )

pub peek_start : (msg : Bytes) (n : ℕ) → n ≤ length msg → peek msg 0 n ≡ some (take n msg)
unfolding peek
peek_start msg n h = rw (from_start n, le→leb n (length msg) h) refl
  where
    from_start : (n : ℕ) → 0 + n ≡ n
    from_start n = omega arith

pub signed16-pos : (n : ℕ) → n < 2 ^ 15 → signed16 n ≡ pos n
signed16-pos n h = ground arith

pub signed16-negsuc : (n : ℕ) → 2 ^ 15 ≤ n → signed16 n ≡ negsuc (2 ^ 16 - n - 1)
signed16-negsuc n h = ground arith

pub text_chars-negative : (msg : Bytes) (n : ℕ) → 2 ^ 15 ≤ n → text_chars msg (signed16 n) ≡ fault
unfolding text_chars
text_chars-negative msg n h = rw (signed16-negsuc n h) refl

pub new_chars-negative :
    (h : Host) (n : ℕ) → 2 ^ 15 ≤ n → n < 2 ^ 16 - 1 → new_chars h (signed16 n) ≡ throws
unfolding new_chars
new_chars-negative h n low high =
    let e : 2 ^ 16 - n - 1 ≡ suc (2 ^ 16 - n - 2) = omega arith in
    rw (signed16-negsuc n low, e) refl

module _ (h : Host) where
  -- Where the length of the text is negative as a `short`, some copy faults if no array throws.
  send_node-negative :
      (msg : Bytes) (n msg_id : ℕ) (node : MsgNode)
      → 2 ^ 15 ≤ n
      → send_node h msg n msg_id ≢ ok node
  unfolding send_node
  send_node-negative msg n msg_id node low = ground (arith, text_chars-negative msg n low)

  send_node-no_array :
      (msg : Bytes) (n msg_id : ℕ) (node : MsgNode)
      → n < 2 ^ 15
      → 2 ^ 15 ≤ n + 4
      → send_node h msg n msg_id ≢ ok node
  unfolding send_node msg_node
  send_node-no_array msg n msg_id node below over =
      let e : (n + 4) % 2 ^ 16 ≡ n + 4 = omega arith in
      rw (e, new_chars-negative h (n + 4) over (omega arith)) (λ h. absurd (cc))

module _ (h : Host) (law : IsHost h) where
  send_node-text :
      (msg body : Bytes) (n msg_id : ℕ)
      → peek msg 0 n ≡ some body
      → n ≡ length body
      → msg_id < 2 ^ 16
      → n + 4 < 2 ^ 15
      → send_node h msg n msg_id ≡ ok (layout body msg_id)
  unfolding send_node msg_node new_chars text_chars terminate layout
  send_node-text msg body n msg_id at size id_short fits =
      let e : (n + 4) % 2 ^ 16 ≡ n + 4 = omega arith in
      rw
        (
          e,
          signed16-pos (n + 4) fits,
          signed16-pos n (omega arith),
          law.short_out msg_id id_short,
          law.short_out n (omega arith),
        )
        (copies (msg_id / 256 % 256) (msg_id % 256) (n / 256 % 256) (n % 256) body
            (h.new_char (n + 4 + 1)) msg n (n + 4)
            (λ chars. record {
              cur_len = 0;
              total_len = pos (n + 4);
              chars = chars;
              msg_id = msg_id;
            })
            at (omega (arith, law.length-new_char (n + 4 + 1))) (omega arith)
          ∙ rw (size) refl)

  pub send_node-branches :
      (msg : Bytes) (msg_id : ℕ)
      → msg_id < 2 ^ 16
      → (length msg % 2 ^ 16 + 4 < 2 ^ 15
          → send_node h msg (length msg % 2 ^ 16) msg_id
            ≡ ok (layout (take (length msg % 2 ^ 16) msg) msg_id))
        × (2 ^ 15 ≤ length msg % 2 ^ 16 + 4
            → (node : MsgNode) → send_node h msg (length msg % 2 ^ 16) msg_id ≢ ok node)
  send_node-branches msg msg_id id_short = (
    (λ (fits : length msg % 2 ^ 16 + 4 < 2 ^ 15).
        send_node-text msg (take (length msg % 2 ^ 16) msg) (length msg % 2 ^ 16) msg_id
          (peek_start msg (length msg % 2 ^ 16) (omega arith))
          (omega (arith, length-take (length msg % 2 ^ 16) msg)) id_short fits),
    (λ (over : 2 ^ 15 ≤ length msg % 2 ^ 16 + 4) (node : MsgNode).
        elim (Bool-cases (ltb (length msg % 2 ^ 16) (2 ^ 15))) [
          | inl below ↦
              send_node-no_array h msg (length msg % 2 ^ 16) msg_id node (ltb→lt _ _ below) over
          | inr negative ↦
              send_node-negative h msg (length msg % 2 ^ 16) msg_id node (ltb→le _ _ negative)
        ]),
  )

  -- `Send` of a text gives `SendNode` its length modulo 2^16. Where that is below 2^15 - 4, the
  -- message that is built has so many of the text's bytes as its body, behind the id and the
  -- length, most significant byte first, and a terminator; so a text below that length is sent
  -- whole, and one that is longer by a multiple of 2^16 is cut. From 2^15 - 4 on, no message is
  -- built: an exception is raised or memory outside an array is used.
  pub send_node-cut :
      (msg : Bytes) (msg_id : ℕ)
      → msg_id < 2 ^ 16
      → ((length msg % 2 ^ 16 + 4 < 2 ^ 15)
          × (send_node h msg (length msg % 2 ^ 16) msg_id
              ≡ ok (layout (take (length msg % 2 ^ 16) msg) msg_id)))
        ⊎ ((2 ^ 15 ≤ length msg % 2 ^ 16 + 4)
            × ((node : MsgNode) → send_node h msg (length msg % 2 ^ 16) msg_id ≢ ok node))
  send_node-cut msg msg_id id_short =
      lt_or_le (length msg % 2 ^ 16 + 4) (2 ^ 15) (send_node-branches msg msg_id id_short)
