-- ===== src/Async/Client/Buffers.antt =====
-- The arrays of src/02_async/RunClient.cpp, of MAX_LEN chars each, and the messages that fit.
use boost_asio.Common.{
  sym, lt_or_le, ◌⊎◌, ℕ, zero, suc, ◌+◌, ◌≤◌, ◌<◌, ◌%◌, ◌^◌, ◌≡◌, refl, ap, ◌∙◌, none, [], ◌++◌,
  Bytes, length, take, drop, take-append, length-drop, length-take, lt→leb, ltb, ltb→lt, ltb→le,
  Bool-cases, inl, inr, arith,
}
use boost_asio.Memory.{memcpy, memcpy-append}
use boost_asio.Wire.Host.{Host, IsHost, store16, bytes16}
use boost_asio.Async.Wire.{
  Outcome, ok, fault, ◌>>=◌, checked, pos, head_id_len, head_total_len, max_len,
}
use boost_asio.Async.Layout.{wire, peek_start, signed16-pos, text_chars-negative}
use boost_asio.Async.Client.{zeros, buffered, with_head_len, send_text}

pub length-zeros : (n : ℕ) → length (zeros n) ≡ n
unfolding zeros
length-zeros zero = refl
length-zeros (suc n) = ap suc (length-zeros n)

outside :
    (to : Bytes) (at : ℕ) (from : Bytes) → length to < at + length from → memcpy to at from ≡ none
unfolding memcpy
outside to at from h = rw (lt→leb (at + length from) (length to) h) refl

room : (n : ℕ) → n + 4 ≤ max_len → n ≤ length (drop 2 (drop 2 (zeros max_len)))
room n h = omega (
  arith,
  length-zeros max_len,
  length-drop 2 (zeros max_len),
  length-drop 2 (drop 2 (zeros max_len)),
)

taken : (xs ys : Bytes) (n : ℕ) → n ≡ length xs → take n (xs ++ ys) ≡ xs
taken xs ys n h = rw (h) (take-append xs ys)

module _ (h : Host) (law : IsHost h) where
  -- The header on the stack, whatever follows
  with_header :
      {A : Type 0} (msg_id n : ℕ) (f : Bytes → Outcome A)
      → msg_id < 2 ^ 16
      → n < 2 ^ 16
      → (do
        with_id ←
            checked (memcpy (zeros max_len) 0 (store16 h.order (h.host_to_network_short msg_id)))
        with_head ←
            checked (memcpy with_id head_id_len (store16 h.order (h.host_to_network_short n)))
        f with_head)
        ≡ f ((bytes16 msg_id ++ bytes16 n) ++ drop 2 (drop 2 (zeros max_len)))
  with_header msg_id n f id_short n_short =
      rw
        (
          law.short_out msg_id id_short,
          law.short_out n n_short,
          memcpy-append [] (zeros max_len) (bytes16 msg_id) (omega (arith, length-zeros max_len)),
          memcpy-append (bytes16 msg_id) (drop 2 (zeros max_len)) (bytes16 n)
              (omega (arith, length-zeros max_len, length-drop 2 (zeros max_len))),
        )
        refl

  -- A text is sent behind its id and its length, which is taken modulo 2^16, with as many of its bytes
  -- as that says, if those are at most MAX_LEN - 4: so a text of that size is sent whole. With more,
  -- what is written goes behind the end of the array on the stack, or the text is copied from outside
  -- itself.
  pub send_text-fits :
      (msg : Bytes) (msg_id : ℕ)
      → msg_id < 2 ^ 16
      → ((max_len < length msg % 2 ^ 16 + 4) × (send_text h msg msg_id ≡ fault))
        ⊎ ((length msg % 2 ^ 16 + 4 ≤ max_len)
            × (send_text h msg msg_id ≡ ok (wire msg_id (take (length msg % 2 ^ 16) msg))))
  unfolding send_text buffered with_head_len
  send_text-fits msg msg_id id_short = lt_or_le max_len (length msg % 2 ^ 16 + 4) (
    (λ (large : max_len < length msg % 2 ^ 16 + 4).
        elim (Bool-cases (ltb (length msg % 2 ^ 16) (2 ^ 15))) [
          | inl positive ↦
              let n = length msg % 2 ^ 16 in
              rw (signed16-pos n (ltb→lt n (2 ^ 15) positive), peek_start msg n (omega arith))
                (with_header msg_id n
                    (λ with_head.
                      checked (memcpy with_head head_total_len (take n msg)) >>= λ send_msg.
                      ok (buffered send_msg (pos (n + head_total_len))))
                    id_short (omega arith)
                  ∙ rw
                      (outside ((bytes16 msg_id ++ bytes16 n) ++ drop 2 (drop 2 (zeros max_len)))
                        head_total_len (take n msg)
                        (omega (
                          arith,
                          length-take n msg,
                          length-zeros max_len,
                          length-drop 2 (zeros max_len),
                          length-drop 2 (drop 2 (zeros max_len)),
                        )))
                      refl)
          | inr negative ↦
              let n = length msg % 2 ^ 16 in
              rw (text_chars-negative msg n (ltb→le n (2 ^ 15) negative))
                (with_header msg_id n (λ with_head. fault) id_short (omega arith))
        ]),
    (λ (fits : length msg % 2 ^ 16 + 4 ≤ max_len).
        let n = length msg % 2 ^ 16 in
        let body = take n msg in
        let size : length body ≡ n = omega (arith, length-take n msg) in
        rw (signed16-pos n (omega arith), peek_start msg n (omega arith))
          (with_header msg_id n
              (λ with_head. checked (memcpy with_head head_total_len body) >>= λ send_msg.
                ok (buffered send_msg (pos (n + head_total_len))))
              id_short (omega arith)
            ∙ rw
                (memcpy-append (bytes16 msg_id ++ bytes16 n) (drop 2 (drop 2 (zeros max_len))) body
                  (omega (arith, room n (omega arith))))
                (ap ok (
                  taken (bytes16 msg_id ++ (bytes16 n ++ body))
                    (drop (length body) (drop 2 (drop 2 (zeros max_len)))) (n + 4) (omega arith)
                  ∙ ap (λ k. bytes16 msg_id ++ (bytes16 k ++ body)) (sym size))))),
  )
