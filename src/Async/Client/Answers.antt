-- ===== src/Async/Client/Answers.antt =====
-- The answers that `testRecv` of src/02_async/RunClient.cpp reads.
use boost_asio.Common.{
  lt_or_le, ◌⊎◌, ℕ, zero, suc, ◌≤◌, ◌<◌, ◌%◌, ◌/◌, ◌^◌, ◌≡◌, refl, sym, ap, ◌∙◌, [], ◌∷◌, ◌++◌,
  Bytes, length, take, drop, take-append, drop-append, length-drop, length-take, length-append,
  le→leb, arith,
}
use mathlib.Core.List.{append-nil, append_assoc}
use boost_asio.StringTool.Affixes.{HasNoZero}
use boost_asio.Memory.{memcpy, peek, memcpy-append}
use boost_asio.Wire.Host.{Host, IsHost, bytes16, value16-bytes, load16}
use boost_asio.Async.Wire.{ok, fault, ◌>>=◌, checked, head_total_len, max_len}
use boost_asio.Async.Layout.{signed16-pos}
use boost_asio.Async.Client.{zeros, buffered, read, text_in, test_recv}
use boost_asio.Async.Client.Buffers.{length-zeros}

pub zeros_left : (n m : ℕ) → n < m → (t : Bytes) × (drop n (zeros m) ≡ 0 ∷ t)
unfolding zeros
zeros_left n zero h = absurd (omega arith)
zeros_left zero (suc m) h = (zeros m, refl)
zeros_left (suc n) (suc m) h = zeros_left n m (omega arith)

text_in-zero : (s rest : Bytes) → HasNoZero s → text_in (s ++ 0 ∷ rest) ≡ ok s
unfolding text_in
text_in-zero [] rest free = refl
text_in-zero (b ∷ s) rest free = ground (arith, text_in-zero s rest free.1)

text_in-none : (s : Bytes) → HasNoZero s → text_in s ≡ fault
unfolding text_in
text_in-none [] free = refl
text_in-none (b ∷ s) free = ground (arith, text_in-none s free.1)

read-front : (xs ys : Bytes) (n : ℕ) → n ≡ length xs → read n (xs ++ ys) ≡ ok (xs, ys)
unfolding read
read-front xs ys n h = rw (h) (
    rw
      (
        le→leb (length xs) (length (xs ++ ys)) (omega (arith, length-append xs ys)),
        take-append xs ys,
        drop-append xs ys,
      )
      refl)

take_then_drop : (n : ℕ) (xs : Bytes) → take n xs ++ drop n xs ≡ xs
take_then_drop zero xs = refl
take_then_drop (suc n) [] = refl
take_then_drop (suc n) (b ∷ xs) = ap (λ t. b ∷ t) (take_then_drop n xs)

pub take-HasNoZero : (n : ℕ) (xs : Bytes) → HasNoZero xs → HasNoZero (take n xs)
take-HasNoZero zero xs free = tt
take-HasNoZero (suc n) [] free = tt
take-HasNoZero (suc n) (b ∷ xs) free = (free.0, take-HasNoZero n xs free.1)

pub no_more : (xs : Bytes) → length xs ≡ 0 → xs ≡ []
no_more [] h = refl
no_more (b ∷ xs) h = absurd (omega arith)

module _ (h : Host) (law : IsHost h) where
  read_short : (v : ℕ) → v < 2 ^ 16 → h.network_to_host_short (load16 h.order (bytes16 v)) ≡ v
  read_short v fits =
      law.short_in (v / 256 % 256) (v % 256) (omega arith) (omega arith) ∙ value16-bytes v fits

  -- What is done with the body, after the header has been read
  with_length :
      (msg_id n : ℕ) (stream : Bytes)
      → msg_id < 2 ^ 16
      → n < 2 ^ 15
      → test_recv h ((bytes16 msg_id ++ bytes16 n) ++ stream) ≡ (do
        (body, left) ← read (length (take n (zeros max_len))) stream
        receive_buf ← checked (memcpy (zeros max_len) 0 body)
        printed ← text_in receive_buf
        ok ((msg_id, n, printed), left))
  unfolding test_recv peek buffered
  with_length msg_id n stream id_short n_small =
      rw
        (
          read-front (bytes16 msg_id ++ bytes16 n) stream head_total_len refl,
          read_short msg_id id_short,
          read_short n (omega arith),
          signed16-pos n n_small,
        )
        refl

  -- An answer with no zero among its bytes, of fewer than MAX_LEN bytes, is printed as it was sent. Of
  -- a longer one so many bytes are read that no zero is left in the array, and the text that is printed
  -- goes on behind it.
  pub test_recv-wire :
      (msg_id : ℕ) (msg rest : Bytes)
      → msg_id < 2 ^ 16
      → HasNoZero msg
      → length msg < 2 ^ 15
      → ((length msg < max_len)
          × (test_recv h ((bytes16 msg_id ++ bytes16 (length msg)) ++ (msg ++ rest))
              ≡ ok ((msg_id, length msg, msg), rest)))
        ⊎ ((max_len ≤ length msg)
            × (test_recv h ((bytes16 msg_id ++ bytes16 (length msg)) ++ (msg ++ rest)) ≡ fault))
  test_recv-wire msg_id msg rest id_short free short = lt_or_le (length msg) max_len (
    (λ (fits : length msg < max_len).
        let (t, left) = zeros_left (length msg) max_len fits in
        with_length msg_id (length msg) (msg ++ rest) id_short short
        ∙ rw
            (
              read-front msg rest (length (take (length msg) (zeros max_len)))
                  (omega (arith, length-take (length msg) (zeros max_len), length-zeros max_len)),
              memcpy-append [] (zeros max_len) msg (omega (arith, length-zeros max_len)),
              left,
              text_in-zero msg t free,
            )
            refl),
    (λ (long : max_len ≤ length msg).
        let xs = take max_len msg in
        let ys = drop max_len msg in
        let full : length xs ≡ max_len = omega (arith, length-take max_len msg) in
        with_length msg_id (length msg) (msg ++ rest) id_short short
        ∙ rw
            (
              sym (ap (λ t. t ++ rest) (take_then_drop max_len msg)) ∙ append_assoc xs ys rest,
              read-front xs (ys ++ rest) (length (take (length msg) (zeros max_len)))
                  (omega (arith, length-take (length msg) (zeros max_len), length-zeros max_len)),
              memcpy-append [] (zeros max_len) xs (omega (arith, length-zeros max_len)),
              no_more (drop (length xs) (zeros max_len))
                  (omega (arith, length-drop (length xs) (zeros max_len), length-zeros max_len)),
              append-nil xs,
              text_in-none xs (take-HasNoZero max_len msg free),
            )
            refl),
  )
