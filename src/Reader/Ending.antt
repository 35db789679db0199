-- ===== src/Reader/Ending.antt =====
-- The coroutine of src/05_ftp/Session.cpp ends on every connection that ends.
use boost_asio.Common.{
  ℕ, zero, suc, ◌<◌, ◌≡◌, refl, ap, ◌∙◌, inl, inr, ◌⊎◌, some, none, Option, Option-cases,
  Bool-cases, ◌>>=◌, bind-eq-some, Bytes, [], le→leb, length, length-drop, drop, leb, leb→le, arith,
}
use boost_asio.Wire.Host.{Host}
use boost_asio.World.{World}
use boost_asio.Session.{Session}
use boost_asio.Reader.{
  Reader, Co, reading_head, reading_msg, returned, received, threw, resume_at, wanted, next_read,
  feed_once, feed,
}

-- A read of no byte, and an exception, end the coroutine.
resume_at-none :
    (h : Host) (co : Co) (bytes : Bytes) (s : Session) (w : World) {r : Reader}
    → length bytes ≡ 0
    → resume_at h co (received bytes) s w ≡ some r
    → r.co ≡ returned
unfolding resume_at
resume_at-none h returned bytes s w none_read e = ground arith
resume_at-none h reading_head bytes s w none_read e = ground arith
resume_at-none h reading_msg bytes s w none_read e = ground arith

resume_at-threw :
    (h : Host) (co : Co) (s : Session) (w : World) {r : Reader}
    → resume_at h co threw s w ≡ some r
    → r.co ≡ returned
unfolding resume_at
resume_at-threw h returned s w e = ground arith
resume_at-threw h reading_head s w e = ground arith
resume_at-threw h reading_msg s w e = ground arith

abbrev Progress : Bytes → Bytes → Reader → Type 0
Progress stream rest r = (r.co ≡ returned) ⊎ (length rest < length stream)

resume_at-Progress :
    (h : Host) (n : ℕ) (stream : Bytes) (co : Co) (s : Session) (w : World) {r : Reader}
    → resume_at h co (next_read n stream) s w ≡ some r
    → Progress stream (drop n stream) r
unfolding next_read
resume_at-Progress h zero stream co s w e =
    inl (resume_at-none h co [] s w refl (rw (le→leb 0 (length stream) (omega arith)) at e))
resume_at-Progress h (suc n) stream co s w e = elim (Bool-cases (leb (suc n) (length stream))) [
  | inl there ↦
      inr (omega (arith, length-drop (suc n) stream, leb→le (suc n) (length stream) there))
  | inr short ↦ inl (resume_at-threw h co s w (rw short at e))
]

Progress-eq :
    (stream d rest : Bytes) (r : Reader) {r' : Reader}
    → Progress stream d r
    → ◌≡◌ {A = Option (Bytes × Reader)} (some (d, r)) (some (rest, r'))
    → Progress stream rest r'
Progress-eq stream d rest r (inl e) q = inl (ground arith)
Progress-eq stream d rest r (inr l) q = inr (ground arith)

feed_once-Progress :
    (h : Host) (stream rest : Bytes) (r : Reader) {r' : Reader}
    → feed_once h stream r ≡ some (rest, r')
    → Progress stream rest r'
unfolding feed_once
feed_once-Progress h stream rest r {r'} e =
    let (n, _, e₁) = bind-eq-some (wanted r) (λ n. feed_rest n) e in
    let (r₁, e₂, e₃) =
      bind-eq-some (resume_at h r.co (next_read n stream) r.session r.world)
        (λ r₁. some (drop n stream, r₁)) e₁ in
    Progress-eq stream (drop n stream) rest r₁
      (resume_at-Progress h n stream r.co r.session r.world e₂) e₃
  where
    feed_rest : ℕ → Option (Bytes × Reader)
    feed_rest n = do
      r₁ ← resume_at h r.co (next_read n stream) r.session r.world
      some (drop n stream, r₁)

-- Once it has returned, the coroutine does nothing more.
pub feed-returned :
    (h : Host) (fuel : ℕ) (stream : Bytes) (s : Session) (w : World)
    → feed fuel h stream (record { co = returned; session = s; world = w })
      ≡ some (record { co = returned; session = s; world = w })
unfolding feed feed_once
feed-returned h zero stream s w = refl
feed-returned h (suc fuel) stream s w = feed-returned h fuel stream s w

-- A connection that has given its bytes and ends: with more resumptions than bytes, the coroutine
-- has gone through a pointer to nothing or outside an array, or it has returned.
pub feed-ends :
    (h : Host) (fuel : ℕ) (stream : Bytes) (r : Reader)
    → length stream < fuel
    → (feed fuel h stream r ≡ none)
      ⊎ ((r' : Reader) × (feed fuel h stream r ≡ some r') × (r'.co ≡ returned))
unfolding feed
feed-ends h zero stream r enough = absurd (omega arith)
feed-ends h (suc fuel) stream r enough = elim (Option-cases (feed_once h stream r)) [
  | inl fault ↦ inl (rw fault)
  | inr ((rest, r'), once) ↦ elim (feed_once-Progress h stream rest r once) [
    | inl over ↦
        let q : r' ≡ record { co = returned; session = r'.session; world = r'.world } =
          λ i. record { co = over i; session = r'.session; world = r'.world } in
        inr (
          record { co = returned; session = r'.session; world = r'.world },
          rw once (ap (feed fuel h rest) q ∙ feed-returned h fuel rest r'.session r'.world),
          refl,
        )
    | inr shorter ↦ rw once (feed-ends h fuel rest r' (omega arith))
  ]
]
