-- ===== src/Wire/Host.antt =====
-- What src/05_ftp/include/MsgNode.h and src/05_ftp/Session.cpp take from the machine and from
-- Boost: the byte order in which `memcpy` reads and writes an integer, what `new char[n]` holds,
-- and the conversions of `boost::asio::detail::socket_ops`. A `short` is its 16-bit pattern and
-- an `unsigned int` its 32-bit pattern.
use boost_asio.Common.{ℕ, ◌+◌, ◌*◌, ◌/◌, ◌%◌, ◌^◌, ◌<◌, ◌≡◌, [], ◌∷◌, arith, Bytes, IsByte, length}

pub data Order : Type 0 where
  little big : Order

pub record Host : Type 0 where
  pub order : Order
  pub network_to_host_short : ℕ → ℕ
  pub network_to_host_long : ℕ → ℕ
  pub host_to_network_short : ℕ → ℕ
  pub host_to_network_long : ℕ → ℕ
  -- the bytes of an array that nothing has been written to
  pub new_char : ℕ → Bytes

abbrev pub value16 : ℕ → ℕ → ℕ
value16 hi lo = hi * 256 + lo

abbrev pub value32 : ℕ → ℕ → ℕ → ℕ → ℕ
value32 a b c d = a * 16777216 + b * 65536 + c * 256 + d

-- memcpy(&x, bytes, sizeof x), for two and for four bytes
unfoldable pub load16 : Order → Bytes → ℕ
load16 little (a ∷ b ∷ _) = value16 b a
load16 big (a ∷ b ∷ _) = value16 a b
load16 _ _ = 0

unfoldable pub load32 : Order → Bytes → ℕ
load32 little (a ∷ b ∷ c ∷ d ∷ _) = value32 d c b a
load32 big (a ∷ b ∷ c ∷ d ∷ _) = value32 a b c d
load32 _ _ = 0

-- The bytes of the number, the most significant one first.
abbrev pub bytes16 : ℕ → Bytes
bytes16 v = v / 256 % 256 ∷ v % 256 ∷ []

abbrev pub bytes32 : ℕ → Bytes
bytes32 v = v / 16777216 % 256 ∷ v / 65536 % 256 ∷ v / 256 % 256 ∷ v % 256 ∷ []

-- memcpy(bytes, &x, sizeof x)
unfoldable pub store16 : Order → ℕ → Bytes
store16 little v = v % 256 ∷ v / 256 % 256 ∷ []
store16 big v = bytes16 v

unfoldable pub store32 : Order → ℕ → Bytes
store32 little v = v % 256 ∷ v / 256 % 256 ∷ v / 65536 % 256 ∷ v / 16777216 % 256 ∷ []
store32 big v = bytes32 v

-- The documented behaviour: the network's order is big endian, so the stored result of a
-- conversion has its most significant byte first, and bytes off the network convert to the
-- number that they spell so. `new char[n]` gives `n` bytes.
pub record IsHost (h : Host) : Type 0 where
  pub short_out : (v : ℕ) → v < 2 ^ 16 → store16 h.order (h.host_to_network_short v) ≡ bytes16 v
  pub long_out : (v : ℕ) → v < 2 ^ 32 → store32 h.order (h.host_to_network_long v) ≡ bytes32 v
  pub short_in :
      (a b : ℕ)
      → IsByte a
      → IsByte b
      → h.network_to_host_short (load16 h.order (a ∷ b ∷ [])) ≡ value16 a b
  pub long_in :
      (a b c d : ℕ)
      → IsByte a
      → IsByte b
      → IsByte c
      → IsByte d
      → h.network_to_host_long (load32 h.order (a ∷ b ∷ c ∷ d ∷ [])) ≡ value32 a b c d
  pub length-new_char : (n : ℕ) → length (h.new_char n) ≡ n

-- Every number that a header's length field can hold is below 2 ^ 32.
pub value32-lt :
    (a b c d : ℕ) → IsByte a → IsByte b → IsByte c → IsByte d → value32 a b c d < 2 ^ 32
value32-lt a b c d ha hb hc hd = omega arith

pub value16-bytes : (v : ℕ) → v < 2 ^ 16 → value16 (v / 256 % 256) (v % 256) ≡ v
value16-bytes v h = omega arith

pub value32-bytes :
    (v : ℕ)
    → v < 2 ^ 32
    → value32 (v / 16777216 % 256) (v / 65536 % 256) (v / 256 % 256) (v % 256) ≡ v
value32-bytes v h = omega arith
