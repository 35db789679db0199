-- ===== src/Wire/Machines.antt =====
-- A little endian and a big endian machine, on which the conversions swap the bytes or do nothing.
use boost_asio.Common.{ℕ, zero, suc, ◌/◌, ◌%◌, ◌≡◌, refl, ap, [], ◌∷◌, arith, Bytes, length}
use boost_asio.Wire.Host.{
  Host, IsHost, little, big, load16, load32, store16, store32, value16, value32,
}

abbrev swap16 : ℕ → ℕ
swap16 v = value16 (v % 256) (v / 256 % 256)

abbrev swap32 : ℕ → ℕ
swap32 v = value32 (v % 256) (v / 256 % 256) (v / 65536 % 256) (v / 16777216 % 256)

abbrev pub filled : ℕ → ℕ → Bytes
filled b zero = []
filled b (suc n) = b ∷ filled b n

pub length-filled : (b n : ℕ) → length (filled b n) ≡ n
length-filled b zero = refl
length-filled b (suc n) = ap suc (length-filled b n)

abbrev pub little_endian : Host
little_endian = record {
  order = little;
  network_to_host_short = swap16;
  network_to_host_long = swap32;
  host_to_network_short = swap16;
  host_to_network_long = swap32;
  new_char = filled 0xaa;
}

abbrev pub big_endian : Host
big_endian = record {
  order = big;
  network_to_host_short = λ v. v;
  network_to_host_long = λ v. v;
  host_to_network_short = λ v. v;
  host_to_network_long = λ v. v;
  new_char = filled 0;
}

pub little_endian-IsHost : IsHost little_endian
unfolding load16 load32 store16 store32
little_endian-IsHost = record {
  short_out = λ v h. ground arith;
  long_out = λ v h. ground arith;
  short_in = λ a b ha hb. omega arith;
  long_in = λ a b c d ha hb hc hd. omega arith;
  length-new_char = length-filled 0xaa;
}

pub big_endian-IsHost : IsHost big_endian
unfolding load16 load32 store16 store32
big_endian-IsHost = record {
  short_out = λ v h. refl;
  long_out = λ v h. refl;
  short_in = λ a b ha hb. refl;
  long_in = λ a b c d ha hb hc hd. refl;
  length-new_char = length-filled 0;
}
