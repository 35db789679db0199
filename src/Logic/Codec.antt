-- ===== src/Logic/Codec.antt =====
-- What src/05_ftp/LogicSystem.cpp takes from other code: JsonCpp, the base64 decoder of another
-- project, the paths of std::filesystem, and the file system's answer to an `open`.
use boost_asio.Common.{ℕ, Bool, Option, Bytes}

pub record Libraries : Type 1 where
  pub Value : Type 0
  -- Json::Reader::parse: whether the text is JSON, and what `root` holds afterwards
  pub parse : Bytes → Bool × Value
  pub null : Value
  pub from_string : Bytes → Value
  pub from_int : ℕ → Value
  -- `root[key] = v` and `root[key]`; both throw if `root` is neither an object nor null
  pub put : Bytes → Value → Value → Option Value
  pub member : Bytes → Value → Option Value
  -- both throw where there is no conversion; an `int` is its 32-bit pattern
  pub as_string : Value → Option Bytes
  pub as_int : Value → Option ℕ
  pub to_styled_string : Value → Bytes
  -- throws on an input that is not base64
  pub base64_decode : Bytes → Option Bytes
  -- (dir / name).string()
  pub join : Bytes → Bytes → Bytes
  -- whether `ofstream::open` succeeds on the path
  pub opens : Bytes → Bool
