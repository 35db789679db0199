-- ===== src/Session/Fifo.antt =====
-- What the sending side of a session promises: a bounded queue of messages, sent one at a time in
-- the order in which they were accepted.
use boost_asio.Common.{ℕ, List, [], ◌∷◌, ◌++◌, leb, if◌then◌else◌, length, Bytes}

pub record Fifo : Type 0 where
  -- accepted and not yet sent in full
  pub pending : List Bytes
  pub out : List Bytes

abbrev pub idle : Fifo
idle = record { pending = []; out = [] }

unfoldable pub offer : ℕ → Bytes → Fifo → Fifo
offer capacity b f =
    if leb capacity (length f.pending) then f else record f { pending = f.pending ++ b ∷ [] }

unfoldable pub advance : Fifo → Fifo
advance f = elim f.pending [ [] ↦ f | b ∷ rest ↦ record { pending = rest; out = f.out ++ b ∷ [] } ]
