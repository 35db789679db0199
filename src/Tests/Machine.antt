-- ===== src/Tests/Machine.antt =====
-- A world to start from, and the wire format at a message.
use boost_asio.Common.{◌≡◌, refl, some, [], ◌∷◌, false, Bytes, arith}
use boost_asio.Wire.Host.{store16, store32}
use boost_asio.Wire.Machines.{little_endian, little_endian-IsHost, big_endian}
use boost_asio.Wire.Node.{send_node}
use boost_asio.Wire.Layout.{layout, wire, send_node-layout}
use boost_asio.Memory.{memcpy, peek, poke}
use boost_asio.World.{World}

abbrev pub empty_world : World
empty_world = record {
  nodes = [];
  sessions = (7, 7) ∷ (8, 8) ∷ [];
  inbox = record { msg_queue = []; stop = false };
}

abbrev pub hi : Bytes
hi = b'h' ∷ b'i' ∷ []

wire-hi : wire 1001 hi ≡ 3 ∷ 233 ∷ 0 ∷ 0 ∷ 0 ∷ 2 ∷ b'h' ∷ b'i' ∷ []
wire-hi = refl

send_node_runs : send_node big_endian hi 2 1001 ≡ some (layout hi 1001)
unfolding send_node memcpy peek poke store16 store32 layout
send_node_runs = refl

send_node-layout_example : send_node little_endian hi 2 1001 ≡ some (layout hi 1001)
send_node-layout_example =
    send_node-layout little_endian little_endian-IsHost hi 1001 (omega arith) (omega arith)
