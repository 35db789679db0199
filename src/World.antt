-- ===== src/World.antt =====
-- What the sessions of src/05_ftp share: the receive nodes, which a session and the logic system
-- both hold by `shared_ptr`, the server's table of sessions, and the logic system's queue.
use boost_asio.Common.{ℕ, List, [], ◌∷◌, ◌++◌, length}
use boost_asio.Map.{erase, nat_eq}
use boost_asio.Inbox.{Inbox}
use boost_asio.Wire.Node.{MsgNode}

pub record World : Type 0 where
  -- a `shared_ptr<MsgNode>` is an index into this list
  pub nodes : List MsgNode
  -- `_sessions`: the id of a session, and the session, named by its id too
  pub sessions : List (ℕ × ℕ)
  pub inbox : Inbox

-- make_shared<RecvNode>
unfoldable pub alloc : MsgNode → World → ℕ × World
alloc n w = (length w.nodes, record w { nodes = w.nodes ++ n ∷ [] })

-- Server::RemoveSession
unfoldable pub remove_session : ℕ → World → World
remove_session id w = record w { sessions = erase id w.sessions }
