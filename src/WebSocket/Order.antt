-- ===== src/WebSocket/Order.antt =====
-- The order of the messages that src/04_beast-websocket/Connection.cpp sends.
use mathlib.Core.List.{append_assoc, append-nil}
use boost_asio.Common.{
  ℕ, ◌<◌, ◌≡◌, refl, sym, ap, ◌∙◌, Bool, true, false, Option, none, some, ◌>>=◌, List, [], ◌∷◌,
  ◌++◌, Bytes, length, get_elem?, get_elem?-append_end, get_elem?-append_old, leb, arith,
}
use boost_asio.WebSocket.{
  Source, argument, queue_front, Connection, Memory, new_connection, new_string, string_at,
  async_send, buffer_of, next_message, write_completes,
}

-- A string that its caller keeps is sent, or the write in progress, if there is one, succeeds.
pub data Event : Type 0 where
  says : Bytes → Event
  writes : Event

unfoldable pub step : Event → Connection → Memory → Option (Connection × Memory)
unfolding new_string
step (says s) c m = let (i, m') = new_string s m in do c' ← async_send i c m'; some (c', m')
step writes c m = elim c.writing [ none ↦ some (c, m) | some _ ↦ write_completes false c m ]

unfoldable pub run : List Event → Connection → Memory → Option (Connection × Memory)
run [] c m = some (c, m)
run (e ∷ es) c m = do (c', m') ← step e c m; run es c' m'

unfoldable pub said : List Event → List Bytes
said [] = []
said (says s ∷ es) = s ∷ said es
said (writes ∷ es) = said es

-- Between two events, a write is in progress for the front of the queue, if there is one.
data InProgress : List Bytes → Option Source → Memory → Type 0 where
  idle : {m : Memory} → InProgress [] none m
  of_argument :
      {m : Memory} (i : ℕ) (s : Bytes) (rest : List Bytes)
      → get_elem? m.strings i ≡ some (some s)
      → i < length m.strings
      → InProgress (s ∷ rest) (some (argument i)) m
  of_front :
      {m : Memory} (s : Bytes) (rest : List Bytes) → InProgress (s ∷ rest) (some queue_front) m

Outcome : Event → Connection → Memory → Type 0
Outcome e c m =
    (c' : Connection) × (m' : Memory) × (step e c m ≡ some (c', m'))
    × InProgress c'.send_queue c'.writing m'
    × (m'.delivered ++ c'.send_queue ≡ (m.delivered ++ c.send_queue) ++ said (e ∷ []))

longer : (xs : List (Option Bytes)) (x : Option Bytes) → length xs < length (xs ++ x ∷ [])
longer [] x = omega arith
longer (y ∷ xs) x = omega (arith, longer xs x)

another : (front s : Bytes) (rest : List Bytes) → leb 2 (length (front ∷ rest ++ s ∷ [])) ≡ true
another front s [] = refl
another front s (next ∷ rest) = ground arith

waits :
    (uid : ℕ) (front s : Bytes) (rest : List Bytes) (w : Option Source) (reading : Bool)
    (m : Memory)
    → step
        (says s)
        (record { uid = uid; send_queue = front ∷ rest; writing = w; reading = reading })
        m
      ≡ some (
        record { uid = uid; send_queue = front ∷ rest ++ s ∷ []; writing = w; reading = reading },
        record m { strings = m.strings ++ some s ∷ [] },
      )
unfolding step new_string async_send string_at
waits uid front s rest w reading m =
    rw (get_elem?-append_end m.strings (some s)) rw (another front s rest) refl

run-says :
    (s : Bytes) (uid : ℕ) (q : List Bytes) (w : Option Source) (reading : Bool) (m : Memory)
    → InProgress q w m
    → Outcome (says s) (record { uid = uid; send_queue = q; writing = w; reading = reading }) m
unfolding step new_string async_send string_at said Outcome
run-says s uid q w reading m idle = (
  record {
    uid = uid;
    send_queue = s ∷ [];
    writing = some (argument (length m.strings));
    reading = reading;
  },
  record m { strings = m.strings ++ some s ∷ [] },
  (rw (get_elem?-append_end m.strings (some s)) refl),
  of_argument (length m.strings) s [] (get_elem?-append_end m.strings (some s))
      (longer m.strings (some s)),
  (rw (append-nil m.delivered) refl),
)
run-says s uid q w reading m (of_argument i front rest at below) = (
  record {
    uid = uid;
    send_queue = front ∷ rest ++ s ∷ [];
    writing = some (argument i);
    reading = reading;
  },
  record m { strings = m.strings ++ some s ∷ [] },
  waits uid front s rest (some (argument i)) reading m,
  of_argument i front (rest ++ s ∷ []) (get_elem?-append_old m.strings (some s) i below ∙ at)
      (omega (arith, longer m.strings (some s))),
  sym (append_assoc m.delivered (front ∷ rest) (s ∷ [])),
)
run-says s uid q w reading m (of_front front rest) = (
  record {
    uid = uid;
    send_queue = front ∷ rest ++ s ∷ [];
    writing = some queue_front;
    reading = reading;
  },
  record m { strings = m.strings ++ some s ∷ [] },
  waits uid front s rest (some queue_front) reading m,
  of_front front (rest ++ s ∷ []),
  sym (append_assoc m.delivered (front ∷ rest) (s ∷ [])),
)

run-writes :
    (uid : ℕ) (q : List Bytes) (w : Option Source) (reading : Bool) (m : Memory)
    → InProgress q w m
    → Outcome writes (record { uid = uid; send_queue = q; writing = w; reading = reading }) m
unfolding step write_completes buffer_of next_message string_at said Outcome
run-writes uid q w reading m idle = (
  record { uid = uid; send_queue = []; writing = none; reading = reading },
  m,
  refl,
  idle,
  sym (append-nil (m.delivered ++ [])),
)
run-writes uid q w reading m (of_argument i front [] at below) = (
  record { uid = uid; send_queue = []; writing = none; reading = reading },
  record m { delivered = m.delivered ++ front ∷ [] },
  (rw (at) refl),
  idle,
  (rw (append-nil (m.delivered ++ front ∷ [])) refl),
)
run-writes uid q w reading m (of_argument i front (next ∷ rest) at below) = (
  record { uid = uid; send_queue = next ∷ rest; writing = some queue_front; reading = reading },
  record m { delivered = m.delivered ++ front ∷ [] },
  (rw (at) refl),
  of_front next rest,
  append_assoc m.delivered (front ∷ []) (next ∷ rest)
      ∙ sym (append-nil (m.delivered ++ front ∷ next ∷ rest)),
)
run-writes uid q w reading m (of_front front []) = (
  record { uid = uid; send_queue = []; writing = none; reading = reading },
  record m { delivered = m.delivered ++ front ∷ [] },
  refl,
  idle,
  (rw (append-nil (m.delivered ++ front ∷ [])) refl),
)
run-writes uid q w reading m (of_front front (next ∷ rest)) = (
  record { uid = uid; send_queue = next ∷ rest; writing = some queue_front; reading = reading },
  record m { delivered = m.delivered ++ front ∷ [] },
  refl,
  of_front next rest,
  append_assoc m.delivered (front ∷ []) (next ∷ rest)
      ∙ sym (append-nil (m.delivered ++ front ∷ next ∷ rest)),
)

step-Outcome :
    (e : Event) (c : Connection) (m : Memory) → InProgress c.send_queue c.writing m → Outcome e c m
step-Outcome (says s) c m h = run-says s c.uid c.send_queue c.writing c.reading m h
step-Outcome writes c m h = run-writes c.uid c.send_queue c.writing c.reading m h

run-in_progress :
    (es : List Event) (c : Connection) (m : Memory)
    → InProgress c.send_queue c.writing m
    → (c' : Connection) × (m' : Memory) × (run es c m ≡ some (c', m'))
      × (m'.delivered ++ c'.send_queue ≡ (m.delivered ++ c.send_queue) ++ said es)
unfolding run said Outcome
run-in_progress [] c m h = (c, m, refl, sym (append-nil _))
run-in_progress (e ∷ es) c m h =
    let (c', m', stepped, h', so_far) = step-Outcome e c m h in
    let (c'', m'', ran, all) = run-in_progress es c' m' h' in
    (c'', m'', (rw (stepped) ran), all ∙ joined e _ _ so_far)
  where
    joined :
        (e : Event) (xs ys : List Bytes)
        → xs ≡ ys ++ said (e ∷ [])
        → xs ++ said es ≡ ys ++ said (e ∷ es)
    joined (says s) xs ys h = ap (λ l. l ++ said es) h ∙ append_assoc ys (s ∷ []) (said es)
    joined writes xs ys h = ap (λ l. l ++ said es) (h ∙ append-nil ys)

-- If the strings that are sent stay where they are, a new connection never goes through a string
-- that is gone, and what has been sent and what waits are the messages in their order.
pub run-delivered :
    (es : List Event) (uid : ℕ)
    → (c : Connection) × (m : Memory) × (run es
          (new_connection uid)
          (record { strings = []; connections = []; delivered = [] })
        ≡ some (c, m))
      × (m.delivered ++ c.send_queue ≡ said es)
unfolding new_connection
run-delivered es uid = run-in_progress es (new_connection uid) _ idle
