-- ===== src/Transports/Wsgi/Mailbox.antt =====
-- fluxrpc/transports/wsgi.py, fluxrpc/transports/websocket.py: the queues that the handlers and the
-- server share. A context, the queue for one reply, is named by the number of contexts made
-- before it. A `get` of an empty queue blocks, which is `none` here.
use aiotinyrpc.Base.{ℕ, suc, ◌==◌, Option, none, some, List, [], ◌∷◌, ◌++◌, if◌then◌else◌}
use aiotinyrpc.Transports.Abstract.{Bytes}

pub record Mailbox : Type 0 where
  pub messages : List (ℕ × Bytes)
  pub count : ℕ
  pub contexts : ℕ → List Bytes

-- `__init__`
unfoldable pub empty : Mailbox
empty = record { messages = []; count = 0; contexts = λ c. [] }

abbrev pub set_queue : (ℕ → List Bytes) → ℕ → List Bytes → ℕ → List Bytes
set_queue contexts c queue d = if c == d then queue else contexts d

-- `context = self._queue_class()` and `self.messages.put((context, msg))`
unfoldable pub put_message : Bytes → Mailbox → ℕ × Mailbox
put_message msg s = (
  s.count,
  record {
    messages = s.messages ++ ((s.count, msg) ∷ []);
    count = suc s.count;
    contexts = set_queue s.contexts s.count [];
  },
)

-- `receive_message`
unfoldable pub receive_message : Mailbox → Option ((ℕ × Bytes) × Mailbox)
receive_message s = elim s.messages [ [] ↦ none | x ∷ xs ↦ some (x, record s { messages = xs }) ]

-- `send_reply`
unfoldable pub send_reply : ℕ → Bytes → Mailbox → Mailbox
send_reply c reply s = record s { contexts = set_queue s.contexts c (s.contexts c ++ (reply ∷ [])) }

-- `context.get()`
unfoldable pub get_reply : ℕ → Mailbox → Option (Bytes × Mailbox)
get_reply c s = elim (s.contexts c) [
  | [] ↦ none
  | reply ∷ replies ↦ some (reply, record s { contexts = set_queue s.contexts c replies })
]
