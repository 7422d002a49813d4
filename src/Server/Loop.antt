-- ===== src/Server/Loop.antt =====
-- fluxrpc/server/__init__.py: `RPCServer.receive_one_message`, which starts a task for each message,
-- and `handle_message` as such a task, with the trace that both write. `serve_forever` is any run of
-- these steps: the tasks run in whatever order the event loop chooses. A task has one wait, for the
-- method that it calls, and does nothing before it that another task could see. Its step is what
-- comes after, so that the order of the steps is that in which the methods return; every method of
-- the model returns or raises.
use aiotinyrpc.Base.{ℕ, zero, suc, Bool, true, false, Option, none, some, List, [], ◌∷◌, ◌++◌}
use aiotinyrpc.Python.Exc.{ok, err}
use aiotinyrpc.Server.{Server, handle_message}

pub data Direction : Type 0 where
  incoming : Direction
  outgoing : Direction

-- What the transport's `receive_message` returns, and the arguments of its `send_reply`.
pub record Packet (Context Wire : Type 0) : Type 0 where
  pub context : Context
  pub channel : ℕ
  pub message : Wire

-- A server with the tasks that have not run, and what it has received, handled, sent and traced so
-- far. `trace` tells whether there is something callable to trace to.
pub record Loop (Context Wire : Type 0) : Type 0 where
  pub trace : Bool
  pub tasks : List (Packet Context Wire)
  pub received : List (Packet Context Wire)
  pub handled : List (Packet Context Wire)
  pub sent : List (Packet Context Wire)
  pub traced : List (Direction × (Context × Wire))

-- A message arrives, or the task at some place in the list runs.
pub data Event (Context Wire : Type 0) : Type 0 where
  receives : Packet Context Wire → Event Context Wire
  handles : ℕ → Event Context Wire

module _ {Context Wire : Type 0} where
  -- `__init__`
  unfoldable pub started : Bool → Loop Context Wire
  started trace = record {
    trace = trace;
    tasks = [];
    received = [];
    handled = [];
    sent = [];
    traced = [];
  }

  abbrev pub traced_if :
      Bool
      → Direction
      → Packet Context Wire
      → List (Direction × (Context × Wire))
      → List (Direction × (Context × Wire))
  traced_if false d p ts = ts
  traced_if true d p ts = ts ++ ((d, (p.context, p.message)) ∷ [])

  -- `receive_one_message`
  unfoldable pub receive_one_message : Packet Context Wire → Loop Context Wire → Loop Context Wire
  receive_one_message p l = record l {
    tasks = l.tasks ++ (p ∷ []);
    received = l.received ++ (p ∷ []);
    traced = traced_if l.trace incoming p l.traced;
  }

  -- The task at a place, and those that are left.
  unfoldable pub take_task :
      ℕ → List (Packet Context Wire) → Option (Packet Context Wire × List (Packet Context Wire))
  take_task n [] = none
  take_task zero (p ∷ ps) = some (p, ps)
  take_task (suc n) (p ∷ ps) =
      let rest = take_task n ps in elim rest [ none ↦ none | some (q, qs) ↦ some (q, p ∷ qs) ]

module _ {Context Wire : Type 0} (s : Server Wire) where
  -- The reply to a message. A task that raises ends there.
  unfoldable pub reply_to : Packet Context Wire → Option (Packet Context Wire)
  unfolding handle_message
  reply_to p = elim (handle_message s p.message) [
    | ok none ↦ none
    | ok (some w) ↦ some (record p { message = w })
    | err e ↦ none
  ]

  abbrev pub send_reply : Option (Packet Context Wire) → Loop Context Wire → Loop Context Wire
  send_reply none l = l
  send_reply (some r) l = record l {
    sent = l.sent ++ (r ∷ []);
    traced = traced_if l.trace outgoing r l.traced;
  }

  -- A task of `handle_message`
  unfoldable pub run_task : ℕ → Loop Context Wire → Option (Loop Context Wire)
  unfolding take_task reply_to
  run_task n l = elim (take_task n l.tasks) [
    | none ↦ none
    | some (p, ps) ↦
        some (send_reply (reply_to p) (record l { tasks = ps; handled = l.handled ++ (p ∷ []) }))
  ]

  unfoldable pub step : Event Context Wire → Loop Context Wire → Option (Loop Context Wire)
  unfolding receive_one_message run_task
  step (receives p) l = some (receive_one_message p l)
  step (handles n) l = run_task n l

  -- `serve_forever`, for as long as it is observed.
  unfoldable pub serve : List (Event Context Wire) → Loop Context Wire → Option (Loop Context Wire)
  unfolding step
  serve [] l = some l
  serve (e ∷ es) l = elim (step e l) [ none ↦ none | some l' ↦ serve es l' ]
