-- ===== src/Tests/Transports.antt =====
-- The queues of the WSGI and web socket transports, and the two ends of ZeroMQ.
use aiotinyrpc.Base.{◌≡◌, refl, Bool, true, false, List, [], ◌∷◌, arith}
use aiotinyrpc.Python.Value.{nil}
use aiotinyrpc.Python.Exc.{Exc, ok, err, raised, exception}
use aiotinyrpc.Transports.Abstract.{Bytes}
use aiotinyrpc.Transports.Wsgi.Mailbox.{
  empty, put_message, receive_message, send_reply, get_reply, set_queue,
}
use aiotinyrpc.Transports.Wsgi.Runs.{
  Event, posts, receives, replies, answers, History, run, step, IsConsistent, begun-IsConsistent,
}
use aiotinyrpc.Transports.Zmq.Client.{ReqSocket, IsReq}

-- Two handlers whose replies come in the other order.
abbrev crossed : List Event
crossed =
    posts (1 ∷ [])
    ∷ posts (2 ∷ [])
    ∷ receives
    ∷ receives
    ∷ replies 1 (22 ∷ [])
    ∷ replies 0 (11 ∷ [])
    ∷ answers 0
    ∷ []

abbrev crossed_end : History
crossed_end = record {
  mailbox = record {
    messages = [];
    count = 2;
    contexts =
        set_queue
          (set_queue (set_queue (set_queue (set_queue (λ c. []) 0 []) 1 []) 1 ((22 ∷ []) ∷ [])) 0
            ((11 ∷ []) ∷ []))
          0 [];
  };
  posted = (0, 1 ∷ []) ∷ (1, 2 ∷ []) ∷ [];
  received = (0, 1 ∷ []) ∷ (1, 2 ∷ []) ∷ [];
  replied = (1, 22 ∷ []) ∷ (0, 11 ∷ []) ∷ [];
  answered = (0, 11 ∷ []) ∷ [];
}

begun-IsConsistent_example : IsConsistent crossed_end
unfolding run step empty put_message receive_message send_reply get_reply
begun-IsConsistent_example = begun-IsConsistent crossed crossed_end refl

-- A socket that only remembers whether it waits, and to which no reply ever comes.
abbrev quiet : ReqSocket
quiet = record {
  Socket = Bool;
  send = λ m waiting. elim waiting [ true ↦ err (raised exception nil) | false ↦ ok true ];
  recv = λ waiting. err (raised exception nil);
  poll = λ n waiting. (false, waiting);
}

refused : (m : Bytes) (s : Bool) → s ≡ true → (e : Exc) × (quiet.send m s ≡ err e)
refused m true h = (raised exception nil, refl)
refused m false h = absurd (ground arith)

sent : (m : Bytes) (s s' : Bool) → quiet.send m s ≡ ok s' → s' ≡ true
sent m true s' h = cc
sent m false s' h = ground arith

quiet-IsReq : IsReq quiet
quiet-IsReq = record {
  waiting = λ s. s;
  send-waiting = refused;
  send-ok = sent;
  recv-ok = λ m s s' h. absurd (ground arith);
  poll-waiting = λ n s. refl;
}
