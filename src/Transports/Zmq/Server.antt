-- ===== src/Transports/Zmq/Server.antt =====
-- fluxrpc/transports/zmq.py: `ZmqServerTransport`. A multipart message that a `ROUTER` socket
-- receives has the frames that lead back to its sender in front, and one that is sent on it goes
-- the way of its first frames.
use aiotinyrpc.Base.{
  List-cases, ◌≡◌, ◌≢◌, refl, ap, Option, none, some, List, [], ◌∷◌, ◌++◌, arith, Option-cases, inl,
  inr,
}
use aiotinyrpc.Transports.Abstract.{Bytes, ServerTransport}

pub record Router : Type 0 where
  pub incoming : List (List Bytes)
  pub sent : List (List Bytes)

-- `msg[:-1], msg[-1]`, which is `none` for an `IndexError`.
unfoldable pub split_last : List Bytes → Option (List Bytes × Bytes)
split_last [] = none
split_last (m ∷ ms) =
    let rest = split_last ms in
    elim rest [ none ↦ some ([], m) | some (front, last) ↦ some (m ∷ front, last) ]

-- `receive_message`. It blocks on an empty socket.
unfoldable pub receive_message : Router → Option ((List Bytes × Bytes) × Router)
unfolding split_last
receive_message s = elim s.incoming [
  | [] ↦ none
  | msg ∷ msgs ↦ elim (split_last msg) [
    | none ↦ none
    | some x ↦ some (x, record s { incoming = msgs })
  ]
]

-- `send_reply`
unfoldable pub send_reply : List Bytes → Bytes → Router → Router
send_reply context reply s = record s { sent = s.sent ++ ((context ++ (reply ∷ [])) ∷ []) }

pub split_last-append :
    (context : List Bytes) (m : Bytes) → split_last (context ++ (m ∷ [])) ≡ some (context, m)
unfolding split_last
split_last-append [] m = refl
split_last-append (c ∷ context) m = ground (arith, split_last-append context m)

split_last-some : (m : Bytes) (ms : List Bytes) → split_last (m ∷ ms) ≢ none
unfolding split_last
split_last-some m ms h = elim (Option-cases (split_last ms)) [
  | inl e ↦ ground arith
  | inr (x, e) ↦ ground arith
]

pub append-split_last :
    (msg context : List Bytes) (m : Bytes)
    → split_last msg ≡ some (context, m)
    → context ++ (m ∷ []) ≡ msg
unfolding split_last
append-split_last [] context m h = cc
append-split_last (n ∷ []) context m h = ground arith
append-split_last (n ∷ k ∷ ns) context m h = elim (Option-cases (split_last (k ∷ ns))) [
  | inl e ↦ absurd (split_last-some k ns e)
  | inr ((front, last), e) ↦ ground (arith, append-split_last (k ∷ ns) front last e)
]

-- The replies that were sent, with the frames that each went along.
unfoldable pub envelopes : List (List Bytes) → List (List Bytes × Bytes)
unfolding split_last
envelopes [] = []
envelopes (msg ∷ msgs) =
    let rest = envelopes msgs in elim (split_last msg) [ none ↦ rest | some x ↦ x ∷ rest ]

envelopes-append :
    (msgs : List (List Bytes)) (context : List Bytes) (m : Bytes)
    → envelopes (msgs ++ ((context ++ (m ∷ [])) ∷ [])) ≡ envelopes msgs ++ ((context, m) ∷ [])
unfolding envelopes
envelopes-append [] context m = ground (arith, split_last-append context m)
envelopes-append (msg ∷ msgs) context m = ground (arith, envelopes-append msgs context m)

pub envelopes-send_reply :
    (context : List Bytes) (reply : Bytes) (s : Router)
    → envelopes (send_reply context reply s).sent ≡ envelopes s.sent ++ ((context, reply) ∷ [])
unfolding send_reply
envelopes-send_reply context reply s = envelopes-append s.sent context reply

module _ (s s' : Router) (x : List Bytes × Bytes) where
  pub receive_message-cases :
      receive_message s ≡ some (x, s')
      → (msg : List Bytes) × (s.incoming ≡ msg ∷ s'.incoming)
        × (s'.sent ≡ s.sent)
        × (msg ≡ x.0 ++ (x.1 ∷ []))
  unfolding receive_message
  receive_message-cases h = elim (List-cases s.incoming) [
    | inl e ↦ absurd (ground arith)
    | inr (msg, msgs, e) ↦ elim (Option-cases (split_last msg)) [
      | inl n ↦ absurd (ground arith)
      | inr ((front, last), n) ↦
          let whole = append-split_last msg front last n in
          (msg, ground arith, ground arith, ground (arith, whole))
    ]
  ]

-- The transport behind the interface of all transports: a reply goes to the frames of its context.
abbrev pub server_transport : ServerTransport
server_transport = record {
  State = Router;
  Context = List Bytes;
  Origin = List Bytes;
  origin = λ context. context;
  delivered = λ s. envelopes s.sent;
  receive_message = λ s. receive_message s;
  send_reply = λ context reply s. send_reply context reply s;
  delivered-receive_message = λ s s' x h. ap envelopes (receive_message-cases s s' x h).2;
  delivered-send_reply = λ context reply s. envelopes-send_reply context reply s;
}
