-- ===== src/SocketServer/Requests.antt =====
-- The way of requests through `process_messages` to the queue that the RPC server reads.
use aiotinyrpc.Base.{
  inl, inr, ℕ, String, ◌≡◌, refl, false, List, All, [], ◌∷◌, ◌++◌, arith, ap, ◌∙◌,
}
use mathlib.Core.List.{append-nil, append_assoc}
use aiotinyrpc.Python.Exc.{ok, err, Result-cases}
use aiotinyrpc.Messages.{rpc_request, Crypto}
use aiotinyrpc.Auth.{Bitcoin}
use aiotinyrpc.SocketServer.Receive.{
  Given, handle, process_message, Connection, Event, receives, step, run,
}

-- The events of a peer that sends requests, one after the other.
unfoldable pub requests : Given → (ℕ → String → String) → List (ℕ × String) → List Event
requests g wire [] = []
requests g wire ((i, payload) ∷ rs) = receives g (wire i payload) ∷ requests g wire rs

-- The requests whose payload is a document.
abbrev pub documents : Crypto → List (ℕ × String) → List (ℕ × String)
documents c [] = []
documents c ((i, payload) ∷ rs) =
    let rest = documents c rs in
    elim (c.bson_decode payload) [ ok v ↦ (i, payload) ∷ rest | err e ↦ rest ]

documents-append :
    (c : Crypto) (r : ℕ × String) (rs : List (ℕ × String))
    → documents c (r ∷ []) ++ documents c rs ≡ documents c (r ∷ rs)
documents-append c (i, payload) rs = elim (Result-cases (c.bson_decode payload)) [
  | inl (v, e) ↦ ground arith
  | inr (x, e) ↦ ground arith
]

abbrev queued : List (ℕ × String) → Connection → Connection
queued rs k = record k { state = record k.state { rpc_messages = k.state.rpc_messages ++ rs } }

step-request :
    (c : Crypto) (b : Bitcoin) (g : Given) (text : String) (k : Connection) (i : ℕ)
    (payload : String)
    → c.deserialize text ≡ ok (rpc_request i payload)
    → k.exited ≡ false
    → k.state.peer.destroyed ≡ false
    → k.state.peer.proxied ≡ false
    → step c b (receives g text) k ≡ queued (documents c ((i, payload) ∷ [])) k
unfolding step process_message handle
step-request c b g text k i payload hw hx hd hp = elim (Result-cases (c.bson_decode payload)) [
  | inl (v, e) ↦ ground arith
  | inr (x, e) ↦ ground (arith, append-nil k.state.rpc_messages)
]

-- Of the requests of a connected peer that is not proxied, those whose payload is a document reach
-- the server's queue, all of them and in order, and the others do not, in every phase, whether the
-- peer is authenticated and encrypted or not, though the requests are sent in the clear.
pub run-requests :
    (c : Crypto) (b : Bitcoin) (g : Given) (wire : ℕ → String → String) (k : Connection)
    (rs : List (ℕ × String))
    → All (λ r. c.deserialize (wire r.0 r.1) ≡ ok (rpc_request r.0 r.1)) rs
    → k.exited ≡ false
    → k.state.peer.destroyed ≡ false
    → k.state.peer.proxied ≡ false
    → run c b (requests g wire rs) k ≡ record k {
      state = record k.state { rpc_messages = k.state.rpc_messages ++ documents c rs };
    }
unfolding run requests
run-requests c b g wire k [] hw hx hd hp = rw (append-nil k.state.rpc_messages) refl
run-requests c b g wire k ((i, payload) ∷ rs) (hw, hws) hx hd hp =
    let first = documents c ((i, payload) ∷ []) in
    let k' = queued first k in
    ap (run c b (requests g wire rs)) (step-request c b g (wire i payload) k i payload hw hx hd hp)
    ∙ run-requests c b g wire k' rs hws hx hd hp
    ∙ ap (λ q. record k { state = record k.state { rpc_messages = q } })
        (append_assoc k.state.rpc_messages first (documents c rs)
          ∙ ap (λ q. k.state.rpc_messages ++ q) (documents-append c (i, payload) rs))
