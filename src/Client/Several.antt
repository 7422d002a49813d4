-- ===== src/Client/Several.antt =====
-- fluxrpc/client.py: `RPCClient.call_all` without gevent, with the JSON-RPC protocol. A coroutine is
-- what it was called with: nothing of `_send_and_handle_reply` runs before it is awaited.
use aiotinyrpc.Base.{
  ◌≡◌, String, Bool, true, false, Option, some, List, [], ◌∷◌, ◌++◌, arith, inl, inr,
}
use aiotinyrpc.Python.Value.{Value, Values, Fields, bool}
use aiotinyrpc.Python.Exc.{Result, ok, err, Result-cases}
use aiotinyrpc.Jsonrpc.{Request}
use aiotinyrpc.Jsonrpc.Protocol.{Protocol, create_request}
use mathlib.Core.List.{append_assoc, append-nil}

-- `RPCCall` and `RPCCallTo`; the latter has a client, of which its transport is taken.
pub record RpcCall (Transport : Type 0) : Type 0 where
  pub transport : Option Transport
  pub method : String
  pub args : Values
  pub kwargs : Fields

-- The arguments of `_send_and_handle_reply`.
pub record Coroutine (Transport : Type 0) : Type 0 where
  pub request : Request
  pub one_way : Bool
  pub timeout : Option Transport
  pub chan_id : Value

module _ {Transport : Type 0} where
  -- `self._send_and_handle_reply(req, False, tr, True)`
  unfoldable pub started : RpcCall Transport → Request → Coroutine Transport
  started r req = record {
    request = req;
    one_way = false;
    timeout = r.transport;
    chan_id = bool true;
  }

  abbrev put_first :
      Coroutine Transport
      → Result (List (Coroutine Transport)) × Protocol
      → Result (List (Coroutine Transport)) × Protocol
  put_first c (err e, p) = (err e, p)
  put_first c (ok cs, p) = (ok (c ∷ cs), p)

  -- `call_all`
  unfoldable pub call_all :
      Protocol → List (RpcCall Transport) → Result (List (Coroutine Transport)) × Protocol
  unfolding create_request started
  call_all p [] = (ok [], p)
  call_all p (r ∷ rs) =
      let (made, p') = create_request p r.method (some r.args) (some r.kwargs) false in
      let rest = call_all p' rs in
      elim made [ err e ↦ (err e, p') | ok req ↦ put_first (started r req) rest ]

  abbrev pub methods : List (RpcCall Transport) → List String
  methods [] = []
  methods (r ∷ rs) = r.method ∷ methods rs

  abbrev pub requested : List (Coroutine Transport) → List String
  requested [] = []
  requested (c ∷ cs) = c.request.method ∷ requested cs

  abbrev pub ids : List (Coroutine Transport) → List Value
  ids [] = []
  ids (c ∷ cs) = c.request.unique_id ∷ ids cs

  create_request-made :
      (r : RpcCall Transport) (p : Protocol) (req : Request)
      → (create_request p r.method (some r.args) (some r.kwargs) false).0 ≡ ok req
      → (req.method ≡ r.method)
        × ((create_request p r.method (some r.args) (some r.kwargs) false).1.pending
            ≡ p.pending ++ (req.unique_id ∷ []))
  unfolding create_request
  create_request-made r p req h = (ground arith, ground arith)

  -- What `call_all` returns for its requests are coroutines that have not begun, one for each and
  -- in their order, and the ids of all of them are pending from then on.
  pub call_all-requested :
      (rs : List (RpcCall Transport)) (p p' : Protocol) (cs : List (Coroutine Transport))
      → call_all p rs ≡ (ok cs, p')
      → (requested cs ≡ methods rs) × (p'.pending ≡ p.pending ++ ids cs)
  unfolding call_all
  call_all-requested [] p p' cs h = (ground arith, ground (arith, append-nil p.pending))
  call_all-requested (r ∷ rs) p p' cs h =
      let next = create_request p r.method (some r.args) (some r.kwargs) false in
      elim (Result-cases next.0) [
        | inr (e, he) ↦ absurd (ground arith)
        | inl (req, made) ↦ elim (Result-cases (call_all next.1 rs).0) [
          | inr (e, he) ↦ absurd (ground arith)
          | inl (cs', rest) ↦
              let (same, drawn) = create_request-made r p req made in
              let (later, pending) =
                call_all-requested rs next.1 (call_all next.1 rs).1 cs' (ground arith) in
              (
                ground (arith, same, later),
                ground (arith, append_assoc p.pending (req.unique_id ∷ []) (ids cs')),
              )
        ]
      ]
