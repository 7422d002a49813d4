-- ===== src/Jsonrpc/RoundTrip.antt =====
-- Requests and responses of fluxrpc/protocols/jsonrpc.py, written and read back.
use aiotinyrpc.Base.{
  String, ◌≡◌, refl, Bool, true, false, Option, none, some, List, [], ◌∷◌, ◌++◌, arith,
}
use aiotinyrpc.Python.Value.{
  Value, Values, Fields, null, bool, int, str, bytes, list, dict, IsId, py_eq_refl,
}
use aiotinyrpc.Python.Exc.{ok, err, raised_text, unexpected_id_error}
use aiotinyrpc.Jsonrpc.{Request, Response, success, failure, request_to_dict, response_to_dict}
use aiotinyrpc.Jsonrpc.Parse.{parse_dict}
use aiotinyrpc.Jsonrpc.Protocol.{
  Protocol, create_request, contains, remove, parse_subreply, read_reply,
}

-- What the parser of the server makes of the dict of a created request is that request.
pub parse_dict-request_to_dict :
    (p p' : Protocol) (m : String) (args : Option Values) (kwargs : Option Fields) (one_way : Bool)
    (r : Request)
    → IsId (p.generator p.drawn)
    → create_request p m args kwargs one_way ≡ (ok r, p')
    → parse_dict (request_to_dict r) ≡ ok r
unfolding create_request parse_dict request_to_dict
parse_dict-request_to_dict p p' m args kwargs one_way r h e = ground arith

-- An id that is not pending yet leaves the list as it was when its reply has come.
remove-append_fresh :
    (v : Value) (vs : List Value) → IsId v → contains v vs ≡ false → remove v (vs ++ v ∷ []) ≡ vs
unfolding remove contains
remove-append_fresh v [] h e = ground (arith, py_eq_refl v h)
remove-append_fresh v (w ∷ ws) h e = ground (arith, remove-append_fresh v ws h)

contains-append_self : (v : Value) (vs : List Value) → IsId v → contains v (vs ++ v ∷ []) ≡ true
unfolding contains
contains-append_self v [] h = ground (arith, py_eq_refl v h)
contains-append_self v (w ∷ ws) h = ground (arith, contains-append_self v ws h)

-- The parser of the client reads back the response from its dict.
read_reply-success :
    (render : Value → String) (i v : Value)
    → read_reply (response_to_dict render (success i v)) ≡ ok (i, success i v)
unfolding read_reply response_to_dict
read_reply-success render i v = refl

read_reply-failure :
    (render : Value → String) (i c : Value) (m : String) (d : Option Value)
    → read_reply (response_to_dict render (failure i (str m) c d)) ≡ ok (i, failure i (str m) c d)
unfolding read_reply response_to_dict
read_reply-failure render i c m none = refl
read_reply-failure render i c m (some d) = refl

abbrev pub id_of : Response → Value
id_of (success i v) = i
id_of (failure i m c d) = i

-- Its message is a text, as it is in every response that the server builds.
abbrev pub HasText : Response → Type 0
HasText (success i v) = Unit
HasText (failure i (str m) c d) = Unit
HasText (failure i m c d) = ⊥

read_reply-response_to_dict :
    (render : Value → String) (r : Response)
    → HasText r
    → read_reply (response_to_dict render r) ≡ ok (id_of r, r)
read_reply-response_to_dict render (success i v) h = read_reply-success render i v
read_reply-response_to_dict render (failure i (str m) c d) h = read_reply-failure render i c m d
read_reply-response_to_dict render (failure i null c d) h = absurd h
read_reply-response_to_dict render (failure i (bool b) c d) h = absurd h
read_reply-response_to_dict render (failure i (int n) c d) h = absurd h
read_reply-response_to_dict render (failure i (bytes b) c d) h = absurd h
read_reply-response_to_dict render (failure i (list vs) c d) h = absurd h
read_reply-response_to_dict render (failure i (dict f) c d) h = absurd h

-- A response with the id of the request just created, whatever it says, is accepted, and the list
-- of pending replies is again what it was before the request.
pub parse_subreply-response :
    (render : Value → String) (p p' : Protocol) (m : String) (args : Option Values)
    (kwargs : Option Fields) (q : Request) (r : Response)
    → IsId (p.generator p.drawn)
    → contains (p.generator p.drawn) p.pending ≡ false
    → create_request p m args kwargs false ≡ (ok q, p')
    → HasText r
    → id_of r ≡ q.unique_id
    → parse_subreply p' (dict (response_to_dict render r))
      ≡ (ok r, record p' { pending = p.pending })
unfolding create_request parse_subreply
parse_subreply-response render p p' m args kwargs q r hi fresh made ht same = ground (
  arith,
  read_reply-response_to_dict render r ht,
  contains-append_self (p.generator p.drawn) p.pending hi,
  remove-append_fresh (p.generator p.drawn) p.pending hi fresh,
)

-- Once it has been accepted, the same reply is refused, and nothing changes.
pub parse_subreply_again :
    (render : Value → String) (p p' p'' : Protocol) (m : String) (args : Option Values)
    (kwargs : Option Fields) (q : Request) (r : Response)
    → IsId (p.generator p.drawn)
    → contains (p.generator p.drawn) p.pending ≡ false
    → create_request p m args kwargs false ≡ (ok q, p')
    → HasText r
    → id_of r ≡ q.unique_id
    → parse_subreply p' (dict (response_to_dict render r)) ≡ (ok r, p'')
    → parse_subreply p'' (dict (response_to_dict render r)) ≡ (
      err (raised_text unexpected_id_error "Reply id does not correspond to any sent requests."),
      p'',
    )
unfolding create_request parse_subreply
parse_subreply_again render p p' p'' m args kwargs q r hi fresh made ht same accepted = ground (
  arith,
  read_reply-response_to_dict render r ht,
  contains-append_self (p.generator p.drawn) p.pending hi,
  remove-append_fresh (p.generator p.drawn) p.pending hi fresh,
)
