-- ===== src/Msgpack/RoundTrip.antt =====
-- Requests and responses of fluxrpc/protocols/msgpackrpc.py, written and read back.
use aiotinyrpc.Base.{String, ◌≡◌, refl, Bool, Option, some, arith}
use aiotinyrpc.Python.Int.{ℤ}
use aiotinyrpc.Python.Value.{Value, Values, Fields, int, str, list}
use aiotinyrpc.Python.Exc.{ok}
use aiotinyrpc.Msgpack.{
  Request, Response, success, failure, Ids, create_request, request_to_list, response_to_list,
}
use aiotinyrpc.Msgpack.Parse.{parse_request, parse_reply}

-- The server reads back every request that a client creates with integer ids.
pub parse_request-request_to_list :
    (g g' : Ids) (method : String) (args : Option Values) (kwargs : Option Fields) (one_way : Bool)
    (r : Request) (n : ℤ)
    → g.generator g.drawn ≡ int n
    → create_request g method args kwargs one_way ≡ (ok r, g')
    → parse_request (list (request_to_list r)) ≡ ok r
unfolding create_request parse_request request_to_list
parse_request-request_to_list g g' method args kwargs one_way r n i h = ground arith

-- A response as the server makes it: an integer id, and in an error a text and a code.
pub data IsResponse : Response → Type 0 where
  result : (n : ℤ) (v : Value) → IsResponse (success (int n) v)
  error : (n : ℤ) (m : String) (c : ℤ) → IsResponse (failure (int n) (str m) (some c))

-- The client reads back every response that the server makes.
pub parse_reply-response_to_list :
    (render : Value → String) (r : Response)
    → IsResponse r
    → parse_reply (list (response_to_list render r)) ≡ ok r
unfolding parse_reply response_to_list
parse_reply-response_to_list render _ (result n v) = refl
parse_reply-response_to_list render _ (error n m c) = refl
