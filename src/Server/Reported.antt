-- ===== src/Server/Reported.antt =====
-- fluxrpc/protocols/jsonrpc.py: `_get_code_message_and_data` of an exception, against a description of
-- its own.
use aiotinyrpc.Base.{
  String, ◌≡◌, ◌≢◌, ◌⊎◌, inl, inr, refl, true, false, Bool-cases, Option-cases, none, some, arith,
  if◌then◌else◌,
}
use aiotinyrpc.Python.Int.{ℤ, negsuc}
use aiotinyrpc.Python.Text.{str_value, str_exc}
use aiotinyrpc.Python.Value.{Value, Values, null, str, int, nil, cons, is_null, truthy}
use aiotinyrpc.Python.Exc.{Exc, isinstance, invalid_request, method_not_found, invalid_params}
use aiotinyrpc.Jsonrpc.{
  Request, Response, failure, request_error_respond, get_code_message_and_data, server_error_of,
}
use aiotinyrpc.Jsonrpc.Parse.{or_null}

-- The code, the text and the data that an exception is reported with: those of its own, where it has
-- a code of JSON-RPC, else those of the three errors of a request, and else the code -32000 with the
-- text of the exception, or with the first of two arguments as the text and the second as the data.
pub data IsReported (render : Value → String) (e : Exc) : ℤ → String → Value → Type 0 where
  own_code :
      (c : ℤ)
      → e.jsonrpc_error_code ≡ some c
      → IsReported render e c (str_exc render e) (or_null e.data_attr)
  bad_request :
      e.jsonrpc_error_code ≡ none
      → isinstance e.class invalid_request ≡ true
      → IsReported render e (negsuc 32599) "Invalid Request" null
  bad_method :
      e.jsonrpc_error_code ≡ none
      → isinstance e.class invalid_request ≡ false
      → isinstance e.class method_not_found ≡ true
      → IsReported render e (negsuc 32600) "Method not found" null
  bad_params :
      e.jsonrpc_error_code ≡ none
      → isinstance e.class invalid_request ≡ false
      → isinstance e.class method_not_found ≡ false
      → isinstance e.class invalid_params ≡ true
      → IsReported render e (negsuc 32601) "Invalid params" null
  with_data :
      (m d : Value)
      → e.jsonrpc_error_code ≡ none
      → isinstance e.class invalid_request ≡ false
      → isinstance e.class method_not_found ≡ false
      → isinstance e.class invalid_params ≡ false
      → e.args ≡ cons m (cons d nil)
      → IsReported render e (negsuc 31999) (str_value render m) d
  plain :
      e.jsonrpc_error_code ≡ none
      → isinstance e.class invalid_request ≡ false
      → isinstance e.class method_not_found ≡ false
      → isinstance e.class invalid_params ≡ false
      → ((m d : Value) → e.args ≢ cons m (cons d nil))
      → IsReported render e (negsuc 31999) (str_exc render e) null

-- The error response with these, to a request with this id. Data that is false is left out.
abbrev pub failure_of : Value → ℤ → String → Value → Response
failure_of i c m d = failure i (str m) (int c) (if truthy d then some d else none)

server_error_of-plain :
    (render : Value → String) (e : Exc) (vs : Values)
    → ((m d : Value) → vs ≢ cons m (cons d nil))
    → server_error_of render e vs ≡ (negsuc 31999, str_exc render e, null)
server_error_of-plain render e nil h = refl
server_error_of-plain render e (cons m nil) h = refl
server_error_of-plain render e (cons m (cons d nil)) h = absurd (h m d refl)
server_error_of-plain render e (cons m (cons d (cons x vs))) h = refl

IsReported-get_code :
    (render : Value → String) (e : Exc) (c : ℤ) (m : String) (d : Value)
    → IsReported render e c m d
    → get_code_message_and_data render e ≡ (c, m, d)
unfolding get_code_message_and_data
IsReported-get_code render e _ _ _ (own_code c h) = ground arith
IsReported-get_code render e _ _ _ (bad_request n r) = ground arith
IsReported-get_code render e _ _ _ (bad_method n r m) = ground arith
IsReported-get_code render e _ _ _ (bad_params n r m p) = ground arith
IsReported-get_code render e _ _ _ (with_data m d n r f p a) = ground arith
IsReported-get_code render e _ _ _ (plain n r f p a) =
    ground (arith, server_error_of-plain render e e.args a)

pub request_error_respond-IsReported :
    (render : Value → String) (q : Request) (e : Exc) (c : ℤ) (m : String) (d : Value)
    → is_null q.unique_id ≡ false
    → q.one_way ≡ false
    → IsReported render e c m d
    → request_error_respond render q e ≡ some (failure_of q.unique_id c m d)
unfolding request_error_respond
request_error_respond-IsReported render q e c m d h o r =
    rw (h, o, IsReported-get_code render e c m d r) refl

IsPair : Values → Type 0
IsPair vs =
    ((m : Value) × (d : Value) × (vs ≡ cons m (cons d nil)))
    ⊎ ((m d : Value) → vs ≢ cons m (cons d nil))

pairs : (vs : Values) → IsPair vs
unfolding IsPair
pairs nil = inr (λ m d e. cc e)
pairs (cons m nil) = inr (λ n d e. cc e)
pairs (cons m (cons d nil)) = inl (m, d, refl)
pairs (cons m (cons d (cons x vs))) = inr (λ n y e. cc e)

-- Every exception is reported.
pub IsReported-total :
    (render : Value → String) (e : Exc)
    → (c : ℤ) × (m : String) × (d : Value) × IsReported render e c m d
unfolding IsPair
IsReported-total render e = elim (Option-cases e.jsonrpc_error_code) [
  | inr (c, h) ↦ (c, _, _, own_code c h)
  | inl n ↦ elim (Bool-cases (isinstance e.class invalid_request)) [
    | inl r ↦ (_, _, _, bad_request n r)
    | inr r ↦ elim (Bool-cases (isinstance e.class method_not_found)) [
      | inl f ↦ (_, _, _, bad_method n r f)
      | inr f ↦ elim (Bool-cases (isinstance e.class invalid_params)) [
        | inl p ↦ (_, _, _, bad_params n r f p)
        | inr p ↦ elim (pairs e.args) [
          | inl (m, d, a) ↦ (_, _, _, with_data m d n r f p a)
          | inr a ↦ (_, _, _, plain n r f p a)
        ]
      ]
    ]
  ]
]
