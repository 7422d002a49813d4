-- ===== src/Server/Failures.antt =====
-- What `handle_message` does with a message that is no request.
use aiotinyrpc.Base.{str_eq_iff, ◌≡◌, ◌≢◌, ◌⊎◌, inl, inr, refl, true, false, none, some, arith}
use aiotinyrpc.Python.Int.{negsuc}
use aiotinyrpc.Python.Value.{Value, Fields, null, int, str, dict, get}
use aiotinyrpc.Python.Exc.{
  Exc, Result, ok, err, catches, rpc, raised_text, key_error, jsonrpc_parse_error,
  jsonrpc_invalid_params_error,
}
use aiotinyrpc.Jsonrpc.{Request, Response, failure, error_respond, fixed_error, version}
use aiotinyrpc.Jsonrpc.Parse.{
  request_key, all_keys, or_null, set_params, invalid, parse_dict, parse_request, parse_subrequest,
}
use aiotinyrpc.Server.{Server, handle_message, reply_with, one}

-- The two error responses to a refused document.
abbrev pub invalid_response : Fields → Response
invalid_response d =
    failure (or_null (get d "id")) (str "Invalid Request") (int (negsuc 32599)) none

abbrev pub params_response : Fields → Response
params_response d = failure (or_null (get d "id")) (str "Invalid params") (int (negsuc 32601)) none

set_params-refuses :
    (d : Fields) (v : Value) (r : Request) (e : Exc)
    → set_params d v r ≡ err e
    → e ≡ fixed_error jsonrpc_invalid_params_error (or_null (get d "id"))
set_params-refuses d v r e h = ground arith

-- A dict is refused with one of these errors, or it has no method and `KeyError` is raised.
pub parse_dict-refuses :
    (d : Fields) (e : Exc)
    → parse_dict d ≡ err e
    → (e ≡ invalid d)
      ⊎ (e ≡ fixed_error jsonrpc_invalid_params_error (or_null (get d "id")))
      ⊎ ((e ≡ raised_text key_error "method") × (get d "method" ≡ none))
unfolding parse_dict
parse_dict-refuses d e h = ground arith

pub parse_request-garbled :
    {Wire : Type 0} (decode : Wire → Result Value) (w : Wire) (x : Exc)
    → decode w ≡ err x
    → parse_request decode w ≡ err (fixed_error jsonrpc_parse_error null)
unfolding parse_request
parse_request-garbled decode w x h = rw (h, parse_request) refl

pub parse_request-refused :
    {Wire : Type 0} (decode : Wire → Result Value) (w : Wire) (d : Fields) (e : Exc)
    → decode w ≡ ok (dict d)
    → parse_dict d ≡ err e
    → parse_request decode w ≡ err e
unfolding parse_request parse_subrequest
parse_request-refused decode w d e h f = ground arith

parse_dict-no_method :
    (d : Fields)
    → all_keys request_key d ≡ true
    → get d "jsonrpc" ≡ some (str version)
    → get d "method" ≡ none
    → parse_dict d ≡ err (raised_text key_error "method")
unfolding parse_dict
parse_dict-no_method d k v m = ground (arith, str_eq_iff version version)

module _ {Wire : Type 0} (s : Server Wire) where
  handle_message-answered :
      (w : Wire) (e : Exc) (r : Response)
      → parse_request s.codec.decode w ≡ err e
      → catches rpc e ≡ true
      → error_respond e ≡ ok r
      → handle_message s w ≡ reply_with s (one (some r))
  unfolding handle_message
  handle_message-answered w e r h c a = ground arith

  handle_message-fails :
      (w : Wire) (e : Exc)
      → parse_request s.codec.decode w ≡ err e
      → catches rpc e ≡ false
      → handle_message s w ≡ err e
  unfolding handle_message
  handle_message-fails w e h c = ground arith

  -- A message that cannot be decoded is answered with the error -32700, under no id.
  pub handle_message-garbled :
      (w : Wire) (x : Exc)
      → s.codec.decode w ≡ err x
      → handle_message s w
        ≡ reply_with s (one (some (failure null (str "Parse error") (int (negsuc 32699)) none)))
  unfolding catches error_respond fixed_error
  handle_message-garbled w x h =
      handle_message-answered w (fixed_error jsonrpc_parse_error null) _
        (parse_request-garbled s.codec.decode w x h) refl refl

  -- A document that has a method and is refused is answered under its own id, with the error
  -- -32600 or -32602.
  pub handle_message-refused :
      (w : Wire) (d : Fields) (e : Exc)
      → s.codec.decode w ≡ ok (dict d)
      → parse_dict d ≡ err e
      → get d "method" ≢ none
      → (handle_message s w ≡ reply_with s (one (some (invalid_response d))))
        ⊎ (handle_message s w ≡ reply_with s (one (some (params_response d))))
  unfolding catches error_respond fixed_error
  handle_message-refused w d e h f has = elim (parse_dict-refuses d e f) [
    | inl a ↦ inl (
        handle_message-answered w (invalid d) _
          (parse_request-refused s.codec.decode w d _ h (rw a at f)) refl refl)
    | inr (inl a) ↦ inr (
        handle_message-answered w (fixed_error jsonrpc_invalid_params_error (or_null (get d "id")))
          _ (parse_request-refused s.codec.decode w d _ h (rw a at f)) refl refl)
    | inr (inr (a, none_there)) ↦ absurd (has none_there)
  ]

  -- A document with known keys and the right version that lacks its method makes the handler raise
  -- `KeyError`; nothing is sent.
  pub handle_message-no_method :
      (w : Wire) (d : Fields)
      → s.codec.decode w ≡ ok (dict d)
      → all_keys request_key d ≡ true
      → get d "jsonrpc" ≡ some (str version)
      → get d "method" ≡ none
      → handle_message s w ≡ err (raised_text key_error "method")
  handle_message-no_method w d h k v m =
      handle_message-fails w _
        (parse_request-refused s.codec.decode w d _ h (parse_dict-no_method d k v m))
        (unfold catches raised_text in refl)
