-- ===== src/Msgpack/Parse.antt =====
-- fluxrpc/protocols/msgpackrpc.py: `parse_request` and `parse_reply` of decoded messages.
use aiotinyrpc.Base.{
  ℕ, suc, String, Bool, true, false, not, ◌&&◌, none, some, [], ◌∷◌, ◌==◌, if◌then◌else◌,
}
use aiotinyrpc.Python.Int.{pos}
use aiotinyrpc.Python.Value.{
  Value, Values, null, bool, int, str, bytes, list, dict, nil, cons, py_eq, is_null, as_int, size,
}
use aiotinyrpc.Python.Exc.{
  Exc, Result, ok, err, raised, raised_text, invalid_reply_error, type_error, key_error,
  msgpackrpc_invalid_request_error, msgpackrpc_invalid_params_error,
}
use aiotinyrpc.Msgpack.{Request, Response, fixed_error, success, failure}

-- `isinstance(v, int)`, which holds of booleans too
abbrev pub is_int : Value → Bool
is_int (int n) = true
is_int (bool b) = true
is_int _ = false

abbrev pub invalid : Value → Exc
invalid i = fixed_error msgpackrpc_invalid_request_error i

-- The method and its parameters, the last two elements of a request. The first id goes into the
-- error for a method that is no text, the second into the error for parameters that are no list.
abbrev pub request_of : Bool → Value → Value → Value → Value → Value → Result Request
request_of one_way i on_method on_params (str m) (list vs) =
    ok (record { one_way = one_way; unique_id = i; method = m; args = vs })
request_of one_way i on_method on_params (str m) v =
    err (fixed_error msgpackrpc_invalid_params_error on_params)
request_of one_way i on_method on_params m v = err (invalid on_method)

-- `_parse_notification`, whose error for wrong parameters carries the method as its request id
unfoldable pub parse_notification : Value → Value → Result Request
unfolding fixed_error
parse_notification m params = request_of true null null m m params

-- `_parse_request`
unfoldable pub parse_call : Value → Value → Value → Result Request
unfolding fixed_error
parse_call i m params = request_of false i i i m params

-- A message of type 0: the id, then the rest.
abbrev pub call_message : Value → Values → Result Request
call_message i (cons m (cons params nil)) = parse_call i m params
call_message i rest = err (invalid i)

abbrev pub request_message : Value → Values → Result Request
request_message i rest = if is_int i then call_message i rest else err (invalid null)

-- A message of type 2.
abbrev pub notification_message : Value → Values → Result Request
notification_message m (cons params nil) = parse_notification m params
notification_message m rest = err (invalid null)

-- `parse_request` of a decoded message
unfoldable pub parse_request : Value → Result Request
unfolding parse_call parse_notification py_eq
parse_request (list (cons kind (cons first rest))) =
    if py_eq kind (int (pos 0))
    then request_message first rest
    else if py_eq kind (int (pos 2))
    then notification_message first rest
    else err (invalid null)
parse_request v = err (invalid null)

-- The error of a reply: a code with a text, or any other value under no code.
abbrev read_error : Value → Value → Response
read_error i (list (cons (int c) (cons (str m) nil))) = failure i (str m) (some c)
read_error i (list (cons (bool c) (cons (str m) nil))) = failure i (str m) (some (as_int c))
read_error i v = failure i v none

abbrev pub invalid_reply : String → Exc
invalid_reply s = raised_text invalid_reply_error s

-- The tests of a reply with four elements.
abbrev read_four : Value → Value → Value → Value → Result Response
read_four kind i e v =
    if not (py_eq kind (int (pos 1)))
    then err (invalid_reply "Invalid MSGPACK message type")
    else if not (is_int i)
    then err (invalid_reply "Invalid or missing message ID in response")
    else if not (is_null e) && not (is_null v)
    then err (invalid_reply "Reply must contain only one of result and error.")
    else if is_null e
    then ok (success i v)
    else ok (read_error i e)

abbrev wrong_length : Exc
wrong_length = invalid_reply "MSGPACKRPC spec requires reply of length 4"

abbrev string_length : String → ℕ
string_length String.[] = 0
string_length (String.◌∷◌ c s) = suc (string_length s)

-- `parse_reply` of a decoded reply. What has no length raises `TypeError`. A text of four
-- characters has no 1 in front, a dict of four entries has no key 0, and four bytes are numbers.
unfoldable pub parse_reply : Value → Result Response
unfolding raised_text raised py_eq
parse_reply (list (cons kind (cons i (cons e (cons v nil))))) = read_four kind i e v
parse_reply (list vs) = err wrong_length
parse_reply (str s) =
    if string_length s == 4
    then err (invalid_reply "Invalid MSGPACK message type")
    else err wrong_length
parse_reply (bytes (k ∷ i ∷ e ∷ v ∷ [])) =
    if k == 1
    then err (invalid_reply "Reply must contain only one of result and error.")
    else err (invalid_reply "Invalid MSGPACK message type")
parse_reply (bytes s) = err wrong_length
parse_reply (dict d) =
    if size d == 4 then err (raised key_error (cons (int (pos 0)) nil)) else err wrong_length
parse_reply v = err (raised type_error nil)
