-- ===== src/Msgpack/Spec.antt =====
-- The messages that `parse_request` of fluxrpc/protocols/msgpackrpc.py accepts, and its errors.
use aiotinyrpc.Base.{
  String, ◌≡◌, refl, sym, subst, Bool, true, false, none, some, arith, Bool-cases, inl, inr,
}
use aiotinyrpc.Python.Int.{pos, negsuc}
use aiotinyrpc.Python.Value.{
  Value, Values, null, bool, int, str, bytes, list, dict, nil, cons, truthy, is_null, py_eq,
}
use aiotinyrpc.Python.Exc.{Exc, ok}
use aiotinyrpc.Msgpack.{Request, success, error_respond, respond}
use aiotinyrpc.Msgpack.Parse.{
  parse_request, request_message, call_message, notification_message, parse_notification,
  parse_call, request_of, is_int,
}

-- A call, or a notification. A boolean counts as the integer that it equals.
pub data IsMessage : Value → Request → Type 0 where
  call :
      (k i : Value) (m : String) (vs : Values)
      → py_eq k (int (pos 0)) ≡ true
      → is_int i ≡ true
      → IsMessage
          (list (cons k (cons i (cons (str m) (cons (list vs) nil)))))
          (record { one_way = false; unique_id = i; method = m; args = vs })
  notification :
      (k : Value) (m : String) (vs : Values)
      → py_eq k (int (pos 2)) ≡ true
      → IsMessage
          (list (cons k (cons (str m) (cons (list vs) nil))))
          (record { one_way = true; unique_id = null; method = m; args = vs })

-- A type that equals 2 does not equal 0.
not_call : (k : Value) → py_eq k (int (pos 2)) ≡ true → py_eq k (int (pos 0)) ≡ false
unfolding py_eq
not_call (int (pos n)) h = ground arith
not_call (int (negsuc n)) h = refl
not_call (bool true) h = ground arith
not_call (bool false) h = ground arith
not_call null h = ground arith
not_call (str s) h = ground arith
not_call (bytes s) h = ground arith
not_call (list vs) h = ground arith
not_call (dict d) h = ground arith

-- Every call and every notification is accepted.
pub parse_request_complete : (v : Value) (r : Request) → IsMessage v r → parse_request v ≡ ok r
unfolding parse_request
parse_request_complete _ _ (call k i m vs hk hi) = ground arith
parse_request_complete _ _ (notification k m vs hk) = ground (arith, not_call k hk)

request : Bool → Value → String → Values → Request
request one_way i m vs = record { one_way = one_way; unique_id = i; method = m; args = vs }

-- The last two elements of a message that is read.
request_of_sound :
    (one_way : Bool) (i on_method on_params m params : Value) (r : Request)
    → request_of one_way i on_method on_params m params ≡ ok r
    → (s : String) × (vs : Values) × (m ≡ str s) × (params ≡ list vs) × (request one_way i s vs ≡ r)
unfolding request
request_of_sound one_way i on_method on_params (str s) (list vs) r h =
    (s, vs, refl, refl, ground arith)
request_of_sound one_way i on_method on_params (str s) null r h = cc
request_of_sound one_way i on_method on_params (str s) (bool b) r h = cc
request_of_sound one_way i on_method on_params (str s) (int n) r h = cc
request_of_sound one_way i on_method on_params (str s) (str t) r h = cc
request_of_sound one_way i on_method on_params (str s) (bytes t) r h = cc
request_of_sound one_way i on_method on_params (str s) (dict d) r h = cc
request_of_sound one_way i on_method on_params null v r h = cc
request_of_sound one_way i on_method on_params (bool b) v r h = cc
request_of_sound one_way i on_method on_params (int n) v r h = cc
request_of_sound one_way i on_method on_params (bytes t) v r h = cc
request_of_sound one_way i on_method on_params (list vs) v r h = cc
request_of_sound one_way i on_method on_params (dict d) v r h = cc

call_message_sound :
    (k i : Value) (rest : Values) (r : Request)
    → py_eq k (int (pos 0)) ≡ true
    → is_int i ≡ true
    → call_message i rest ≡ ok r
    → IsMessage (list (cons k (cons i rest))) r
unfolding parse_call request
call_message_sound k i nil r hk hi h = cc
call_message_sound k i (cons m nil) r hk hi h = cc
call_message_sound k i (cons m (cons v (cons w vs))) r hk hi h = cc
call_message_sound k i (cons m (cons params nil)) r hk hi h =
    let (s, vs, hm, hp, hr) = request_of_sound false i i i m params r h in
    subst (λ x. IsMessage (list (cons k (cons i (cons x (cons params nil))))) r) (sym hm)
      (subst (λ x. IsMessage (list (cons k (cons i (cons (str s) (cons x nil))))) r) (sym hp)
        (subst {A = Request}
          (λ q. IsMessage (list (cons k (cons i (cons (str s) (cons (list vs) nil))))) q) hr
          (call k i s vs hk hi)))

notification_message_sound :
    (k m : Value) (rest : Values) (r : Request)
    → py_eq k (int (pos 2)) ≡ true
    → notification_message m rest ≡ ok r
    → IsMessage (list (cons k (cons m rest))) r
unfolding parse_notification request
notification_message_sound k m nil r hk h = cc
notification_message_sound k m (cons v (cons w vs)) r hk h = cc
notification_message_sound k m (cons params nil) r hk h =
    let (s, vs, hm, hp, hr) = request_of_sound true null null m m params r h in
    subst (λ x. IsMessage (list (cons k (cons x (cons params nil)))) r) (sym hm)
      (subst (λ x. IsMessage (list (cons k (cons (str s) (cons x nil)))) r) (sym hp)
        (subst {A = Request} (λ q. IsMessage (list (cons k (cons (str s) (cons (list vs) nil)))) q)
          hr (notification k s vs hk)))

request_message_sound :
    (k i : Value) (rest : Values) (r : Request)
    → py_eq k (int (pos 0)) ≡ true
    → request_message i rest ≡ ok r
    → IsMessage (list (cons k (cons i rest))) r
request_message_sound k i rest r hk h = elim (Bool-cases (is_int i)) [
  | inl hi ↦ call_message_sound k i rest r hk hi (ground arith)
  | inr hi ↦ ground arith
]

message_sound :
    (k first : Value) (rest : Values) (r : Request)
    → parse_request (list (cons k (cons first rest))) ≡ ok r
    → IsMessage (list (cons k (cons first rest))) r
unfolding parse_request
message_sound k first rest r h = elim (Bool-cases (py_eq k (int (pos 0)))) [
  | inl hk ↦ request_message_sound k first rest r hk (ground arith)
  | inr hk ↦ elim (Bool-cases (py_eq k (int (pos 2)))) [
    | inl h2 ↦ notification_message_sound k first rest r h2 (ground arith)
    | inr h2 ↦ ground arith
  ]
]

-- A value that the server accepts is a call with an integer id, or a notification, and the request
-- that it builds is the one that the message stands for.
pub parse_request_sound : (v : Value) (r : Request) → parse_request v ≡ ok r → IsMessage v r
unfolding parse_request
parse_request_sound (list (cons k (cons first rest))) r h = message_sound k first rest r h
parse_request_sound (list (cons k nil)) r h = cc
parse_request_sound (list nil) r h = cc
parse_request_sound null r h = cc
parse_request_sound (bool b) r h = cc
parse_request_sound (int n) r h = cc
parse_request_sound (str s) r h = cc
parse_request_sound (bytes s) r h = cc
parse_request_sound (dict d) r h = cc

-- No error ever reaches a client whose request has an id that is false, such as 0, though its
-- result does.
pub error_respond-falsy :
    (render : Value → String) (r : Request) (e : Exc) (v : Value)
    → r.one_way ≡ false
    → is_null r.unique_id ≡ false
    → truthy r.unique_id ≡ false
    → (error_respond render r e ≡ none) × (respond r v ≡ some (success r.unique_id v))
unfolding error_respond respond
error_respond-falsy render r e v o n t = ground arith
