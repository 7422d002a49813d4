-- ===== src/Python/Exc.antt =====
-- Exceptions: the classes of fluxrpc/exc.py with those that the two protocols derive from them,
-- the built-in ones that the library can raise, and the result of a call that may raise.
use aiotinyrpc.Base.{
  ◌⊎◌, inl, inr, ℕ, zero, suc, ◌≡◌, refl, String, Bool, true, false, ◌||◌, Option, none, some,
}
use aiotinyrpc.Python.Int.{ℤ}
use aiotinyrpc.Python.Value.{Value, Values, null, str, nil, cons}

pub data ExcClass : Type 0 where
  exception : ExcClass
  key_error type_error attribute_error value_error not_implemented_error : ExcClass
  rpc_error bad_request_error bad_reply_error invalid_request_error : ExcClass
  invalid_reply_error unexpected_id_error method_not_found_error : ExcClass
  invalid_params_error server_error timeout_error : ExcClass
  jsonrpc_parse_error jsonrpc_invalid_request_error jsonrpc_method_not_found_error : ExcClass
  jsonrpc_invalid_params_error jsonrpc_internal_error jsonrpc_server_error : ExcClass
  jsonrpc_error : ExcClass
  msgpackrpc_parse_error msgpackrpc_invalid_request_error : ExcClass
  msgpackrpc_method_not_found_error msgpackrpc_invalid_params_error : ExcClass
  msgpackrpc_internal_error msgpackrpc_server_error msgpackrpc_error : ExcClass

-- The base class that each class statement names; the mixins are no exceptions.
unfoldable parent : ExcClass → Option ExcClass
parent exception = none
parent key_error = some exception
parent type_error = some exception
parent attribute_error = some exception
parent value_error = some exception
parent not_implemented_error = some exception
parent rpc_error = some exception
parent bad_request_error = some rpc_error
parent bad_reply_error = some rpc_error
parent invalid_request_error = some bad_request_error
parent invalid_reply_error = some bad_reply_error
parent unexpected_id_error = some invalid_reply_error
parent method_not_found_error = some rpc_error
parent invalid_params_error = some rpc_error
parent server_error = some rpc_error
parent timeout_error = some exception
parent jsonrpc_method_not_found_error = some method_not_found_error
parent jsonrpc_parse_error = some invalid_request_error
parent jsonrpc_invalid_request_error = some invalid_request_error
parent jsonrpc_invalid_params_error = some invalid_request_error
parent jsonrpc_internal_error = some invalid_request_error
parent jsonrpc_server_error = some invalid_request_error
parent jsonrpc_error = some rpc_error
parent msgpackrpc_method_not_found_error = some method_not_found_error
parent msgpackrpc_parse_error = some invalid_request_error
parent msgpackrpc_invalid_request_error = some invalid_request_error
parent msgpackrpc_invalid_params_error = some invalid_request_error
parent msgpackrpc_internal_error = some invalid_request_error
parent msgpackrpc_server_error = some invalid_request_error
parent msgpackrpc_error = some rpc_error

-- The four classes that the code catches or tests for.
pub data Handler : Type 0 where
  rpc invalid_request method_not_found invalid_params : Handler

abbrev names_class : Handler → ExcClass → Bool
names_class rpc rpc_error = true
names_class invalid_request invalid_request_error = true
names_class method_not_found method_not_found_error = true
names_class invalid_params invalid_params_error = true
names_class _ _ = false

-- Up to five steps towards the root; no class lies deeper.
isinstance_from : ℕ → ExcClass → Handler → Bool
isinstance_from zero c h = false
isinstance_from (suc n) c h =
    names_class h c || (elim (parent c) [ none ↦ false | some p ↦ isinstance_from n p h ])

-- `isinstance(e, C)` and `except C`
unfoldable pub isinstance : ExcClass → Handler → Bool
unfolding isinstance_from parent
isinstance c h = isinstance_from 6 c h

-- An exception with its attributes. `none` is an attribute that is not there.
pub record Exc : Type 0 where
  pub class : ExcClass
  pub args : Values
  pub message : Option String
  pub data_attr : Option Value
  pub request_id : Value
  pub jsonrpc_error_code : Option ℤ
  pub msgpackrpc_error_code : Option ℤ

-- An exception that has only arguments.
unfoldable pub raised : ExcClass → Values → Exc
raised c vs = record {
  class = c;
  args = vs;
  message = none;
  data_attr = none;
  request_id = null;
  jsonrpc_error_code = none;
  msgpackrpc_error_code = none;
}

-- `C("text")`
unfoldable pub raised_text : ExcClass → String → Exc
unfolding raised
raised_text c s = raised c (cons (str s) nil)

pub data Result {ℓ} (A : Type ℓ) : Type ℓ where
  ok : A → Result A
  err : Exc → Result A

pub Result-cases {ℓ} :
    {A : Type ℓ} (r : Result A) → ((a : A) × (r ≡ ok a)) ⊎ ((e : Exc) × (r ≡ err e))
Result-cases (ok a) = inl (a, refl)
Result-cases (err e) = inr (e, refl)

-- A step after the one that may raise.
module _ {ℓ κ} {A : Type ℓ} {B : Type κ} where
  infixl 5 ◌>>=◌
  abbrev pub ◌>>=◌ : Result A → (A → Result B) → Result B
  err x >>= next = err x
  ok v >>= next = next v

infixl 5 ◌>>◌
abbrev pub ◌>>◌ {κ} : {B : Type κ} → Result (Unit {0}) → Result B → Result B
err x >> next = err x
ok u >> next = next

-- `if not t: raise x`
abbrev pub require : Bool → Exc → Result (Unit {0})
require false x = err x
require true x = ok tt

-- A chain that succeeds has a first step that succeeds, and a test that passes.
pub bind-eq-ok {ℓ κ} :
    {A : Type ℓ} {B : Type κ} {b : B} (r : Result A) (next : A → Result B)
    → (r >>= next) ≡ ok b
    → (v : A) × (next v ≡ ok b) × (r ≡ ok v)
bind-eq-ok (err x) next found = cc
bind-eq-ok (ok v) next found = (v, found, refl)

pub require-eq-ok {ℓ} :
    {B : Type ℓ} (t : Bool) (e : Exc) (k : Result B) {b : B}
    → (require t e >> k) ≡ ok b
    → (t ≡ true) × (k ≡ ok b)
require-eq-ok true e k h = (refl, h)
require-eq-ok false e k h = cc

-- `try: m` with one handler for the class, which leaves the other exceptions alone
unfoldable pub catches : Handler → Exc → Bool
unfolding isinstance
catches h e = isinstance e.class h
