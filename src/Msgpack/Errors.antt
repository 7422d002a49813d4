-- ===== src/Msgpack/Errors.antt =====
-- fluxrpc/protocols/msgpackrpc.py: `MSGPACKRPCError` and `raise_error`.
use aiotinyrpc.Base.{Bool, ◌≡◌, refl, if◌then◌else◌}
use aiotinyrpc.Python.Value.{Value, nil}
use aiotinyrpc.Python.Exc.{Exc, Result, ok, err, raised, attribute_error}

-- The argument of an exception, and its error code.
pub record MsgpackError : Type 0 where
  pub text : Value
  pub code : Value

-- The argument of `raise_error`: an error response with its code, or the pair of a code and a text.
pub data ErrorArg : Type 0 where
  response : Value → Value → ErrorArg
  pair : Value → Value → ErrorArg

-- `MSGPACKRPCError(error)`. For a pair the arguments of the exception are empty, and the class has
-- no `message` to put there.
abbrev new_msgpack_error : ErrorArg → Result MsgpackError
new_msgpack_error (response m c) = ok (record { text = m; code = c })
new_msgpack_error (pair c m) = err (raised attribute_error nil)

-- `raise_error` raises what it built, or returns it, unless building it has raised.
pub data Raised : Type 0 where
  raises returns : MsgpackError → Raised
  fails : Exc → Raised

unfoldable raise_error : Bool → ErrorArg → Raised
unfolding raised
raise_error raises_errors a = elim (new_msgpack_error a) [
  | ok e ↦ if raises_errors then raises e else returns e
  | err e ↦ fails e
]

-- A pair is never raised, however the protocol is set.
raise_error-pair :
    (raises_errors : Bool) (c m : Value)
    → raise_error raises_errors (pair c m) ≡ fails (raised attribute_error nil)
unfolding raise_error
raise_error-pair raises_errors c m = refl
