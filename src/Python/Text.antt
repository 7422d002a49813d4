-- ===== src/Python/Text.antt =====
-- `str(v)` and `str(e)`. What Python prints of a value that is no text is not modelled: `render`
-- stands for it, and for the printed tuple of an exception with several arguments.
use aiotinyrpc.Base.{String}
use aiotinyrpc.Python.Value.{Value, Values, str, list, nil, cons}
use aiotinyrpc.Python.Exc.{Exc}

module _ (render : Value → String) where
  unfoldable pub str_value : Value → String
  str_value (str s) = s
  str_value v = render v

  str_args : Values → String
  unfolding str_value
  str_args nil = ""
  str_args (cons v nil) = str_value v
  str_args vs = render (list vs)

  unfoldable pub str_exc : Exc → String
  unfolding str_args
  str_exc e = str_args e.args
