-- ===== src/Dispatch.antt =====
-- fluxrpc/dispatch/__init__.py: the registry of methods, the search through its plugins, and the
-- call of a method that was found. Proofs are in the modules below.
pub mod Lookup
pub mod Register
pub mod Decorators
pub mod Storage
use Prim.Native.String.{◌++◌ as ◌<>◌}
use aiotinyrpc.Base.{
  String, str_eq, Bool, true, false, Option, none, some, List, [], ◌∷◌, ◌++◌, if◌then◌else◌,
}
use aiotinyrpc.Base.Dict.{Dict, lookup, insert, merge}
use aiotinyrpc.Base.Text.{strip_prefix}
use aiotinyrpc.Python.Value.{Value, Values, Fields, nil, end, truthy_dict}
use aiotinyrpc.Python.Exc.{
  Exc, Result, ok, err, ◌>>=◌, ◌>>◌, raised, raised_text, rpc_error, type_error, attribute_error,
  invalid_params_error, method_not_found_error, server_error,
}

-- A registered callable. Its body is the user's: what a call returns or raises, and whether
-- `inspect.getcallargs` finds the arguments fitting, are given with it.
pub record Method : Type 0 where
  pub name : String
  pub is_coroutine : Bool
  pub has_code : Bool
  pub accepts : Values → Fields → Bool
  pub call : Values → Fields → Result Value

-- `RPCDispatcher`: `plugin_name`, `method_map`, `subdispatchers` and `_storage`. The mapping from
-- prefixes to lists of dispatchers is a data type of the block, in insertion order.
mutual
  pub data Dispatcher : Type 0 where
    dispatcher : String → Dict Method → Plugins → Dict Value → Dispatcher

  pub data Plugins : Type 0 where
    no_plugins : Plugins
    plugins : String → Group → Plugins → Plugins

  pub data Group : Type 0 where
    no_group : Group
    member : Dispatcher → Group → Group

abbrev pub new_dispatcher : String → Dispatcher
new_dispatcher name = dispatcher name [] no_plugins []

-- `__add__`: the receiver gets the other's methods and storage, and keeps its plugins.
unfoldable pub add : Dispatcher → Dispatcher → Dispatcher
add (dispatcher n ms ps st) (dispatcher n' ms' ps' st') =
    dispatcher n (merge ms ms') ps (merge st st')

-- `add_method`; an empty or missing name is replaced by the function's.
abbrev pub registered_name : Method → Option String → String
registered_name f none = f.name
registered_name f (some n) = if str_eq n "" then f.name else n

abbrev add_named : Method → String → Dispatcher → Option Method → Result Dispatcher
add_named f n d (some g) = err (raised_text rpc_error ("Name '" <> n <> "' already registered"))
add_named f n (dispatcher m ms ps st) none = ok (dispatcher m (insert n f ms) ps st)

abbrev pub methods_of : Dispatcher → Dict Method
methods_of (dispatcher n ms ps st) = ms

unfoldable pub add_method : Dispatcher → Method → Option String → Result Dispatcher
unfolding lookup insert raised_text
add_method d f name = let n = registered_name f name in add_named f n d (lookup n (methods_of d))

abbrev append_group : Group → Dispatcher → Group
append_group no_group d = member d no_group
append_group (member e g) d = member e (append_group g d)

-- `subdispatchers.setdefault(name, []).append(d)`
unfoldable pub add_plugins : Plugins → String → Dispatcher → Plugins
add_plugins no_plugins n d = plugins n (member d no_group) no_plugins
add_plugins (plugins p g ps) n d =
    if str_eq p n then plugins p (append_group g d) ps else plugins p g (add_plugins ps n d)

abbrev pub plugin_name : Dispatcher → String
plugin_name (dispatcher n ms ps st) = n

unfoldable pub add_plugin : Dispatcher → Dispatcher → Dispatcher
unfolding add_plugins
add_plugin (dispatcher n ms ps st) d = dispatcher n ms (add_plugins ps (plugin_name d) d) st

-- `list_plugins`
prefixes : Plugins → List String
prefixes no_plugins = []
prefixes (plugins p g ps) = p ∷ prefixes ps

unfoldable list_plugins : Dispatcher → List String
unfolding prefixes
list_plugins (dispatcher n ms ps st) = prefixes ps

-- `get_method`; `none` is a `MethodNotFoundError`. A plugin that raises it hands the search on to
-- the next one.
unfoldable mutual
  pub get_method : Dispatcher → String → Option Method
  get_method (dispatcher n ms ps st) name = elim (lookup name ms) [
    | some m ↦ some m
    | none ↦ get_from_plugins ps name
  ]

  pub get_from_plugins : Plugins → String → Option Method
  get_from_plugins no_plugins name = none
  get_from_plugins (plugins p g ps) name = elim (strip_prefix p name) [
    | none ↦ get_from_plugins ps name
    | some rest ↦ elim (get_from_group g rest) [ some m ↦ some m | none ↦ get_from_plugins ps name ]
  ]

  pub get_from_group : Group → String → Option Method
  get_from_group no_group name = none
  get_from_group (member d g) name = elim (get_method d name) [
    | some m ↦ some m
    | none ↦ get_from_group g name
  ]

-- The public methods of an object with their public names, put into a new dispatcher.
register_all : Dispatcher → List (Method × String) → Result Dispatcher
unfolding add_method
register_all d [] = ok d
register_all d ((f, n) ∷ fs) = add_method d f (some n) >>= λ d'. register_all d' fs

-- `register_instance`, which ends in a call of `add_plugin` with one argument too many
unfoldable pub register_instance : Dispatcher → List (Method × String) → Result Dispatcher
unfolding register_all raised
register_instance d members = do
  filled ← register_all (new_dispatcher "") members
  err (raised type_error nil)

-- `validate_parameters`
unfoldable pub validate_parameters : Method → Values → Fields → Result (Unit {0})
unfolding raised
validate_parameters m args kwargs =
    if m.has_code
    then (if m.accepts args kwargs then ok tt else err (raised invalid_params_error nil))
    else ok tt

-- The attribute `validator`, which may be `None`.
abbrev pub Validator : Type 0
Validator = Option (Method → Values → Fields → Result (Unit {0}))

abbrev pub Caller : Type 0
Caller = Option (Method → Values → Fields → Result Value)

abbrev pub validate : Validator → Method → Values → Fields → Result (Unit {0})
validate none m args kwargs = ok tt
validate (some v) m args kwargs = v m args kwargs

-- The four ways to call the method. `run_in_executor` takes no keyword arguments.
abbrev pub invoke : Caller → Method → Values → Fields → Result Value
invoke (some c) m args kwargs = c m args kwargs
invoke none m args kwargs =
    if m.is_coroutine
    then m.call args kwargs
    else if truthy_dict kwargs
    then err (raised type_error nil)
    else m.call args end

-- What the dispatcher uses of a request and of its two kinds of answer.
pub record RequestOps (Req Resp : Type 0) : Type 0 where
  pub method : Req → String
  pub args : Req → Values
  pub kwargs : Req → Fields
  pub error_respond : Req → Exc → Option Resp
  pub respond : Req → Value → Option Resp

module _ {Req Resp : Type 0} (ops : RequestOps Req Resp) (validator : Validator)
    (caller : Caller) where
  abbrev pub answer : Req → Result Value → Option Resp
  answer r (ok v) = ops.respond r v
  answer r (err e) = ops.error_respond r e

  -- `_dispatch` of a request
  unfoldable pub dispatch_request : Dispatcher → Req → Option Resp
  dispatch_request d r = elim (get_method d (ops.method r)) [
    | none ↦ ops.error_respond r (raised_text method_not_found_error (ops.method r))
    | some m ↦ answer r (do
      validate validator m (ops.args r) (ops.kwargs r)
      invoke caller m (ops.args r) (ops.kwargs r))
  ]
