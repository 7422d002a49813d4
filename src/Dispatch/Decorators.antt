-- ===== src/Dispatch/Decorators.antt =====
-- fluxrpc/dispatch/__init__.py: the decorators `public` and `create`. A function has the attributes
-- that they set, besides what is called.
use aiotinyrpc.Base.{
  ◌≡◌, String, str_eq, Bool, Option, none, some, List, [], ◌∷◌, arith, if◌then◌else◌, inl, inr,
}
use aiotinyrpc.Python.Exc.{Result, ok, ◌>>=◌, Result-cases}
use aiotinyrpc.Dispatch.{Method, Dispatcher, add_method, get_method, registered_name}
use aiotinyrpc.Dispatch.Register.{get_method-add_method}

pub record Function : Type 0 where
  pub method : Method
  pub public_name : Option String
  pub pass_context : Option Bool

-- `@public` and `@public(name)`
unfoldable pub public : Function → Function
public f = record f { public_name = some f.method.name }

unfoldable pub public_as : Option String → Function → Function
public_as name f = record f { public_name = some (registered_name f.method name) }

-- `@dispatch.create` and `@dispatch.create(name, pass_context)`
unfoldable pub create : Dispatcher → Function → Result (Function × Dispatcher)
unfolding add_method
create d f = do d' ← add_method d f.method none; ok (f, d')

unfoldable pub create_as :
    Option String → Bool → Dispatcher → Function → Result (Function × Dispatcher)
unfolding add_method
create_as name pass_context d f = do
  d' ← add_method d f.method name
  ok (record f { pass_context = some pass_context }, d')

-- The members of an object that `register_instance` finds, with their public names.
unfoldable pub public_members : List Function → List (Method × String)
public_members [] = []
public_members (f ∷ fs) =
    let rest = public_members fs in
    elim f.public_name [ none ↦ rest | some n ↦ (f.method, n) ∷ rest ]

-- A decorated function that was taken in is found under the name that was given, or its own, and
-- under that name alone; the function itself is returned and can be decorated again.
pub create_as-get_method :
    (name : Option String) (pass_context : Bool) (d d' : Dispatcher) (f f' : Function) (k : String)
    → create_as name pass_context d f ≡ ok (f', d')
    → (get_method d' k
        ≡ (if str_eq (registered_name f.method name) k then some f.method else get_method d k))
      × (f'.method ≡ f.method)
      × (f'.public_name ≡ f.public_name)
unfolding create_as
create_as-get_method name pass_context d d' f f' k h =
    elim (Result-cases (add_method d f.method name)) [
      | inr (e, he) ↦ absurd (ground arith)
      | inl (d'', added) ↦ (
        ground (arith, get_method-add_method d d'' f.method name k added),
        ground arith,
        ground arith,
      )
    ]
