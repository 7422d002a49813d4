-- ===== src/Dispatch/Lookup.antt =====
-- `get_method` of fluxrpc/dispatch/__init__.py against what a dispatcher provides.
use Prim.Native.String.{◌++◌ as ◌<>◌}
use aiotinyrpc.Base.{String, ◌≡◌, ◌≢◌, inl, inr, none, some, arith, Option-cases}
use aiotinyrpc.Base.Dict.{Dict, lookup}
use aiotinyrpc.Base.Text.{strip_prefix, strip_prefix-append, append-strip_prefix}
use aiotinyrpc.Python.Value.{Value}
use aiotinyrpc.Dispatch.{
  Method, Dispatcher, dispatcher, Plugins, no_plugins, plugins, Group, no_group, member, get_method,
  get_from_plugins, get_from_group,
}

-- A dispatcher provides a method under a name if the name is registered with it, or if the name
-- is a plugin's prefix before a name under which that plugin provides the method.
mutual
  pub data Provides (m : Method) : Dispatcher → String → Type 0 where
    own :
        {n k : String} {ms : Dict Method} {ps : Plugins} {st : Dict Value}
        → lookup k ms ≡ some m
        → Provides m (dispatcher n ms ps st) k
    by_plugin :
        {n k : String} {ms : Dict Method} {ps : Plugins} {st : Dict Value}
        → PluginsProvide m ps k
        → Provides m (dispatcher n ms ps st) k

  pub data PluginsProvide (m : Method) : Plugins → String → Type 0 where
    under :
        {p k : String} {g : Group} {ps : Plugins} (rest : String)
        → k ≡ p <> rest
        → GroupProvides m g rest
        → PluginsProvide m (plugins p g ps) k
    later :
        {p k : String} {g : Group} {ps : Plugins}
        → PluginsProvide m ps k
        → PluginsProvide m (plugins p g ps) k

  pub data GroupProvides (m : Method) : Group → String → Type 0 where
    first :
        {k : String} {d : Dispatcher} {g : Group} → Provides m d k → GroupProvides m (member d g) k
    next :
        {k : String} {d : Dispatcher} {g : Group}
        → GroupProvides m g k
        → GroupProvides m (member d g) k

mutual
  unfolding get_method

  get_method_sound_at :
      (d : Dispatcher) (k : String) (m : Method) → get_method d k ≡ some m → Provides m d k
  get_method_sound_at (dispatcher n ms ps st) k m h = elim (Option-cases (lookup k ms)) [
    | inl e ↦ by_plugin (get_from_plugins_sound ps k m (ground arith))
    | inr (f, e) ↦ own (ground arith)
  ]

  get_from_plugins_sound :
      (ps : Plugins) (k : String) (m : Method)
      → get_from_plugins ps k ≡ some m
      → PluginsProvide m ps k
  get_from_plugins_sound no_plugins k m h = cc
  get_from_plugins_sound (plugins p g ps) k m h = elim (Option-cases (strip_prefix p k)) [
    | inl e ↦ later (get_from_plugins_sound ps k m (ground arith))
    | inr (rest, e) ↦ elim (Option-cases (get_from_group g rest)) [
      | inl e' ↦ later (get_from_plugins_sound ps k m (ground arith))
      | inr (f, e') ↦
          under rest (append-strip_prefix p k rest e) (get_from_group_sound g rest m (ground arith))
    ]
  ]

  get_from_group_sound :
      (g : Group) (k : String) (m : Method) → get_from_group g k ≡ some m → GroupProvides m g k
  get_from_group_sound no_group k m h = cc
  get_from_group_sound (member d g) k m h = elim (Option-cases (get_method d k)) [
    | inl e ↦ next (get_from_group_sound g k m (ground arith))
    | inr (f, e) ↦ first (get_method_sound_at d k m (ground arith))
  ]

-- What is found is provided under that name.
pub get_method_sound :
    (d : Dispatcher) (k : String) (m : Method) → get_method d k ≡ some m → Provides m d k
get_method_sound d k m h = get_method_sound_at d k m h

mutual
  unfolding get_method

  get_method_complete_at :
      {m : Method} (d : Dispatcher) (k : String) → Provides m d k → get_method d k ≢ none
  get_method_complete_at (dispatcher n ms ps st) k (own e) h = ground arith
  get_method_complete_at (dispatcher n ms ps st) k (by_plugin q) h =
      ground (arith, get_from_plugins_complete ps k q)

  get_from_plugins_complete :
      {m : Method} (ps : Plugins) (k : String)
      → PluginsProvide m ps k
      → get_from_plugins ps k ≢ none
  get_from_plugins_complete no_plugins k q h = elim q [ ]
  get_from_plugins_complete (plugins p g ps) k (under rest e q) h =
      ground (arith, strip_prefix-append p rest, get_from_group_complete g rest q)
  get_from_plugins_complete (plugins p g ps) k (later q) h =
      ground (arith, get_from_plugins_complete ps k q)

  get_from_group_complete :
      {m : Method} (g : Group) (k : String) → GroupProvides m g k → get_from_group g k ≢ none
  get_from_group_complete no_group k q h = elim q [ ]
  get_from_group_complete (member d g) k (first q) h = ground (arith, get_method_complete_at d k q)
  get_from_group_complete (member d g) k (next q) h = ground (arith, get_from_group_complete g k q)

-- Where a method is provided under a name, the search for the name finds one.
pub get_method_complete :
    (m : Method) (d : Dispatcher) (k : String) → Provides m d k → get_method d k ≢ none
get_method_complete m d k q = get_method_complete_at d k q
