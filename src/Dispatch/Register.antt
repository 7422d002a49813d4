-- ===== src/Dispatch/Register.antt =====
-- What registration changes: `add_method`, `add_plugin`, `__add__` and `register_instance`.
use Prim.Native.String.{◌++◌ as ◌<>◌}
use aiotinyrpc.Base.{
  String, str_eq, str_eq_iff, ◌≡◌, ◌↔◌, ◌⊎◌, inl, inr, refl, true, Option, some, List, arith,
  Option-cases, Bool-cases, if◌then◌else◌,
}
use aiotinyrpc.Base.Dict.{lookup, lookup-insert, NodupKeys, lookup-merge, or_else}
use aiotinyrpc.Python.Exc.{Exc, Result, ok, err, ◌>>=◌, raised_text, rpc_error}
use aiotinyrpc.Dispatch.{
  Method, Dispatcher, dispatcher, Plugins, no_plugins, plugins, Group, no_group, member, get_method,
  add, add_method, add_plugin, add_plugins, append_group, plugin_name, registered_name, methods_of,
  register_instance,
}
use aiotinyrpc.Dispatch.Lookup.{
  Provides, own, by_plugin, PluginsProvide, under, later, GroupProvides, first, next,
}

-- After a successful `add_method` the name, given or taken from the function, leads to the
-- function, and every other name leads where it led before.
pub get_method-add_method :
    (d d' : Dispatcher) (f : Method) (name : Option String) (k : String)
    → add_method d f name ≡ ok d'
    → get_method d' k ≡ (if str_eq (registered_name f name) k then some f else get_method d k)
unfolding add_method get_method
get_method-add_method (dispatcher n ms ps st) d' f name k h =
    ground (arith, lookup-insert (registered_name f name) k f ms)

-- `add_method` fails exactly on a name that the dispatcher itself has.
add_method_fails :
    (d : Dispatcher) (f : Method) (name : Option String)
    → ((e : Exc) × (add_method d f name ≡ err e))
      ↔ ((g : Method) × (lookup (registered_name f name) (methods_of d) ≡ some g))
unfolding add_method
add_method_fails (dispatcher n ms ps st) f name = (
  λ (e, h). elim (Option-cases (lookup (registered_name f name) ms)) [
    | inl free ↦ absurd (ground arith)
    | inr taken ↦ taken
  ],
  λ (g, taken). (
    raised_text rpc_error ("Name '" <> registered_name f name <> "' already registered"),
    ground arith,
  ),
)

module _ (m : Method) (d : Dispatcher) where
  appended :
      {k : String} (g : Group)
      → GroupProvides m (append_group g d) k
      → GroupProvides m g k ⊎ Provides m d k
  appended no_group (first q) = inr q
  appended no_group (next q) = inl q
  appended (member e g) (first q) = inl (first q)
  appended (member e g) (next q) = elim (appended g q) [ inl r ↦ inl (next r) | inr r ↦ inr r ]

  append_keeps :
      {k : String} (g : Group) → GroupProvides m g k → GroupProvides m (append_group g d) k
  append_keeps no_group q = elim q [ ]
  append_keeps (member e g) (first q) = first q
  append_keeps (member e g) (next q) = next (append_keeps g q)

  append_adds : {k : String} (g : Group) → Provides m d k → GroupProvides m (append_group g d) k
  append_adds no_group q = first q
  append_adds (member e g) q = next (append_adds g q)

  -- What a plugin that is named `n` provides below its name.
  abbrev Below : String → String → Type 0
  Below n k = (rest : String) × (k ≡ n <> rest) × Provides m d rest

  plugins_keep :
      (n : String) {k : String} (ps : Plugins)
      → PluginsProvide m ps k
      → PluginsProvide m (add_plugins ps n d) k
  unfolding add_plugins
  plugins_keep n no_plugins q = elim q [ ]
  plugins_keep n (plugins p g ps) (under rest e q) = elim (Bool-cases (str_eq p n)) [
    | inl same ↦ rw same (under rest e (append_keeps g q))
    | inr other ↦ rw other (under rest e q)
  ]
  plugins_keep n (plugins p g ps) (later q) = elim (Bool-cases (str_eq p n)) [
    | inl same ↦ rw same (later q)
    | inr other ↦ rw other (later (plugins_keep n ps q))
  ]

  plugins_gain :
      (n : String) {k : String} (ps : Plugins) → Below n k → PluginsProvide m (add_plugins ps n d) k
  unfolding add_plugins
  plugins_gain n no_plugins (rest, e, q) = under rest e (first q)
  plugins_gain n {k} (plugins p g ps) (rest, e, q) = elim (Bool-cases (str_eq p n)) [
    | inl same ↦ rw same (under rest (ground (arith, str_eq_iff p n)) (append_adds g q))
    | inr other ↦ rw other (later (plugins_gain n ps (rest, e, q)))
  ]

  plugins_no_more :
      (n : String) {k : String} (ps : Plugins)
      → PluginsProvide m (add_plugins ps n d) k
      → PluginsProvide m ps k ⊎ Below n k
  unfolding add_plugins
  plugins_no_more n no_plugins (under rest e (first q)) = inr (rest, e, q)
  plugins_no_more n no_plugins (under rest e (next q)) = elim q [ ]
  plugins_no_more n no_plugins (later q) = elim q [ ]
  plugins_no_more n {k} (plugins p g ps) q = elim (Bool-cases (str_eq p n)) [
    | inl same ↦ in_same same (rw same at q)
    | inr other ↦ in_other (plugins_no_more n ps) (rw other at q)
  ]
    where
      in_same :
          str_eq p n ≡ true
          → PluginsProvide m (plugins p (append_group g d) ps) k
          → PluginsProvide m (plugins p g ps) k ⊎ Below n k
      in_same same (under rest e r) = elim (appended g r) [
        | inl old ↦ inl (under rest e old)
        | inr new ↦ inr (rest, ground (arith, str_eq_iff p n), new)
      ]
      in_same same (later r) = inl (later r)

      in_other :
          (PluginsProvide m (add_plugins ps n d) k → PluginsProvide m ps k ⊎ Below n k)
          → PluginsProvide m (plugins p g (add_plugins ps n d)) k
          → PluginsProvide m (plugins p g ps) k ⊎ Below n k
      in_other ih (under rest e r) = inl (under rest e r)
      in_other ih (later r) = elim (ih r) [ inl old ↦ inl (later old) | inr new ↦ inr new ]

-- With a plugin added, a dispatcher provides what it provided, what the plugin provides under the
-- plugin's name, and nothing else.
pub Provides-add_plugin :
    (m : Method) (d sub : Dispatcher) (k : String)
    → Provides m (add_plugin d sub) k
      ↔ (Provides m d k ⊎ ((rest : String) × (k ≡ plugin_name sub <> rest) × Provides m sub rest))
unfolding add_plugin
Provides-add_plugin m (dispatcher n ms ps st) sub k = (
  λ q. forward q,
  λ q. elim q [
    | inl (own e) ↦ own e
    | inl (by_plugin r) ↦ by_plugin (plugins_keep m sub (plugin_name sub) ps r)
    | inr r ↦ by_plugin (plugins_gain m sub (plugin_name sub) ps r)
  ],
)
  where
    forward :
        Provides m (add_plugin (dispatcher n ms ps st) sub) k
        → Provides m (dispatcher n ms ps st) k
          ⊎ ((rest : String) × (k ≡ plugin_name sub <> rest) × Provides m sub rest)
    forward (own e) = inl (own e)
    forward (by_plugin r) = elim (plugins_no_more m sub (plugin_name sub) ps r) [
      | inl old ↦ inl (by_plugin old)
      | inr new ↦ inr new
    ]

-- The sum of two dispatchers has the methods of both, the right one's where both have the name.
pub methods-add :
    (d e : Dispatcher) (k : String)
    → NodupKeys (methods_of e)
    → lookup k (methods_of (add d e)) ≡ or_else (lookup k (methods_of e)) (lookup k (methods_of d))
unfolding add
methods-add (dispatcher n ms ps st) (dispatcher n' ms' ps' st') k u = lookup-merge k ms ms' u

abbrev raising : Exc → Dispatcher → Result Dispatcher
raising x d = err x

raises_after : (r : Result Dispatcher) (x : Exc) → (e : Exc) × ((r >>= raising x) ≡ err e)
raises_after (ok d) x = (x, refl)
raises_after (err e) x = (e, refl)

-- No call of `register_instance` returns, whatever the object's methods are.
pub register_instance_fails :
    (d : Dispatcher) (members : List (Method × String))
    → (e : Exc) × (register_instance d members ≡ err e)
unfolding register_instance
register_instance_fails d members = raises_after _ _
