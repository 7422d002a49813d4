-- ===== src/Tests/Dispatch.antt =====
-- A dispatcher with a plugin.
use aiotinyrpc.Base.{String, ◌≡◌, ◌≢◌, ◌↔◌, ◌⊎◌, refl, true, false, none, some, [], ◌∷◌}
use Prim.Native.String.{◌++◌ as ◌<>◌}
use aiotinyrpc.Base.Dict.{lookup}
use aiotinyrpc.Base.Text.{strip_prefix}
use aiotinyrpc.Python.Value.{str}
use aiotinyrpc.Python.Exc.{ok}
use aiotinyrpc.Dispatch.{
  Method, Dispatcher, dispatcher, new_dispatcher, no_plugins, plugins, no_group, member, get_method,
  add_plugin,
}
use aiotinyrpc.Dispatch.Lookup.{Provides, get_method_sound, get_method_complete}
use aiotinyrpc.Dispatch.Register.{Provides-add_plugin}

abbrev echo : String → Method
echo n = record {
  name = n;
  is_coroutine = false;
  has_code = true;
  accepts = λ args kwargs. true;
  call = λ args kwargs. ok (str n);
}

abbrev files : Dispatcher
files = dispatcher "files." (("list", echo "list") ∷ []) no_plugins []

abbrev root : Dispatcher
root =
    dispatcher "" (("ping", echo "ping") ∷ []) (plugins "files." (member files no_group) no_plugins)
      []

found : get_method root "files.list" ≡ some (echo "list")
unfolding get_method lookup strip_prefix
found = refl

get_method_sound_example : Provides (echo "list") root "files.list"
get_method_sound_example = get_method_sound root "files.list" (echo "list") found

get_method_complete_example : get_method root "files.list" ≢ none
get_method_complete_example =
    get_method_complete (echo "list") root "files.list"
      (get_method_sound root "files.list" (echo "list") found)

Provides-add_plugin_example :
    Provides (echo "list") (add_plugin (new_dispatcher "") files) "files.list" ↔ (
      Provides (echo "list") (new_dispatcher "") "files.list"
      ⊎ ((rest : String) × (◌≡◌ {A = String} "files.list" ("files." <> rest))
          × Provides (echo "list") files rest))
Provides-add_plugin_example =
    Provides-add_plugin (echo "list") (new_dispatcher "") files "files.list"
