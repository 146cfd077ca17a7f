-- ===== src/Plugin.antt =====
-- include/cppgram/plugin.hpp and src/core/plugin.cpp: the plugins of a client by their names. A hook may
-- change the client, `W`, and throw, `X`; it does not call the manager again. A plugin is behind a
-- pointer that may be null.
pub mod Lifecycle
mod Tests
use cpp_gram.Common.{
  ℕ, Bool, true, false, List, [], ◌∷◌, Option, none, some, length, map, ◌==◌, if◌then◌else◌,
  Outcome, ok, throws,
}
use cpp_gram.Common.Maps.{string_key, find, assign, erase, contains}

pub record Plugin (X W : Type 0) : Type 0 where
  pub name : List ℕ
  pub on_load : W → Option X × W
  -- Its exceptions are suppressed wherever it is called.
  pub on_unload : W → W

abbrev pub Plugins : Type 0 → Type 0 → Type 0
Plugins X W = List (List ℕ × Plugin X W)

module _ {X W : Type 0} where
  unfoldable pub load : Plugin X W → Plugins X W → W → Outcome X Bool × Plugins X W × W
  load plugin plugins client =
      let (thrown, client1) = plugin.on_load client in
      elim thrown [
        | none ↦ (ok true, assign plugin.name plugin plugins, client1)
        | some x ↦ (throws x, erase plugin.name (assign plugin.name plugin plugins), client1)
      ]

  unfoldable pub register_plugin :
      Option (Plugin X W) → Plugins X W → W → Outcome X Bool × Plugins X W × W
  register_plugin none plugins client = (ok false, plugins, client)
  register_plugin (some plugin) plugins client =
      if length plugin.name == 0
      then (ok false, plugins, client)
      else if contains plugin.name plugins
      then (ok false, plugins, client)
      else load plugin plugins client

  unfoldable pub unregister_plugin : List ℕ → Plugins X W → W → Bool × Plugins X W × W
  unregister_plugin name plugins client = elim (find name plugins) [
    | none ↦ (false, plugins, client)
    | some target ↦ (true, erase name plugins, target.on_unload client)
  ]

  unfoldable pub has_plugin : List ℕ → Plugins X W → Bool
  has_plugin name plugins = contains name plugins

  unfoldable pub get_plugin : List ℕ → Plugins X W → Option (Plugin X W)
  get_plugin name plugins = find name plugins

  unfoldable pub unload_each : Plugins X W → W → W
  unload_each [] client = client
  unload_each ((name, plugin) ∷ plugins) client = unload_each plugins (plugin.on_unload client)

  unfoldable pub unload_all : Plugins X W → W → Plugins X W × W
  unload_all plugins client = ([], unload_each plugins client)
