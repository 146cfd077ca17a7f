-- ===== src/Plugin/Tests.antt =====
-- Concrete plugins, for a client that is a number.
use cpp_gram.Common.{
  ℕ, ◌+◌, ◌≡◌, ◌⊎◌, refl, true, false, List, [], ◌∷◌, none, some, length, ◌==◌, ok, throws,
}
use cpp_gram.Common.Maps.{contains, string_key}
use cpp_gram.Plugin.{Plugin, Plugins, register_plugin, unregister_plugin, get_plugin}
use cpp_gram.Plugin.Lifecycle.{register_plugin_outcome, unregister_plugin-register_plugin}

abbrev counting : Plugin ℕ ℕ
counting = record { name = 99 ∷ []; on_load = λ w. (none, w + 1); on_unload = λ w. w + 10 }

abbrev nothing : Plugins ℕ ℕ
nothing = []

register_plugin_outcome_example :
    ((some counting ≡ none
        ⊎ (plugin : Plugin ℕ ℕ) × (some counting ≡ some plugin)
          × ((length plugin.name == 0) ≡ true ⊎ (contains plugin.name nothing ≡ true)))
      × (((register_plugin (some counting) nothing 0).0 ≡ ok false)
          × (((register_plugin (some counting) nothing 0).1 ≡ nothing)
              × ((register_plugin (some counting) nothing 0).2 ≡ 0))))
    ⊎ ((plugin : Plugin ℕ ℕ) × (some counting ≡ some plugin)
        × (((length plugin.name == 0) ≡ false)
            × ((contains plugin.name nothing ≡ false)
                × (((register_plugin (some counting) nothing 0).2 ≡ (plugin.on_load 0).1)
                    × ((((plugin.on_load 0).0 ≡ none)
                          × (((register_plugin (some counting) nothing 0).0 ≡ ok true)
                              × ((get_plugin plugin.name
                                      (register_plugin (some counting) nothing 0).1
                                    ≡ some plugin)
                                  × ((id : List ℕ)
                                      → string_key.same id plugin.name ≡ false
                                      → get_plugin id (register_plugin (some counting) nothing 0).1
                                        ≡ get_plugin id nothing))))
                        ⊎ ((x : ℕ) × ((plugin.on_load 0).0 ≡ some x)
                            × (((register_plugin (some counting) nothing 0).0 ≡ throws x)
                                × ((id : List ℕ)
                                    → get_plugin id (register_plugin (some counting) nothing 0).1
                                      ≡ get_plugin id nothing))))))))
register_plugin_outcome_example = register_plugin_outcome (some counting) nothing 0

unregister_plugin-register_plugin_example :
    ((unregister_plugin
        (99 ∷ [])
        (register_plugin (some counting) nothing 0).1
        (register_plugin (some counting) nothing 0).2).0
      ≡ true)
    × ((unregister_plugin
          (99 ∷ [])
          (register_plugin (some counting) nothing 0).1
          (register_plugin (some counting) nothing 0).2).2
        ≡ 11)
    × ((id : List ℕ)
        → get_plugin id
            (unregister_plugin
              (99 ∷ [])
              (register_plugin (some counting) nothing 0).1
              (register_plugin (some counting) nothing 0).2).1
          ≡ get_plugin id nothing)
unregister_plugin-register_plugin_example =
    unregister_plugin-register_plugin counting nothing 0 refl refl refl
