-- ===== src/Plugin/Lifecycle.antt =====
-- Registering a plugin, on every branch, and taking it out again.
use cpp_gram.Common.{
  ℕ, ◌≡◌, refl, sym, subst, ap, ◌∙◌, ◌⊎◌, true, false, List, Option, none, some, length, ◌==◌, ok,
  throws, Bool-cases, Option-cases, inl, inr,
}
use cpp_gram.Common.Maps.{
  string_key, is_some, find, assign, erase, contains, find-assign, find-assign_other, find-erase,
  find-erase_other,
}
use cpp_gram.Plugin.{Plugin, Plugins, load, register_plugin, unregister_plugin, get_plugin}

module _ {X W : Type 0} where
  absent :
      (name : List ℕ) (plugins : Plugins X W)
      → contains name plugins ≡ false
      → find name plugins ≡ none
  absent name plugins h = elim (Option-cases (find name plugins)) [
    | inl e ↦ e
    | inr (p, e) ↦ absurd (cc (h, ap is_some e))
  ]

  -- Putting an absent name in and taking it out again leaves every lookup as it was.
  put_and_taken :
      (plugin : Plugin X W) (plugins : Plugins X W)
      → contains plugin.name plugins ≡ false
      → (id : List ℕ)
      → find id (erase plugin.name (assign plugin.name plugin plugins)) ≡ find id plugins
  put_and_taken plugin plugins h id = elim (Bool-cases (string_key.same id plugin.name)) [
    | inl e ↦
        subst (λ z. find z (erase plugin.name (assign plugin.name plugin plugins)) ≡ find z plugins)
          (sym (string_key.same_sound id plugin.name e))
          (find-erase plugin.name (assign plugin.name plugin plugins)
            ∙ sym (absent plugin.name plugins h))
    | inr e ↦
        find-erase_other plugin.name id (assign plugin.name plugin plugins) e
        ∙ find-assign_other plugin.name id plugin plugins e
  ]

  registered :
      (plugin : Plugin X W) (plugins : Plugins X W) (client : W)
      → (length plugin.name == 0) ≡ false
      → contains plugin.name plugins ≡ false
      → (plugin.on_load client).0 ≡ none
      → register_plugin (some plugin) plugins client
        ≡ (ok true, assign plugin.name plugin plugins, (plugin.on_load client).1)
  unfolding register_plugin load
  registered plugin plugins client e1 e2 e3 = rw (e1, e2, e3, load) refl

  rolled_back :
      (plugin : Plugin X W) (plugins : Plugins X W) (client : W) (x : X)
      → (length plugin.name == 0) ≡ false
      → contains plugin.name plugins ≡ false
      → (plugin.on_load client).0 ≡ some x
      → register_plugin (some plugin) plugins client ≡ (
        throws x,
        erase plugin.name (assign plugin.name plugin plugins),
        (plugin.on_load client).1,
      )
  unfolding register_plugin load
  rolled_back plugin plugins client x e1 e2 e3 = rw (e1, e2, e3, load) refl

  taken_out :
      (plugin : Plugin X W) (plugins : Plugins X W) (client : W)
      → find plugin.name plugins ≡ some plugin
      → unregister_plugin plugin.name plugins client
        ≡ (true, erase plugin.name plugins, plugin.on_unload client)
  unfolding unregister_plugin
  taken_out plugin plugins client e = rw (e, unregister_plugin) refl

  refused :
      (plugin : Plugin X W) (plugins : Plugins X W) (client : W)
      → (length plugin.name == 0) ≡ true ⊎ (contains plugin.name plugins ≡ true)
      → register_plugin (some plugin) plugins client ≡ (ok false, plugins, client)
  unfolding register_plugin
  refused plugin plugins client (inl e) = rw e refl
  refused plugin plugins client (inr e) = elim (Bool-cases (length plugin.name == 0)) [
    | inl f ↦ rw f refl
    | inr f ↦ rw (f, e) refl
  ]

  -- What register_plugin comes to. For a null pointer, an empty name or a name that is taken it answers
  -- `false`, and neither the plugins nor the client change. For any other plugin its hook runs on the
  -- client, once. If the hook returns, the answer is `true`, the plugin is found under its name, and
  -- every other name finds what it found before. If the hook throws, its exception comes out, and every
  -- lookup is as it was before.
  pub register_plugin_outcome :
      (pointer : Option (Plugin X W)) (plugins : Plugins X W) (client : W)
      → let (answer, after, client1) = register_plugin pointer plugins client in
        ((pointer ≡ none
            ⊎ (plugin : Plugin X W) × (pointer ≡ some plugin)
              × ((length plugin.name == 0) ≡ true ⊎ (contains plugin.name plugins ≡ true)))
          × ((answer ≡ ok false) × ((after ≡ plugins) × (client1 ≡ client))))
        ⊎ ((plugin : Plugin X W) × (pointer ≡ some plugin)
            × (((length plugin.name == 0) ≡ false)
                × ((contains plugin.name plugins ≡ false)
                    × ((client1 ≡ (plugin.on_load client).1)
                        × ((((plugin.on_load client).0 ≡ none)
                              × ((answer ≡ ok true)
                                  × ((get_plugin plugin.name after ≡ some plugin)
                                      × ((id : List ℕ)
                                          → string_key.same id plugin.name ≡ false
                                          → get_plugin id after ≡ get_plugin id plugins))))
                            ⊎ ((x : X) × ((plugin.on_load client).0 ≡ some x)
                                × ((answer ≡ throws x)
                                    × ((id : List ℕ)
                                        → get_plugin id after ≡ get_plugin id plugins))))))))
  unfolding register_plugin load get_plugin
  register_plugin_outcome none plugins client = inl (inl refl, (refl, (refl, refl)))
  register_plugin_outcome (some plugin) plugins client =
      elim (Bool-cases (length plugin.name == 0)) [
        | inl e ↦ inl (
            rw (refused plugin plugins client (inl e))
              (inr (plugin, refl, inl e), (refl, (refl, refl))))
        | inr e1 ↦ elim (Bool-cases (contains plugin.name plugins)) [
          | inl e ↦ inl (
              rw (refused plugin plugins client (inr e))
                (inr (plugin, refl, inr e), (refl, (refl, refl))))
          | inr e2 ↦ inr (
            plugin,
            refl,
            (
              e1,
              (
                e2,
                elim (Option-cases (plugin.on_load client).0) [
                  | inl f ↦ rw (registered plugin plugins client e1 e2 f) (
                    refl,
                    inl (
                      f,
                      (
                        refl,
                        (
                          find-assign plugin.name plugin plugins,
                          λ id g. find-assign_other plugin.name id plugin plugins g,
                        ),
                      ),
                    ),
                  )
                  | inr (x, f) ↦
                      rw (rolled_back plugin plugins client x e1 e2 f)
                        (refl, inr (x, f, (refl, put_and_taken plugin plugins e2)))
                ],
              ),
            ),
          )
        ]
      ]

  -- A plugin that has been registered can be unregistered, and then every lookup is as it was before;
  -- the client has been through both hooks.
  pub unregister_plugin-register_plugin :
      (plugin : Plugin X W) (plugins : Plugins X W) (client : W)
      → (length plugin.name == 0) ≡ false
      → contains plugin.name plugins ≡ false
      → (plugin.on_load client).0 ≡ none
      → let (answer, loaded, client1) = register_plugin (some plugin) plugins client in
        let (done, after, client2) = unregister_plugin plugin.name loaded client1 in
        (done ≡ true)
        × (client2 ≡ plugin.on_unload (plugin.on_load client).1)
        × ((id : List ℕ) → get_plugin id after ≡ get_plugin id plugins)
  unfolding get_plugin
  unregister_plugin-register_plugin plugin plugins client e1 e2 e3 =
      rw
        (
          registered plugin plugins client e1 e2 e3,
          taken_out plugin (assign plugin.name plugin plugins) (plugin.on_load client).1
              (find-assign plugin.name plugin plugins),
        )
        (refl, refl, put_and_taken plugin plugins e2)
