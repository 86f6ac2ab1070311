-- ===== src/Providers/Updating.antt =====
-- The changes of internal/model/provider.go.
use arch_agent.Base.Fields.{patched}
use arch_agent.Base.Keys.{string_eq}
use arch_agent.Errors.{
  Error, Result, already_exist, err, errors_is, is_not_exist, ok, sentinel, text,
}
use arch_agent.Providers.{
  ProviderConfig, ProviderConfigPatch, ProviderFile, Making, Registered, Reply, nil_map, replied,
  add_model, delete_models, get_provider, models_of, remove_provider, save_provider,
}
use arch_agent.Base.{Option, String, if◌then◌else◌, none, some}
use arch_agent.Base.Dict.{Dict, delete, insert}
use arch_agent.Base.Keys.{◌==◌}
use arch_agent.Providers.{without_model}

module _ {C : Type 0} where
  -- AddProvider, by what Get returned for the name.
  abbrev pub add_unless :
      ProviderFile C → ProviderConfig C → Result (ProviderConfig C) → Reply × ProviderFile C
  add_unless f p (ok old) = (replied (some (sentinel already_exist)), f)
  add_unless f p (err e) =
      if errors_is e is_not_exist then save_provider f p else (replied (some e), f)

  unfoldable pub add_provider : ProviderFile C → ProviderConfig C → Reply × ProviderFile C
  unfolding get_provider save_provider
  add_provider f p = add_unless f p (get_provider f p.name)

  unfoldable pub apply_provider_patch : ProviderConfig C → ProviderConfigPatch → ProviderConfig C
  apply_provider_patch p patch = record p {
    name = patched p.name patch.name;
    base_url = patched p.base_url patch.base_url;
    key_reference = patched p.key_reference patch.key_reference;
    api_type = patched p.api_type patch.api_type;
  }

  abbrev pub save_after_removal :
      ProviderConfig C → Option Error × ProviderFile C → Reply × ProviderFile C
  save_after_removal p (some e, f) = (replied (some e), f)
  save_after_removal p (none, f) = save_provider f p

  -- A new name has the old entry removed first.
  unfoldable pub store_provider :
      String → ProviderConfig C → ProviderFile C → Reply × ProviderFile C
  unfolding save_provider remove_provider
  store_provider id p f =
      if p.name == id then save_provider f p else save_after_removal p (remove_provider f id)

module _ {C M : Type 0} where
  abbrev pub stored_with : Dict String M → Reply × ProviderFile C → Reply × Registered C M
  stored_with models (e, f) = (e, record { models = models; file = f })

  abbrev pub update_found :
      Making C M
      → String
      → ProviderConfigPatch
      → Registered C M
      → Result (ProviderConfig C)
      → Reply × Registered C M
  update_found x id patch s (err e) = (replied (some e), s)
  update_found x id patch s (ok p) =
      stored_with (delete_models x id (models_of p.models) s.models)
        (store_provider id (apply_provider_patch p patch) s.file)

  unfoldable pub update_provider :
      Making C M → String → ProviderConfigPatch → Registered C M → Reply × Registered C M
  unfolding delete_models store_provider apply_provider_patch get_provider
  update_provider x id patch s = update_found x id patch s (get_provider s.file id)

  abbrev pub removed_with :
      Dict String M → Option Error × ProviderFile C → Option Error × Registered C M
  removed_with models (e, f) = (e, record { models = models; file = f })

  abbrev pub delete_found_provider :
      Making C M
      → String
      → Registered C M
      → Result (ProviderConfig C)
      → Option Error × Registered C M
  delete_found_provider x id s (err e) = (some e, s)
  delete_found_provider x id s (ok p) =
      removed_with (delete_models x id (models_of p.models) s.models) (remove_provider s.file id)

  unfoldable pub delete_provider :
      Making C M → String → Registered C M → Option Error × Registered C M
  unfolding delete_models get_provider remove_provider
  delete_provider x id s = delete_found_provider x id s (get_provider s.file id)

  -- DeleteModel: the registry changes once the file is written.
  abbrev pub drop_model :
      Making C M → String → String → Dict String M → Reply × ProviderFile C → Reply × Registered C M
  drop_model x id model_name models (nil_map, f) = (nil_map, record { models = models; file = f })
  drop_model x id model_name models (replied (some e), f) =
      (replied (some e), record { models = models; file = f })
  drop_model x id model_name models (replied none, f) =
      (replied none, record { models = delete (x.join_path id model_name) models; file = f })

  abbrev pub delete_model_of :
      Making C M
      → String
      → String
      → Registered C M
      → Result (ProviderConfig C)
      → Reply × Registered C M
  delete_model_of x id model_name s (err e) = (replied (some e), s)
  delete_model_of x id model_name s (ok p) =
      drop_model x id model_name s.models
        (save_provider s.file (record p { models = without_model model_name p.models }))

  unfoldable pub delete_model :
      Making C M → String → String → Registered C M → Reply × Registered C M
  unfolding get_provider save_provider
  delete_model x id model_name s = delete_model_of x id model_name s (get_provider s.file id)

  -- SetModel, behind the making of the model: the configuration that is written has the key "model",
  -- as the settings are the same map; a provider without a table of models makes it panic.
  abbrev pub set_in :
      Making C M
      → ProviderConfig C
      → String
      → C
      → ProviderFile C
      → Dict String M
      → Option (Dict String C)
      → Reply × Registered C M
  set_in x p model_name c f models none = (nil_map, record { models = models; file = f })
  set_in x p model_name c f models (some cs) =
      let (e, f') =
        save_provider f
          (record p { models = some (insert model_name (x.with_model model_name c) cs) }) in
      (e, record { models = models; file = f' })

  abbrev pub set_made :
      Making C M
      → ProviderConfig C
      → String
      → C
      → Registered C M
      → Result (Dict String M)
      → Reply × Registered C M
  set_made x p model_name c s (err e) = (replied (some e), s)
  set_made x p model_name c s (ok models) = set_in x p model_name c s.file models p.models

  abbrev pub set_found :
      Making C M → String → C → Registered C M → Result (ProviderConfig C) → Reply × Registered C M
  set_found x model_name c s (err e) = (replied (some e), s)
  set_found x model_name c s (ok p) =
      set_made x p model_name c s (add_model x p model_name c s.models)

  unfoldable pub set_model :
      Making C M → String → String → C → Registered C M → Reply × Registered C M
  unfolding get_provider add_model save_provider
  set_model x id model_name c s =
      if model_name == ""
      then (replied (some (text "model name is required")), s)
      else set_found x model_name c s (get_provider s.file id)
