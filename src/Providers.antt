-- ===== src/Providers.antt =====
-- internal/model, the registry of models and the providers that fill it, over the repository of
-- internal/files/models.go. `C` is the settings of a model and `M` the models. What TOML makes of a
-- missing table of models is a nil map: `none`.
pub mod Updating
pub mod Unloaded
use arch_agent.Base.Dict.{Dict, delete, insert, lookup}
use arch_agent.Base.Fields.{problem_if}
use arch_agent.Base.Keys.{string_eq}
use arch_agent.Errors.{
  Error, Result, already_exist, err, errors_is, is_not_exist, ok, sentinel, text,
}
use arch_agent.Base.{Bool, List, Option, String, [], if◌then◌else◌, none, some, ◌∷◌}
use arch_agent.Errors.{◌>>=◌}
use arch_agent.Files.Storage.{create}
use arch_agent.Base.{false, not, true}
use arch_agent.Base.Keys.{Eq, ◌==◌}
use arch_agent.Errors.{problems}
use arch_agent.Base.{◌++◌}

pub record ProviderConfig (C : Type 0) : Type 0 where
  pub name : String
  pub base_url : String
  pub key_reference : String
  pub api_type : String
  pub models : Option (Dict String C)

-- A field that is not there is `none`.
pub record ProviderConfigPatch : Type 0 where
  pub name : Option String
  pub base_url : Option String
  pub key_reference : Option String
  pub api_type : Option String

-- The file of the providers with the errors of reading it and of the next writings, of which only
-- those that leave the file as it was are looked at.
pub record ProviderFile (C : Type 0) : Type 0 where
  pub providers : Dict String (ProviderConfig C)
  pub load_error : Option Error
  pub write_errors : List (Option Error)

-- The factories by API, path.Join of a provider and a model, strings.HasSuffix, and the setting of
-- the key "model".
pub record Making (C M : Type 0) : Type 0 where
  pub factories : Dict String (String → String → C → Result M)
  pub join_path : String → String → String
  pub has_suffix : String → String → Bool
  pub with_model : String → C → C

-- The models of the registry, and the file.
pub record Registered (C M : Type 0) : Type 0 where
  pub models : Dict String M
  pub file : ProviderFile C

-- What a method that writes to a map ends with: its error, or the panic of a nil map.
pub data Reply : Type 0 where
  replied : Option Error → Reply
  nil_map : Reply

module _ {C : Type 0} where
  abbrev pub write_providers :
      ProviderFile C → Dict String (ProviderConfig C) → Option Error × ProviderFile C
  write_providers f t = elim f.write_errors [
    | [] ↦ (none, record f { providers = t })
    | none ∷ rest ↦ (none, record f { providers = t; write_errors = rest })
    | some e ∷ rest ↦ (some e, record f { write_errors = rest })
  ]

  abbrev pub found_provider : String → Option (ProviderConfig C) → Result (ProviderConfig C)
  found_provider id none = err (sentinel is_not_exist)
  found_provider id (some p) = ok (record p { name = id })

  unfoldable pub get_provider : ProviderFile C → String → Result (ProviderConfig C)
  get_provider f id = elim f.load_error [
    | some e ↦ err e
    | none ↦ found_provider id (lookup id f.providers)
  ]

  abbrev pub replying : Option Error × ProviderFile C → Reply × ProviderFile C
  replying (e, f) = (replied e, f)

  -- The map of a file without a provider is nil, and is written to.
  abbrev pub save_loaded :
      ProviderFile C → ProviderConfig C → Dict String (ProviderConfig C) → Reply × ProviderFile C
  save_loaded f p [] = (nil_map, f)
  save_loaded f p (q ∷ qs) = replying (write_providers f (insert p.name p (q ∷ qs)))

  unfoldable pub save_provider : ProviderFile C → ProviderConfig C → Reply × ProviderFile C
  save_provider f p = elim f.load_error [
    | some e ↦ (replied (some e), f)
    | none ↦ save_loaded f p f.providers
  ]

  unfoldable pub remove_provider : ProviderFile C → String → Option Error × ProviderFile C
  remove_provider f id = elim f.load_error [
    | some e ↦ (some e, f)
    | none ↦ write_providers f (delete id f.providers)
  ]

  -- delete(providerConf.Models, modelName), which a nil map allows.
  abbrev pub without_model : String → Option (Dict String C) → Option (Dict String C)
  without_model model_name none = none
  without_model model_name (some models) = some (delete model_name models)

  abbrev pub models_of : Option (Dict String C) → Dict String C
  models_of none = []
  models_of (some models) = models

abbrev pub or_before : {M : Type 0} → Dict String M → Result (Dict String M) → Dict String M
or_before models (err e) = models
or_before models (ok changed) = changed

module _ {C M : Type 0} where
  -- (*ModelService).Get, of the models in any order.
  unfoldable pub find_model : Making C M → String → Dict String M → Result M
  find_model x name [] = err (sentinel is_not_exist)
  find_model x name ((k, m) ∷ models) =
      if x.has_suffix k name then ok m else find_model x name models

  abbrev pub made_by : ProviderConfig C → C → Option (String → String → C → Result M) → Result M
  made_by p c none = err (text "this api is not supported")
  made_by p c (some create) = create p.base_url p.key_reference c

  -- (*ModelService).add
  unfoldable pub add_model :
      Making C M → ProviderConfig C → String → C → Dict String M → Result (Dict String M)
  add_model x p model_name c models =
      made_by p (x.with_model model_name c) (lookup p.api_type x.factories) >>= λ m.
      ok (insert (x.join_path p.name model_name) m models)

  -- loadModels, whose errors are logged.
  unfoldable pub load_models :
      Making C M → ProviderConfig C → Dict String C → Dict String M → Dict String M
  unfolding add_model
  load_models x p [] models = models
  load_models x p ((model_name, c) ∷ cs) models =
      load_models x p cs (or_before models (add_model x p model_name c models))

  unfoldable pub load_providers :
      Making C M → Dict String (ProviderConfig C) → Dict String M → Dict String M
  unfolding load_models
  load_providers x [] models = models
  load_providers x ((id, p) ∷ ps) models =
      load_providers x ps (load_models x (record p { name = id }) (models_of p.models) models)

  unfoldable pub reload_providers : Making C M → Registered C M → Option Error × Registered C M
  unfolding load_providers
  reload_providers x s = elim s.file.load_error [
    | some e ↦ (some e, s)
    | none ↦ (none, record s { models = load_providers x s.file.providers s.models })
  ]

  -- The loop that takes the models of a provider out of the registry.
  unfoldable pub delete_models : Making C M → String → Dict String C → Dict String M → Dict String M
  delete_models x id [] models = models
  delete_models x id ((model_name, c) ∷ cs) models =
      delete_models x id cs (delete (x.join_path id model_name) models)

-- Validate of a configuration and of a patch: the problems by field.
abbrev pub validation_of : Dict String String → Option Error
validation_of [] = none
validation_of (p ∷ ps) = some (problems (p ∷ ps))

unfoldable pub validate_provider : {C : Type 0} → ProviderConfig C → Option Error
validate_provider p = validation_of (
    problem_if (not (p.api_type == "openai")) "api_type" "this api is not supported"
    ++ (problem_if (p.name == "") "name" "must be not empty"
        ++ problem_if (p.base_url == "") "base_url" "empty field"))

abbrev pub is_given_and : (String → Bool) → Option String → Bool
is_given_and test none = false
is_given_and test (some v) = test v

unfoldable pub validate_provider_patch : ProviderConfigPatch → Option Error
validate_provider_patch patch = validation_of (
    problem_if (is_given_and (λ v. not (v == "openai")) patch.api_type) "api_type"
      "this api is not supported"
    ++ (problem_if (is_given_and (λ v. v == "") patch.name) "name" "must be not empty"
        ++ problem_if (is_given_and (λ v. v == "") patch.base_url) "base_url" "empty field"))
