-- ===== src/Providers/Unloaded.antt =====
-- What UpdateProvider of internal/model/provider.go leaves.
use arch_agent.Base.Keys.{string_eq}
use arch_agent.Providers.{save_provider, ProviderConfig, ProviderFile, Making}
use arch_agent.Base.{Bool, String, [], false, if◌then◌else◌, none, ◌||◌, ◌∷◌}
use arch_agent.Base.Dict.{Dict, delete}
use arch_agent.Base.Keys.{◌==◌}
use arch_agent.Providers.{save_provider}
use arch_agent.Base.{true}

-- A file that can be read and written.
abbrev pub working : {C : Type 0} → Dict String (ProviderConfig C) → ProviderFile C
working t = record { providers = t; load_error = none; write_errors = [] }

module _ {C M : Type 0} where
  abbrev pub is_model_of : Making C M → String → Dict String C → String → Bool
  is_model_of x id [] k = false
  is_model_of x id ((model_name, c) ∷ cs) k =
      (x.join_path id model_name == k) || is_model_of x id cs k

module _ {C : Type 0} where
  -- The map that the change of the provider is written to.
  abbrev pub map_for :
      String → ProviderConfig C → Dict String (ProviderConfig C) → Dict String (ProviderConfig C)
  map_for id p t = if p.name == id then t else delete id t

  abbrev pub has_entry : Dict String (ProviderConfig C) → Bool
  has_entry [] = false
  has_entry (q ∷ qs) = true
