-- ===== src/Tests/Providing.antt =====
-- Examples for internal/model and internal/secrets.
use arch_agent.Providers.{Making, ProviderConfig, ProviderConfigPatch}
use arch_agent.Base.{String, [], concat, none, some, ◌∷◌, ◌≡◌}
use arch_agent.Base.Keys.{string_eq, ◌==◌}
use arch_agent.Errors.{ok}
use arch_agent.Base.{if◌then◌else◌, true, ℕ}
use arch_agent.Secrets.{Secrets, replacer_pairs}
use arch_agent.Secrets.Served.{has_text, hidden_by, longest_first, replacer_pairs-longest_first}
use arch_agent.Base.Dict.{Dict}

-- A model is its name; the settings of a model are not looked at.
abbrev making : Making (Unit {0}) String
making = record {
  factories = ("openai", λ base key c. ok base) ∷ [];
  join_path = λ p m. concat (p ∷ "/" ∷ m ∷ []);
  has_suffix = λ k name. k == name;
  with_model = λ name c. c;
}

abbrev local : ProviderConfig (Unit {0})
local = record {
  name = "local";
  base_url = "http://localhost";
  key_reference = "KEY";
  api_type = "openai";
  models = some (("small", tt) ∷ []);
}

abbrev two_providers : Dict String (ProviderConfig (Unit {0}))
two_providers = ("local", local) ∷ ("cloud", record local { name = "cloud" }) ∷ []

abbrev new_url : ProviderConfigPatch
new_url = record {
  name = some "home";
  base_url = some "http://home";
  key_reference = none;
  api_type = none;
}

abbrev two_secrets : Secrets
two_secrets = record {
  secrets = ("A", "sk-1") ∷ ("B", "sk-1-long") ∷ ("C", "") ∷ [];
  file = [];
  load_error = none;
  save_error = none;
}

-- The lengths of the secrets of the example.
abbrev length_of : String → ℕ
length_of v = if v == "sk-1" then 4 else if v == "sk-1-long" then 9 else 0

replacer_pairs-longest_first_example :
    (longest_first length_of (hidden_by (replacer_pairs length_of two_secrets)) ≡ true)
    × (has_text "sk-1" (hidden_by (replacer_pairs length_of two_secrets)) ≡ true)
replacer_pairs-longest_first_example = replacer_pairs-longest_first length_of two_secrets "sk-1"
