-- ===== src/Base/Fields.antt =====
-- Fields that a patch may leave out, and the problems that a field may have.
use mathlib.Core.Bool.{Bool, true, false}
use mathlib.Core.Option.{Option, none, some}
use mathlib.Core.List.{[], ◌∷◌}
use Prim.Native.String.{String}
use arch_agent.Base.Dict.{Dict}

abbrev pub patched {ℓ} : {A : Type ℓ} → A → Option A → A
patched old none = old
patched old (some new) = new

abbrev pub problem_if : Bool → String → String → Dict String String
problem_if true k v = (k, v) ∷ []
problem_if false k v = []
