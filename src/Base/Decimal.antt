-- ===== src/Base/Decimal.antt =====
-- `%d` of the package fmt on a number that is not negative.
use Prim.Native.Nat.{ℕ, zero, suc, ◌/◌, ◌%◌}
use Prim.Native.String.{String, slice}
use mathlib.Core.Path.{◌≡◌, refl}
use mathlib.Core.List.{[], ◌∷◌}
use arch_agent.Base.Tests.{ltb, if◌then◌else◌}
use arch_agent.Base.Lists.{concat}

abbrev digit : ℕ → String
digit n = slice "0123456789" n (suc n)

-- The digits of `n`, as a number has fewer digits than `suc n`.
abbrev digits : ℕ → ℕ → String
digits zero n = ""
digits (suc fuel) n =
    let higher = digits fuel (n / 10) in
    if ltb n 10 then digit n else concat (higher ∷ digit (n % 10) ∷ [])

unfoldable pub decimal : ℕ → String
decimal n = digits (suc n) n

test-decimal : concat (decimal 0 ∷ decimal 7 ∷ decimal 205 ∷ []) ≡ "07205"
unfolding decimal
test-decimal = refl
