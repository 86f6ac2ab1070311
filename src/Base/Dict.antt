-- ===== src/Base/Dict.antt =====
-- Go's `map[K]V` as an association list. The laws say what a client can observe; a range over a
-- map visits the entries in the list's order, and no theorem rests on that order.
use mathlib.Core.Path.{◌∙◌, ◌≡◌, refl}
use mathlib.Core.Logic.{inl, inr}
use mathlib.Core.List.{List, [], ◌∷◌}
use mathlib.Core.Option.{Option, none, some}
use native.Mathlib.Omega.{arith}
use arch_agent.Base.Tests.{Bool-cases, Bool-cases, if◌then◌else◌}
use arch_agent.Base.Keys.{Eq, ◌==◌, ==_iff}

abbrev pub Dict {ℓ} : Type ℓ → Type ℓ → Type ℓ
Dict K V = List (K × V)

module _ {ℓ} {K V : Type ℓ} ⦃e : Eq K⦄ where
  -- v, ok := m[k]
  unfoldable pub lookup : K → Dict K V → Option V
  lookup k [] = none
  lookup k ((j, v) ∷ m) = if j == k then some v else lookup k m

  -- m[k] = v
  unfoldable pub insert : K → V → Dict K V → Dict K V
  insert key new [] = (key, new) ∷ []
  insert key new ((j, old) ∷ rest) =
      if j == key then (key, new) ∷ rest else (j, old) ∷ insert key new rest

  -- delete(m, k)
  unfoldable pub delete : K → Dict K V → Dict K V
  delete k [] = []
  delete k ((j, v) ∷ m) = let rest = delete k m in if j == k then rest else (j, v) ∷ rest

  pub lookup-insert :
      (k j : K) (v : V) (m : Dict K V)
      → lookup j (insert k v m) ≡ (if k == j then some v else lookup j m)
  unfolding lookup insert
  lookup-insert k j new [] = refl
  lookup-insert k j new ((i, old) ∷ rest) =
      ground (arith, ==_iff k j, ==_iff i k, ==_iff i j, lookup-insert k j new rest)

  pub lookup-delete :
      (k j : K) (m : Dict K V) → lookup j (delete k m) ≡ (if k == j then none else lookup j m)
  unfolding lookup delete
  lookup-delete k j [] = ground arith
  lookup-delete k j ((i, w) ∷ m) =
      ground (arith, ==_iff k j, ==_iff i k, ==_iff i j, lookup-delete k j m)

pub ruleset dict_laws = (lookup-insert, lookup-delete)

-- Each key has one entry, as in a map of Go.
abbrev pub IsDict {ℓ} : {K V : Type ℓ} ⦃e : Eq K⦄ → Dict K V → Type ℓ
IsDict [] = Unit
IsDict ((k, v) ∷ m) = (lookup k m ≡ none) × IsDict m

-- Each value stands under its own name.
abbrev pub Keyed {ℓ} : {K V : Type ℓ} → (V → K) → Dict K V → Type ℓ
Keyed f [] = Unit
Keyed f ((k, v) ∷ m) = (f v ≡ k) × Keyed f m

module _ {ℓ} {K V : Type ℓ} ⦃e : Eq K⦄ where
  pub insert-IsDict : (k : K) (v : V) (m : Dict K V) → IsDict m → IsDict (insert k v m)
  unfolding lookup insert
  insert-IsDict k v [] h = (refl, tt)
  insert-IsDict k v ((j, w) ∷ m) h = elim (Bool-cases (j == k)) [
    | inl q ↦ rw q (rw (← (==_iff j k).0 q) h.0, h.1)
    | inr q ↦ rw q (
      lookup-insert k j v m ∙ ground (arith, ==_iff j k, ==_iff k j, h.0),
      insert-IsDict k v m h.1,
    )
  ]

  pub delete-IsDict : (k : K) (m : Dict K V) → IsDict m → IsDict (delete k m)
  unfolding lookup delete
  delete-IsDict k [] h = tt
  delete-IsDict k ((j, w) ∷ m) h = elim (Bool-cases (j == k)) [
    | inl q ↦ rw q (delete-IsDict k m h.1)
    | inr q ↦ rw q (lookup-delete k j m ∙ ground (arith, h.0), delete-IsDict k m h.1)
  ]

  pub insert-Keyed :
      (f : V → K) (k : K) (v : V) (m : Dict K V) → f v ≡ k → Keyed f m → Keyed f (insert k v m)
  unfolding insert
  insert-Keyed f k v [] h ks = (h, tt)
  insert-Keyed f k v ((j, w) ∷ m) h ks = elim (Bool-cases (j == k)) [
    | inl q ↦ rw q (h, ks.1)
    | inr q ↦ rw q (ks.0, insert-Keyed f k v m h ks.1)
  ]

  pub delete-Keyed : (f : V → K) (k : K) (m : Dict K V) → Keyed f m → Keyed f (delete k m)
  unfolding delete
  delete-Keyed f k [] ks = tt
  delete-Keyed f k ((j, w) ∷ m) ks = elim (Bool-cases (j == k)) [
    | inl q ↦ rw q (delete-Keyed f k m ks.1)
    | inr q ↦ rw q (ks.0, delete-Keyed f k m ks.1)
  ]

  pub lookup-Keyed :
      (f : V → K) (k : K) (m : Dict K V) (v : V) → Keyed f m → lookup k m ≡ some v → f v ≡ k
  unfolding lookup
  lookup-Keyed f k [] v ks h = cc
  lookup-Keyed f k ((j, w) ∷ m) v ks h = ground (arith, ==_iff j k, ks.0, lookup-Keyed f k m v ks.1)
