-- ===== src/Hooks/FileAccess/Symlinks.antt =====
-- The loop of containsSymlink in internal/hooks/filesystem.go: it ends, and what it ends with.
use arch_agent.Hooks.FileAccess.{PathLib, symlink_loop, symlink_round, contains_symlink}
use arch_agent.Base.{
  Bool, Bool-cases, Option, String, arith, false, inl, inr, none, not, refl, some, suc, true, zero,
  ℕ, ◌<◌, ◌≡◌, ◌⊎◌,
}
use arch_agent.Base.Keys.{string_eq, ◌==◌}
use arch_agent.Errors.{Error, Result, err, ok}

module _ {D : Type 0} (lib : PathLib D) where
  -- The nearest path at or above `cur` that does not count as missing settles the search: it is a
  -- symlink if it resolves to another path, and any other error is passed on. Without such a path
  -- there is no symlink.
  pub data Settles (d : D) : String → Result Bool → Type 0 where
    fails : {cur : String} {e : Error} → lib.eval_symlinks d cur ≡ err e → Settles d cur (err e)
    resolves :
        {cur resolved : String}
        → lib.eval_symlinks d cur ≡ ok (some resolved)
        → Settles d cur (ok (not (resolved == cur)))
    root :
        {cur : String}
        → lib.eval_symlinks d cur ≡ ok none
        → (lib.dir cur == cur) ≡ true
        → Settles d cur (ok false)
    climbs :
        {cur : String} {r : Result Bool}
        → lib.eval_symlinks d cur ≡ ok none
        → (lib.dir cur == cur) ≡ false
        → Settles d (lib.dir cur) r
        → Settles d cur r

  resolution-cases :
      (r : Result (Option String))
      → ((e : Error) × (r ≡ err e)) ⊎ ((r ≡ ok none) ⊎ ((q : String) × (r ≡ ok (some q))))
  resolution-cases (err e) = inl (e, refl)
  resolution-cases (ok none) = inr (inl refl)
  resolution-cases (ok (some q)) = inr (inr (q, refl))

  module _ (height : String → ℕ)
      (dir-lower : (p : String) → (lib.dir p == p) ≡ false → height (lib.dir p) < height p) where
    pub symlink_loop-Settles :
        (fuel : ℕ) (d : D) (cur : String)
        → height cur < fuel
        → (r : Result Bool) × (symlink_loop lib fuel d cur ≡ some r) × Settles d cur r
    unfolding symlink_loop symlink_round
    symlink_loop-Settles zero d cur h = absurd (omega arith)
    symlink_loop-Settles (suc n) d cur h = elim (resolution-cases (lib.eval_symlinks d cur)) [
      | inl (e, q) ↦ (err e, rw q refl, fails q)
      | inr (inr (p, q)) ↦ (ok (not (p == cur)), rw q refl, resolves q)
      | inr (inl q) ↦ elim (Bool-cases (lib.dir cur == cur)) [
        | inl top ↦ (ok false, rw (q, top) refl, root q top)
        | inr below ↦
            let (r, found, s) =
              symlink_loop-Settles n d (lib.dir cur) (omega (arith, dir-lower cur below, h)) in
            (r, rw (q, below) found, climbs q below s)
      ]
    ]

    -- If the parent of a path that is not its own parent is lower, by whatever measure, then the
    -- search ends within one round more than the cleaned path is high, and its answer is that of
    -- the nearest path at or above it that does not count as missing.
    pub contains_symlink-Settles :
        (fuel : ℕ) (d : D) (p : String)
        → height (lib.clean p) < fuel
        → (r : Result Bool) × (contains_symlink lib fuel d p ≡ some r) × Settles d (lib.clean p) r
    unfolding contains_symlink
    contains_symlink-Settles fuel d p h = symlink_loop-Settles fuel d (lib.clean p) h
