-- ===== src/Chat/Dispatcher/Progress.antt =====
-- No deadlock among the calls of Chat in internal/chat/dispatcher.go.
use arch_agent.Base.{
  Bool, false, true, Option, ap, arith, inl, inr, none, refl, some, subst, suc, true, zero, ℕ, ◌<◌,
  ◌∙◌, ◌≡◌, ◌≤◌, ◌⊎◌,
}
use arch_agent.Chat.Dispatcher.{
  Dispatcher, Phase, Reachable, closed, is_done, leaving, may_start, returned, swapped, waiting,
  working,
}
use arch_agent.Chat.Dispatcher.Exclusion.{Reachable-Invariant}
use arch_agent.Chat.Dispatcher.Fits.{Invariant, PhaseFits}
use arch_agent.Chat.Dispatcher.Phases.{started_before}

abbrev pub is_swapped : Phase → Bool
is_swapped (swapped prev) = true
is_swapped _ = false

-- The call `q` can take its next step: it is about to cancel the one before it, it may go inside,
-- or it is inside (and goes on once the service returns), or it is about to close its channel.
abbrev pub CanStep : Dispatcher → ℕ → Type 0
CanStep d q =
    (may_start d (d.calls q).phase ≡ true)
    ⊎ (((d.calls q).phase ≡ working)
        ⊎ (((d.calls q).phase ≡ leaving) ⊎ (is_swapped (d.calls q).phase ≡ true)))

Phase-cases :
    (phase : Phase)
    → ((prev : Option ℕ) × (phase ≡ waiting prev))
      ⊎ ((is_done phase ≡ true)
          ⊎ ((phase ≡ working) ⊎ ((phase ≡ leaving) ⊎ (is_swapped phase ≡ true))))
Phase-cases (waiting prev) = inl (prev, refl)
Phase-cases (swapped prev) = inr (inr (inr (inr refl)))
Phase-cases working = inr (inr (inl refl))
Phase-cases leaving = inr (inr (inr (inl refl)))
Phase-cases closed = inr (inl refl)
Phase-cases returned = inr (inl refl)

-- A call for the same key that is not later and can take its next step.
abbrev pub Unblocks : Dispatcher → ℕ → Type 0
Unblocks d p = (q : ℕ) × (q ≤ p) × ((d.calls q).key ≡ (d.calls p).key) × CanStep d q

waiting-Unblocks :
    (n : ℕ) (d : Dispatcher) (p : ℕ) (prev : Option ℕ)
    → Invariant d
    → p < n
    → (d.calls p).phase ≡ waiting prev
    → Unblocks d p
waiting-Unblocks zero d p prev inv lt h = absurd (ground arith)
waiting-Unblocks (suc n) d p none inv lt h = (p, omega arith, refl, inl (ap (may_start d) h))
waiting-Unblocks (suc n) d p (some r) inv lt h =
    let begun = started_before d p inv (λ q. ground arith) in
    let fits : PhaseFits d.calls p (waiting (some r)) =
      subst (PhaseFits d.calls p) h (inv.0 p begun) in
    elim (Phase-cases (d.calls r).phase) [
      | inl (prev, k) ↦
          let (q, le, key, can) = waiting-Unblocks n d r prev inv (omega (arith, fits.0)) k in
          (q, omega (arith, fits.0), key ∙ fits.1, can)
      | inr (inl done) ↦ (p, omega arith, refl, inl (ap (may_start d) h ∙ done))
      | inr (inr inside) ↦ (r, omega (arith, fits.0), fits.1, inr inside)
    ]

-- While a call waits, some call for its key, itself or an earlier one, can take its next step: the
-- calls never all wait for each other.
pub progress :
    (d : Dispatcher) (p : ℕ) (prev : Option ℕ)
    → Reachable d
    → (d.calls p).phase ≡ waiting prev
    → Unblocks d p
progress d p prev r h = waiting-Unblocks (suc p) d p prev (Reachable-Invariant d r) (omega arith) h
