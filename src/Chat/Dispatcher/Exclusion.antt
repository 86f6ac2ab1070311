-- ===== src/Chat/Dispatcher/Exclusion.antt =====
-- Mutual exclusion of the calls of Chat in internal/chat/dispatcher.go.
use arch_agent.Base.{ap, arith, false, refl, sym, true, ℕ, ◌<◌, ◌≡◌}
use arch_agent.Base.Keys.{string_eq, pair_eq}
use arch_agent.Base.Dict.{lookup}
use arch_agent.Chat.Dispatcher.{
  Dispatcher, Phase, Reachable, SessionKey, Step, after, begins, cancel, cancels, closed, closes,
  ends, finish, interrupt, interrupts, is_done, leaving, may_start, new_dispatcher, remove_process,
  removes, returned, set_phase, starting, starts, working,
}
use arch_agent.Chat.Dispatcher.Beginning.{begin-Invariant}
use arch_agent.Chat.Dispatcher.Fits.{Done, Invariant, has_begun}
use arch_agent.Chat.Dispatcher.Phases.{
  begun-Ready, cancel-Invariant, cancel_before-Invariant, cancel_prev-Invariant, may_start-Ready,
  remove_process-Invariant, set_phase-Invariant, started_before,
}

pub remove_process-calls :
    (d : Dispatcher) (key : SessionKey) (p : ℕ)
    → ((remove_process d key p).calls ≡ d.calls) × ((remove_process d key p).started ≡ d.started)
unfolding remove_process
remove_process-calls d key p = ground arith

finish-Invariant :
    (d : Dispatcher) (p : ℕ) → (d.calls p).phase ≡ closed → Invariant d → Invariant (finish d p)
unfolding finish
finish-Invariant d p h inv =
    let lt = started_before d p inv (λ q. ground arith) in
    let done : Done d.calls p = ap is_done h in
    let (same, started) = remove_process-calls d (d.calls p).key p in
    set_phase-Invariant (remove_process d (d.calls p).key p) p returned refl (λ _. refl)
      (rw started lt) (rw same (begun-Ready d p inv lt (ap has_begun h)))
      (remove_process-Invariant d (d.calls p).key p done inv)

close-Invariant :
    (d : Dispatcher) (p : ℕ)
    → (d.calls p).phase ≡ leaving
    → Invariant d
    → Invariant (set_phase (cancel d p) p closed)
unfolding cancel
close-Invariant d p h inv =
    let lt = started_before d p inv (λ q. ground arith) in
    let inv' = cancel-Invariant d p inv in
    set_phase-Invariant (cancel d p) p closed refl (λ _. refl) lt
      (begun-Ready (cancel d p) p inv' lt (ground arith)) inv'

pub may_start-undone :
    (d : Dispatcher) (phase : Phase) → may_start d phase ≡ true → is_done phase ≡ false
may_start-undone d phase h = ground arith

Step-Invariant : (d d' : Dispatcher) → Step d d' → Invariant d → Invariant d'
unfolding interrupt
Step-Invariant _ _ (begins d key) inv = begin-Invariant d key inv
Step-Invariant _ _ (cancels d p prev h) inv = cancel_before-Invariant d p prev h inv
Step-Invariant _ _ (starts d p h) inv =
    let lt = started_before d p inv (λ q. ground arith) in
    set_phase-Invariant d p working refl
      (λ q. absurd (ground (arith, q, may_start-undone d (d.calls p).phase h))) lt
      (may_start-Ready d p _ inv lt h (inv.0 p lt)) inv
Step-Invariant _ _ (ends d p h) inv =
    let lt = started_before d p inv (λ q. ground arith) in
    set_phase-Invariant d p leaving refl (λ q. absurd (ground arith)) lt
      (begun-Ready d p inv lt (ap has_begun h)) inv
Step-Invariant _ _ (closes d p h) inv = close-Invariant d p h inv
Step-Invariant _ _ (removes d p h) inv = finish-Invariant d p h inv
Step-Invariant _ _ (interrupts d key) inv = cancel_prev-Invariant (lookup key d.processes) d inv

new_dispatcher-Invariant : Invariant new_dispatcher
unfolding new_dispatcher lookup
new_dispatcher-Invariant = (λ q lt. absurd (ground arith), λ key p lt k. refl, λ p le. refl)

pub Reachable-Invariant : (d : Dispatcher) → Reachable d → Invariant d
Reachable-Invariant _ starting = new_dispatcher-Invariant
Reachable-Invariant _ (after d d' r s) = Step-Invariant d d' s (Reachable-Invariant d r)

-- No call for a key is inside while a later one is.
working-last :
    (d : Dispatcher) (p q : ℕ)
    → Invariant d
    → (d.calls p).phase ≡ working
    → (d.calls q).phase ≡ working
    → (d.calls p).key ≡ (d.calls q).key
    → p < q
    → ⊥
working-last d p q inv hp hq k lt =
    let begun = started_before d q inv (λ r. ground arith) in
    let done = begun-Ready d q inv begun (ap has_begun hq) p lt k in ground arith

-- However the calls of Chat and Interrupt interleave, two calls that are inside Service.Chat for
-- the same agent and session are the same call.
pub exclusion :
    (d : Dispatcher) (p q : ℕ)
    → Reachable d
    → (d.calls p).phase ≡ working
    → (d.calls q).phase ≡ working
    → (d.calls p).key ≡ (d.calls q).key
    → p ≡ q
exclusion d p q r hp hq k =
    let inv = Reachable-Invariant d r in
    let first = working-last d p q inv hp hq k in
    let second = working-last d q p inv hq hp (sym k) in ground (arith, first, second)
