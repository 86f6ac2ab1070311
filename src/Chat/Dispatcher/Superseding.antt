-- ===== src/Chat/Dispatcher/Superseding.antt =====
-- In internal/chat/dispatcher.go a call of Chat cancels the one that it waits for.
use arch_agent.Base.{
  Bool, Option, ap, arith, false, inl, inr, none, refl, some, sym, true, ℕ, ◌<◌, ◌||◌, ◌∙◌, ◌≡◌,
}
use arch_agent.Base.Keys.{string_eq, pair_eq}
use arch_agent.Base.Dict.{lookup}
use arch_agent.Chat.Dispatcher.{
  returned, remove_process, closed, interrupt, finish, Dispatcher, Phase, Process, Reachable,
  SessionKey, Step, after, begin, begins, cancel, cancel_prev, closes, ends, interrupts, is_done,
  leaving, new_dispatcher, removes, set_phase, starting, starts, waiting, working,
}
use arch_agent.Chat.Dispatcher.Beginning.{update-other}
use arch_agent.Chat.Dispatcher.Exclusion.{
  remove_process-calls, Reachable-Invariant, may_start-undone,
}
use arch_agent.Chat.Dispatcher.Fits.{Calls, Done, Invariant}
use arch_agent.Chat.Dispatcher.{update}
use arch_agent.Base.{subst, ◌≤◌}
use arch_agent.Chat.Dispatcher.{cancel_before, cancels, swapped}
use arch_agent.Chat.Dispatcher.Fits.{PhaseFits}
use arch_agent.Chat.Dispatcher.Phases.{same_or_other, started_before}
use arch_agent.Base.{nat_eq}
use arch_agent.Chat.Dispatcher.Phases.{cancel_prev-phase}

-- A call that was cancelled or is done.
abbrev pub is_over : Process → Bool
is_over c = c.cancelled || is_done c.phase

abbrev Over : Calls → ℕ → Type 0
Over calls p = is_over (calls p) ≡ true

-- What a call waits for is over.
abbrev Cancels : Calls → Type 0
Cancels calls = (q p : ℕ) → (calls q).phase ≡ waiting (some p) → Over calls p

-- What is over stays so, and no call begins to wait.
abbrev Keeps : Calls → Calls → Type 0
Keeps calls calls' =
    ((p : ℕ) → Over calls p → Over calls' p)
    × ((q p : ℕ) → (calls' q).phase ≡ waiting (some p) → (calls q).phase ≡ waiting (some p))

Keeps-Cancels : (calls calls' : Calls) → Keeps calls calls' → Cancels calls → Cancels calls'
Keeps-Cancels calls calls' k c q p h = k.0 p (c q p (k.1 q p h))

abbrev is_waiting : Phase → Bool
is_waiting (waiting prev) = true
is_waiting _ = false

set_phase-Keeps :
    (d : Dispatcher) (p : ℕ) (phase : Phase)
    → (Done d.calls p → is_done phase ≡ true)
    → is_waiting phase ≡ false
    → Keeps d.calls (set_phase d p phase).calls
unfolding set_phase
set_phase-Keeps d p phase done still = (
  λ q over. ground (arith, over, done),
  λ q r h. elim (same_or_other p q) [
    | inl same ↦
        let now : ((set_phase d p phase).calls q).phase ≡ phase = ground arith in
        let clash : is_waiting phase ≡ true = ap is_waiting (sym now ∙ h) in absurd (ground arith)
    | inr other ↦
        let old : ((set_phase d p phase).calls q).phase ≡ (d.calls q).phase = ground arith in
        sym old ∙ h
  ],
)

cancel_prev-Keeps : (prev : Option ℕ) (d : Dispatcher) → Keeps d.calls (cancel_prev prev d).calls
unfolding cancel
cancel_prev-Keeps none d = (λ p over. over, λ q p h. h)
cancel_prev-Keeps (some r) d =
    (λ p over. ground (arith, over), λ q p h. sym (cancel_prev-phase (some r) d q) ∙ h)

cancel-Over : (d : Dispatcher) (p : ℕ) → Over (cancel d p).calls p
unfolding cancel
cancel-Over d p = ground arith

set_phase-Over :
    (d : Dispatcher) (p : ℕ) (prev : Option ℕ) (r : ℕ)
    → (d.calls p).phase ≡ swapped prev
    → Over d.calls r
    → Over (set_phase d p (waiting prev)).calls r
unfolding set_phase
set_phase-Over d p prev r h over = elim (same_or_other p r) [
  | inl same ↦
      let own : (d.calls r).phase ≡ swapped prev = ap (λ x. (d.calls x).phase) (sym same) ∙ h in
      ground (arith, over, own)
  | inr other ↦ ground (arith, over)
]

set_phase-other :
    (d : Dispatcher) (p : ℕ) (phase : Phase) (q : ℕ)
    → nat_eq p q ≡ false
    → ((set_phase d p phase).calls q).phase ≡ (d.calls q).phase
unfolding set_phase
set_phase-other d p phase q other = ground arith

waiting_for : {prev : Option ℕ} {r : ℕ} → waiting prev ≡ waiting (some r) → prev ≡ some r
waiting_for h = cc

own_cancel :
    (d : Dispatcher) (p : ℕ) (prev : Option ℕ) (q r : ℕ)
    → p ≡ q
    → ((set_phase (cancel_prev prev d) p (waiting prev)).calls q).phase ≡ waiting (some r)
    → Over (cancel_prev prev d).calls r
unfolding set_phase
own_cancel d p prev q r same w =
    let now : ((set_phase (cancel_prev prev d) p (waiting prev)).calls q).phase ≡ waiting prev =
      ground arith in
    let e : prev ≡ some r = waiting_for (sym now ∙ w) in
    subst (λ o. Over (cancel_prev o d).calls r) (sym e) (cancel-Over d r)

begin-Cancels :
    (d : Dispatcher) (key : SessionKey)
    → Invariant d
    → Cancels d.calls
    → Cancels (begin d key).calls
unfolding begin
begin-Cancels d key inv c q p w =
    let entry = lookup key d.processes in
    let fresh : Process = record { key = key; phase = swapped entry; cancelled = false } in
    let calls' = update d.started fresh d.calls in
    elim (same_or_other d.started q) [
      | inl same ↦
          let now : (calls' q).phase ≡ swapped entry = ground arith in
          let clash : is_waiting (swapped entry) ≡ true = ap is_waiting (sym now ∙ w) in
          absurd (ground arith)
      | inr other ↦
          let old : (calls' q).phase ≡ (d.calls q).phase = ground arith in
          let waits : (d.calls q).phase ≡ waiting (some p) = sym old ∙ w in
          let began = started_before d q inv (λ x. ground arith) in
          let fits : PhaseFits d.calls q (waiting (some p)) =
            subst (PhaseFits d.calls q) waits (inv.0 q began) in
          let before = update-other d.started fresh d.calls p (omega (arith, fits.0, began)) in
          ap is_over before ∙ c q p waits
    ]

cancel_before-Cancels :
    (d : Dispatcher) (p : ℕ) (prev : Option ℕ)
    → (d.calls p).phase ≡ swapped prev
    → Cancels d.calls
    → Cancels (cancel_before d p prev).calls
unfolding cancel_before
cancel_before-Cancels d p prev h c q r w =
    let m = cancel_prev prev d in
    let kept : Cancels m.calls = Keeps-Cancels d.calls m.calls (cancel_prev-Keeps prev d) c in
    let undone : Over m.calls r → Over (set_phase m p (waiting prev)).calls r =
      λ over. set_phase-Over m p prev r (cancel_prev-phase prev d p ∙ h) over in
    elim (same_or_other p q) [
      | inl same ↦ undone (own_cancel d p prev q r same w)
      | inr other ↦ undone (kept q r (sym (set_phase-other m p (waiting prev) q other) ∙ w))
    ]

Step-Cancels : (d d' : Dispatcher) → Step d d' → Invariant d → Cancels d.calls → Cancels d'.calls
unfolding finish interrupt
Step-Cancels _ _ (begins d key) inv s = begin-Cancels d key inv s
Step-Cancels _ _ (cancels d p prev h) inv s = cancel_before-Cancels d p prev h s
Step-Cancels _ _ (starts d p h) inv s =
    let undone = may_start-undone d (d.calls p).phase h in
    Keeps-Cancels d.calls (set_phase d p working).calls
      (set_phase-Keeps d p working (λ q. absurd (ground (arith, q, undone))) refl) s
Step-Cancels _ _ (ends d p h) inv s =
    Keeps-Cancels d.calls (set_phase d p leaving).calls
      (set_phase-Keeps d p leaving (λ q. absurd (ground arith)) refl) s
Step-Cancels _ _ (closes d p h) inv s =
    let c = cancel d p in
    Keeps-Cancels c.calls (set_phase c p closed).calls (set_phase-Keeps c p closed (λ q. refl) refl)
      (Keeps-Cancels d.calls c.calls (cancel_prev-Keeps (some p) d) s)
Step-Cancels _ _ (removes d p h) inv s =
    let r = remove_process d (d.calls p).key p in
    let (same, started) = remove_process-calls d (d.calls p).key p in
    Keeps-Cancels r.calls (set_phase r p returned).calls
      (set_phase-Keeps r p returned (λ q. refl) refl) (rw same s)
Step-Cancels _ _ (interrupts d key) inv s =
    let entry = lookup key d.processes in
    Keeps-Cancels d.calls (cancel_prev entry d).calls (cancel_prev-Keeps entry d) s

Reachable-Cancels : (d : Dispatcher) → Reachable d → Cancels d.calls
unfolding new_dispatcher
Reachable-Cancels _ starting = λ q p h. absurd (ground arith)
Reachable-Cancels _ (after d d' r st) =
    Step-Cancels d d' st (Reachable-Invariant d r) (Reachable-Cancels d r)

-- However the calls interleave, a call of Chat that waits for another one waits for the last call
-- before it for the same agent and session, and that one is cancelled or done.
pub superseding :
    (d : Dispatcher) (q p r : ℕ)
    → Reachable d
    → (d.calls q).phase ≡ waiting (some p)
    → r < q
    → (d.calls r).key ≡ (d.calls q).key
    → (r ≤ p) × (p < q) × ((d.calls p).key ≡ (d.calls q).key) × (is_over (d.calls p) ≡ true)
superseding d q p r reach h lt k =
    let inv = Reachable-Invariant d reach in
    let began = started_before d q inv (λ x. ground arith) in
    let fits : PhaseFits d.calls q (waiting (some p)) =
      subst (PhaseFits d.calls q) h (inv.0 q began) in
    (fits.2 r lt k, fits.0, fits.1, Reachable-Cancels d reach q p h)
