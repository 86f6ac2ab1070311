-- ===== src/Chat/Dispatcher/Phases.antt =====
-- The steps of internal/chat/dispatcher.go that set a phase or delete an entry keep the invariant.
use arch_agent.Base.{
  Bool-cases, Option, Option-cases, ap, arith, false, inl, inr, nat_eq, none, some, subst, sym,
  true, ℕ, ◌<◌, ◌∙◌, ◌≡◌, ◌≤◌, ◌⊎◌,
}
use arch_agent.Base.Keys.{string_eq, pair_eq}
use arch_agent.Base.Dict.{delete, lookup, lookup-delete}
use arch_agent.Base.Keys.{==_iff, string_eq, ◌==◌}
use arch_agent.Chat.Dispatcher.{
  Dispatcher, Phase, SessionKey, cancel, cancel_before, cancel_prev, closed, is_done, leaving,
  may_start, remove_process, returned, set_phase, swapped, waiting, working,
}
use arch_agent.Chat.Dispatcher.Fits.{
  Done, EntryFits, Invariant, PhaseFits, PhaseFits-Ready, Ready, Ready-PhaseFits, advance-Invariant,
  has_begun,
}
use arch_agent.Base.{refl}

pub same_or_other : (p q : ℕ) → (p ≡ q) ⊎ (nat_eq p q ≡ false)
same_or_other p q = elim (Bool-cases (nat_eq p q)) [ inl y ↦ inl (ground arith) | inr n ↦ inr n ]

pub earlier_or_same : (p q : ℕ) → p ≤ q → (p < q) ⊎ (p ≡ q)
earlier_or_same p q le = ground arith

-- A step that sets a phase which fits.
pub set_phase-fits :
    (d : Dispatcher) (p : ℕ) (phase : Phase)
    → (Done d.calls p → is_done phase ≡ true)
    → p < d.started
    → PhaseFits d.calls p phase
    → Invariant d
    → Invariant (set_phase d p phase)
unfolding set_phase
set_phase-fits d p phase done lt fits inv =
    advance-Invariant d (set_phase d p phase).calls
      (
        λ q. ground arith,
        λ q h. ground (arith, done),
        λ q. elim (same_or_other p q) [
          | inl same ↦
              let new : phase ≡ ((set_phase d p phase).calls q).phase = ground arith in
              inr (
                subst (λ r. r < d.started) same lt,
                subst (PhaseFits d.calls q) new (subst (λ r. PhaseFits d.calls r phase) same fits),
              )
          | inr other ↦ inl (ground arith)
        ],
      )
      inv

-- The steps that set a phase in which the call has begun.
pub set_phase-Invariant :
    (d : Dispatcher) (p : ℕ) (phase : Phase)
    → has_begun phase ≡ true
    → (Done d.calls p → is_done phase ≡ true)
    → p < d.started
    → Ready d.calls p
    → Invariant d
    → Invariant (set_phase d p phase)
set_phase-Invariant d p phase begun done lt ready inv =
    set_phase-fits d p phase done lt (Ready-PhaseFits d.calls p phase begun ready) inv

pub cancel-Invariant : (d : Dispatcher) (p : ℕ) → Invariant d → Invariant (cancel d p)
unfolding cancel
cancel-Invariant d p inv =
    advance-Invariant d (cancel d p).calls
      (λ q. ground arith, λ q h. ground arith, λ q. inl (ground arith)) inv

pub cancel_prev-Invariant :
    (prev : Option ℕ) (d : Dispatcher) → Invariant d → Invariant (cancel_prev prev d)
cancel_prev-Invariant none d inv = inv
cancel_prev-Invariant (some prev) d inv = cancel-Invariant d prev inv

-- A call that has begun is ready.
pub begun-Ready :
    (d : Dispatcher) (p : ℕ)
    → Invariant d
    → p < d.started
    → has_begun (d.calls p).phase ≡ true
    → Ready d.calls p
begun-Ready d p inv lt h = PhaseFits-Ready d.calls p _ h (inv.0 p lt)

-- A call whose phase is not the last one has begun before.
pub started_before :
    (d : Dispatcher) (p : ℕ) → Invariant d → ((d.calls p).phase ≡ returned → ⊥) → p < d.started
started_before d p inv h = ground (arith, inv.2 p)

pub cancel_prev-phase :
    (prev : Option ℕ) (d : Dispatcher) (p : ℕ)
    → ((cancel_prev prev d).calls p).phase ≡ (d.calls p).phase
unfolding cancel
cancel_prev-phase none d p = refl
cancel_prev-phase (some r) d p = ground arith

pub cancel_prev-started :
    (prev : Option ℕ) (d : Dispatcher) → (cancel_prev prev d).started ≡ d.started
unfolding cancel
cancel_prev-started prev d = ground arith

-- The step in which a call cancels the process before it.
pub cancel_before-Invariant :
    (d : Dispatcher) (p : ℕ) (prev : Option ℕ)
    → (d.calls p).phase ≡ swapped prev
    → Invariant d
    → Invariant (cancel_before d p prev)
unfolding cancel_before
cancel_before-Invariant d p prev h inv =
    let c = cancel_prev prev d in
    let inv' : Invariant c = cancel_prev-Invariant prev d inv in
    let phase : (c.calls p).phase ≡ swapped prev = cancel_prev-phase prev d p ∙ h in
    let lt : p < c.started =
      omega (arith, started_before d p inv (λ q. ground arith), cancel_prev-started prev d) in
    set_phase-fits c p (waiting prev) (λ q. absurd (ground (arith, phase))) lt
      (subst (PhaseFits c.calls p) phase (inv'.0 p lt)) inv'

is_done-has_begun : (phase : Phase) → is_done phase ≡ true → has_begun phase ≡ true
is_done-has_begun phase h = ground arith

-- The call that a waiting one waits for is done, and so are all before that.
pub may_start-Ready :
    (d : Dispatcher) (p : ℕ) (phase : Phase)
    → Invariant d
    → p < d.started
    → may_start d phase ≡ true
    → PhaseFits d.calls p phase
    → Ready d.calls p
may_start-Ready d p (swapped prev) inv lt h f = absurd (ground arith)
may_start-Ready d p (waiting none) inv lt h f = f
may_start-Ready d p (waiting (some r)) inv lt h f = λ q before k.
    elim (earlier_or_same q r (f.2 q before k)) [
      | inl older ↦
          begun-Ready d r inv (ground arith) (is_done-has_begun (d.calls r).phase h) q older
            (k ∙ sym f.1)
      | inr same ↦ rw same h
    ]
may_start-Ready d p working inv lt h f = f
may_start-Ready d p leaving inv lt h f = f
may_start-Ready d p closed inv lt h f = f
may_start-Ready d p returned inv lt h f = f

-- The entry that `remove` deletes is that of a done call, the last one for its key.
delete-EntryFits :
    (d : Dispatcher) (key : SessionKey) (p : ℕ) (k : SessionKey)
    → Done d.calls p
    → lookup key d.processes ≡ some p
    → Invariant d
    → EntryFits d.calls d.started k (lookup k (delete key d.processes))
delete-EntryFits d key p k done q inv = elim (Bool-cases (key == k)) [
  | inl y ↦
      rw (lookup-delete key k d.processes, y)
        λ p' lt k'.
          let fits = subst (EntryFits d.calls d.started key) q (inv.1 key) in
          elim (earlier_or_same p' p (fits.2 p' lt (k' ∙ sym ((==_iff key k).0 y)))) [
            | inl older ↦
                begun-Ready d p inv fits.0 (is_done-has_begun (d.calls p).phase done) p' older
                  (k' ∙ sym (fits.1 ∙ (==_iff key k).0 y))
            | inr same ↦ rw same done
          ]
  | inr n ↦ rw (lookup-delete key k d.processes, n) (inv.1 k)
]

pub remove_process-Invariant :
    (d : Dispatcher) (key : SessionKey) (p : ℕ)
    → Done d.calls p
    → Invariant d
    → Invariant (remove_process d key p)
unfolding remove_process
remove_process-Invariant d key p done inv = elim (Option-cases (lookup key d.processes)) [
  | inl q ↦ rw (q, remove_process) inv
  | inr (r, q) ↦ elim (Bool-cases (nat_eq r p)) [
    | inr other ↦ rw (q, remove_process) (rw (other, remove_process) inv)
    | inl same ↦
        let last : lookup key d.processes ≡ some p = q ∙ ap some (ground arith) in
        rw (q, remove_process)
          (rw (same, remove_process) (inv.0, λ k. delete-EntryFits d key p k done last inv, inv.2))
  ]
]
