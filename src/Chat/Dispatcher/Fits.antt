-- ===== src/Chat/Dispatcher/Fits.antt =====
-- What holds of the calls of internal/chat/dispatcher.go between two steps, and the steps in which
-- calls only go on.
use arch_agent.Base.{
  Bool, Option, arith, false, inl, inr, none, some, sym, true, ℕ, ◌<◌, ◌∙◌, ◌≡◌, ◌≤◌, ◌⊎◌,
}
use arch_agent.Base.Keys.{string_eq, pair_eq}
use arch_agent.Base.Dict.{lookup}
use arch_agent.Chat.Dispatcher.{
  Dispatcher, Phase, Process, SessionKey, closed, is_done, leaving, returned, swapped, waiting,
  working,
}

-- A run of calls, by number.
abbrev pub Calls : Type 0
Calls = ℕ → Process

abbrev pub Done : Calls → ℕ → Type 0
Done calls p = is_done (calls p).phase ≡ true

-- All calls for its key that began before the call `q` are done.
abbrev pub Ready : Calls → ℕ → Type 0
Ready calls q = (p : ℕ) → p < q → (calls p).key ≡ (calls q).key → Done calls p

-- What the phase of the call `q` says of the calls before it: one that has not begun has the last
-- of them before it.
abbrev pub PrevFits : Calls → ℕ → Option ℕ → Type 0
PrevFits calls q none = Ready calls q
PrevFits calls q (some r) =
    (r < q)
    × ((calls r).key ≡ (calls q).key)
    × ((p : ℕ) → p < q → (calls p).key ≡ (calls q).key → p ≤ r)

abbrev pub PhaseFits : Calls → ℕ → Phase → Type 0
PhaseFits calls q (swapped prev) = PrevFits calls q prev
PhaseFits calls q (waiting prev) = PrevFits calls q prev
PhaseFits calls q _ = Ready calls q

-- What the entry of a key says of the calls for it, `n` of all keys.
abbrev pub EntryFits : Calls → ℕ → SessionKey → Option ℕ → Type 0
EntryFits calls n key (some r) =
    (r < n) × ((calls r).key ≡ key) × ((p : ℕ) → p < n → (calls p).key ≡ key → p ≤ r)
EntryFits calls n key none = (p : ℕ) → p < n → (calls p).key ≡ key → Done calls p

abbrev pub Invariant : Dispatcher → Type 0
Invariant d =
    ((q : ℕ) → q < d.started → PhaseFits d.calls q (d.calls q).phase)
    × ((key : SessionKey) → EntryFits d.calls d.started key (lookup key d.processes))
    × ((p : ℕ) → d.started ≤ p → (d.calls p).phase ≡ returned)

abbrev pub has_begun : Phase → Bool
has_begun (swapped prev) = false
has_begun (waiting prev) = false
has_begun _ = true

pub PhaseFits-Ready :
    (calls : Calls) (q : ℕ) (phase : Phase)
    → has_begun phase ≡ true
    → PhaseFits calls q phase
    → Ready calls q
PhaseFits-Ready calls q (swapped prev) h f = absurd (ground arith)
PhaseFits-Ready calls q (waiting prev) h f = absurd (ground arith)
PhaseFits-Ready calls q working h f = f
PhaseFits-Ready calls q leaving h f = f
PhaseFits-Ready calls q closed h f = f
PhaseFits-Ready calls q returned h f = f

pub Ready-PhaseFits :
    (calls : Calls) (q : ℕ) (phase : Phase)
    → has_begun phase ≡ true
    → Ready calls q
    → PhaseFits calls q phase
Ready-PhaseFits calls q (swapped prev) h f = absurd (ground arith)
Ready-PhaseFits calls q (waiting prev) h f = absurd (ground arith)
Ready-PhaseFits calls q working h f = f
Ready-PhaseFits calls q leaving h f = f
Ready-PhaseFits calls q closed h f = f
Ready-PhaseFits calls q returned h f = f

-- A step that begins no call and removes no entry: no key changes, a done call stays done, and a
-- call whose phase changes fits the new one.
abbrev Advances : Dispatcher → Calls → Type 0
Advances d calls' =
    ((p : ℕ) → (calls' p).key ≡ (d.calls p).key)
    × ((p : ℕ) → Done d.calls p → is_done (calls' p).phase ≡ true)
    × ((q : ℕ)
        → ((calls' q).phase ≡ (d.calls q).phase)
          ⊎ ((q < d.started) × PhaseFits d.calls q (calls' q).phase))

module _ (d : Dispatcher) (calls' : Calls) (adv : Advances d calls') where
  advance-Ready : (q : ℕ) → Ready d.calls q → Ready calls' q
  advance-Ready q r p lt k = adv.1 p (r p lt (sym (adv.0 p) ∙ k ∙ adv.0 q))

  advance-PrevFits : (q : ℕ) (prev : Option ℕ) → PrevFits d.calls q prev → PrevFits calls' q prev
  advance-PrevFits q none f = advance-Ready q f
  advance-PrevFits q (some r) f =
      (f.0, adv.0 r ∙ f.1 ∙ sym (adv.0 q), λ p lt k. f.2 p lt (sym (adv.0 p) ∙ k ∙ adv.0 q))

  advance-PhaseFits : (q : ℕ) (phase : Phase) → PhaseFits d.calls q phase → PhaseFits calls' q phase
  advance-PhaseFits q (swapped prev) f = advance-PrevFits q prev f
  advance-PhaseFits q (waiting prev) f = advance-PrevFits q prev f
  advance-PhaseFits q working f = advance-Ready q f
  advance-PhaseFits q leaving f = advance-Ready q f
  advance-PhaseFits q closed f = advance-Ready q f
  advance-PhaseFits q returned f = advance-Ready q f

  advance-EntryFits :
      (key : SessionKey) (entry : Option ℕ)
      → EntryFits d.calls d.started key entry
      → EntryFits calls' d.started key entry
  advance-EntryFits key none f = λ p lt k. adv.1 p (f p lt (sym (adv.0 p) ∙ k))
  advance-EntryFits key (some r) f = (f.0, adv.0 r ∙ f.1, λ p lt k. f.2 p lt (sym (adv.0 p) ∙ k))

  pub advance-Invariant : Invariant d → Invariant (record d { calls = calls' })
  advance-Invariant (phases, entries, later) = (
    λ q lt. elim (adv.2 q) [
      | inl same ↦ rw same (advance-PhaseFits q _ (phases q lt))
      | inr (_, fits) ↦ advance-PhaseFits q _ fits
    ],
    λ key. advance-EntryFits key _ (entries key),
    λ p le. elim (adv.2 p) [ inl same ↦ same ∙ later p le | inr (lt, _) ↦ absurd (ground arith) ],
  )
