-- ===== src/Chat/Dispatcher/Beginning.antt =====
-- The step of internal/chat/dispatcher.go in which a call swaps itself in keeps the invariant.
use arch_agent.Base.{
  Bool-cases, Option, ap, arith, false, inl, inr, none, some, suc, sym, true, ℕ, ◌<◌, ◌∙◌, ◌≡◌,
}
use arch_agent.Base.Keys.{string_eq, pair_eq}
use arch_agent.Base.Dict.{insert, lookup, lookup-insert}
use arch_agent.Base.Keys.{==_iff, string_eq, ◌==◌}
use arch_agent.Chat.Dispatcher.{
  Dispatcher, Phase, Process, SessionKey, begin, closed, is_done, leaving, returned, update,
  swapped, waiting, working,
}
use arch_agent.Chat.Dispatcher.Fits.{Calls, Done, EntryFits, Invariant, PhaseFits, PrevFits, Ready}
use arch_agent.Chat.Dispatcher.Phases.{earlier_or_same}

-- A call that swaps itself in: `calls'` are the calls with it.
module _ (d : Dispatcher) (key : SessionKey) (inv : Invariant d) (calls' : Calls)
    (same : (p : ℕ) → p < d.started → calls' p ≡ d.calls p)
    (own : (calls' d.started).key ≡ key) where
  same_key : (p : ℕ) → p < d.started → (calls' p).key ≡ (d.calls p).key
  same_key p lt = ap (λ (c : Process). c.key) (same p lt)

  same-Done : (p : ℕ) → p < d.started → Done d.calls p → Done calls' p
  same-Done p lt h = ap (λ (c : Process). is_done c.phase) (same p lt) ∙ h

  keep-Ready : (q : ℕ) → q < d.started → Ready d.calls q → Ready calls' q
  keep-Ready q lq f p lt k =
      let lp : p < d.started = ground arith in
      same-Done p lp (f p lt (sym (same_key p lp) ∙ k ∙ same_key q lq))

  keep-PrevFits :
      (q : ℕ) (prev : Option ℕ) → q < d.started → PrevFits d.calls q prev → PrevFits calls' q prev
  keep-PrevFits q none lq f = keep-Ready q lq f
  keep-PrevFits q (some r) lq f = (
    f.0,
    same_key r (ground arith) ∙ f.1 ∙ sym (same_key q lq),
    λ p lt k.
        let lp : p < d.started = ground arith in f.2 p lt (sym (same_key p lp) ∙ k ∙ same_key q lq),
  )

  keep-PhaseFits :
      (q : ℕ) (phase : Phase) → q < d.started → PhaseFits d.calls q phase → PhaseFits calls' q phase
  keep-PhaseFits q (swapped prev) lq f = keep-PrevFits q prev lq f
  keep-PhaseFits q (waiting prev) lq f = keep-PrevFits q prev lq f
  keep-PhaseFits q working lq f = keep-Ready q lq f
  keep-PhaseFits q leaving lq f = keep-Ready q lq f
  keep-PhaseFits q closed lq f = keep-Ready q lq f
  keep-PhaseFits q returned lq f = keep-Ready q lq f

  fresh-PhaseFits :
      (entry : Option ℕ)
      → EntryFits d.calls d.started key entry
      → PhaseFits calls' d.started (swapped entry)
  fresh-PhaseFits none f = λ p lt k. same-Done p lt (f p lt (sym (same_key p lt) ∙ k ∙ own))
  fresh-PhaseFits (some r) f =
      (f.0, same_key r f.0 ∙ f.1 ∙ sym own, λ p lt k. f.2 p lt (sym (same_key p lt) ∙ k ∙ own))

  -- A call for another key is an old one.
  old_call :
      (k : SessionKey) (p : ℕ)
      → (key == k) ≡ false
      → p < suc d.started
      → (calls' p).key ≡ k
      → p < d.started
  old_call k p other lt q = elim (earlier_or_same p d.started (ground arith)) [
    | inl older ↦ older
    | inr last ↦
        let clash : (key == k) ≡ true =
          (==_iff key k).1 (sym own ∙ ap (λ r. (calls' r).key) (sym last) ∙ q) in
        absurd (ground arith)
  ]

  other-EntryFits :
      (k : SessionKey) (entry : Option ℕ)
      → (key == k) ≡ false
      → EntryFits d.calls d.started k entry
      → EntryFits calls' (suc d.started) k entry
  other-EntryFits k none other f = λ p lt q.
      let lp = old_call k p other lt q in same-Done p lp (f p lp (sym (same_key p lp) ∙ q))
  other-EntryFits k (some r) other f = (
    ground arith,
    same_key r f.0 ∙ f.1,
    λ p lt q. let lp = old_call k p other lt q in f.2 p lp (sym (same_key p lp) ∙ q),
  )

  insert-EntryFits :
      (k : SessionKey)
      → EntryFits calls' (suc d.started) k (lookup k (insert key d.started d.processes))
  insert-EntryFits k = elim (Bool-cases (key == k)) [
    | inl y ↦
        rw (lookup-insert key k d.started d.processes, y)
          (ground arith, own ∙ (==_iff key k).0 y, λ p lt q. ground arith)
    | inr n ↦ rw (lookup-insert key k d.started d.processes, n) (other-EntryFits k _ n (inv.1 k))
  ]

pub update-other :
    (n : ℕ) (fresh : Process) (calls : Calls) (p : ℕ) → p < n → update n fresh calls p ≡ calls p
update-other n fresh calls p lt = ground arith

pub update-same : (n : ℕ) (fresh : Process) (calls : Calls) → update n fresh calls n ≡ fresh
update-same n fresh calls = ground arith

pub begin-Invariant : (d : Dispatcher) (key : SessionKey) → Invariant d → Invariant (begin d key)
unfolding begin
begin-Invariant d key inv =
    let entry = lookup key d.processes in
    let fresh : Process = record { key = key; phase = swapped entry; cancelled = false } in
    let calls' = update d.started fresh d.calls in
    let last = update-same d.started fresh d.calls in
    let same = update-other d.started fresh d.calls in
    let own = ap (λ (c : Process). c.key) last in
    (
      λ q lt. elim (earlier_or_same q d.started (ground arith)) [
        | inl older ↦
            rw (same q older) (keep-PhaseFits d key inv calls' same own q _ older (inv.0 q older))
        | inr e ↦ rw (e, last) (fresh-PhaseFits d key inv calls' same own entry (inv.1 key))
      ],
      insert-EntryFits d key inv calls' same own,
      λ p le. ground (arith, inv.2 p),
    )
