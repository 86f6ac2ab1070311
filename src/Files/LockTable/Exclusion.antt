-- ===== src/Files/LockTable/Exclusion.antt =====
-- What the callers of internal/files/locktable.go may rely on.
use native.Mathlib.Decide.{dec_lt}
use arch_agent.Files.LockTable.{
  System, Mode, Reach, start_system, idle, holds, moves, start, then, write_lock,
}
use arch_agent.Files.LockTable.Invariant.{Inv}
use arch_agent.Files.LockTable.Moves.{Move-Inv}
use arch_agent.Base.{
  Bool-cases, Option-cases, String, arith, false, inl, inr, nat_eq, none, refl, sym, true, ℕ, ◌+◌,
  ◌<◌, ◌≡◌, ◌≤◌,
}
use arch_agent.Base.Dict.{lookup}
use arch_agent.Base.Keys.{string_eq}
use arch_agent.Files.LockTable.{new_lock_table, read_lock}
use arch_agent.Files.LockTable.Family.{put, sum_below, sum_below-le, sum_below-put, sum_below-zero}
use arch_agent.Files.LockTable.Invariant.{is_using, reads, uses, writes}

start-Inv : (n : ℕ) → Inv n start_system.table start_system.pc
unfolding new_lock_table lookup
start-Inv n = record {
  own = λ i h. cc;
  counted = λ p e h. cc;
  apart = λ p q e h k. cc;
  reading = λ e. sym (sum_below-zero (reads e) n _ (λ i. refl));
  writing = λ e. sym (sum_below-zero (writes e) n _ (λ i. refl));
  either = λ e h. refl;
  outside = λ i h. refl;
}

pub Reach-Inv : {n : ℕ} {s : System} → Reach n s → Inv n s.table s.pc
Reach-Inv {n} start = start-Inv n
Reach-Inv (then r (moves i below mv)) = Move-Inv (Reach-Inv r) i below mv

module _ {n : ℕ} {s : System} (r : Reach n s) where
  open (Reach-Inv r) use {own, counted, reading, writing, either, outside}

  inside : (i : ℕ) → is_using (s.pc i) ≡ true → i < n
  inside i h = elim (dec_lt i n) [
    | yes below ↦ below
    | no out ↦ absurd (ground (arith, outside i (omega arith)))
  ]

  -- Two places weigh no more than all.
  two-writers :
      (e i j : ℕ)
      → i < n
      → j < n
      → nat_eq i j ≡ false
      → writes e (s.pc i) + writes e (s.pc j) ≤ sum_below (writes e) n s.pc
  two-writers e i j h k apart = ground (
    arith,
    sum_below-put (writes e) n i idle s.pc h,
    sum_below-le (writes e) n j (put i idle s.pc) k,
  )

  -- However the callers of Lock and RLock interleave, a thread that holds the lock of a path for
  -- writing is the only one that holds it.
  pub lock_table-exclusion :
      (i j e f : ℕ) (m : Mode) (path : String)
      → s.pc i ≡ holds write_lock path e
      → s.pc j ≡ holds m path f
      → i ≡ j
  lock_table-exclusion i j e f write_lock path h k = elim (Bool-cases (nat_eq i j)) [
    | inl same ↦ ground arith
    | inr apart ↦ absurd (
        ground (
          arith,
          own i,
          own j,
          writing e,
          two-writers e i j (inside i (ground arith)) (inside j (ground arith)) apart,
        ))
  ]
  lock_table-exclusion i j e f read_lock path h k = absurd (
      ground (
        arith,
        own i,
        own j,
        writing e,
        reading e,
        either e,
        sum_below-le (writes e) n i s.pc (inside i (ground arith)),
        sum_below-le (reads e) n j s.pc (inside j (ground arith)),
      ))

  -- However the callers of Lock and RLock interleave: once no thread waits for the lock of any path,
  -- holds it or is about to release it, the table has no entry.
  pub lock_table-empty :
      ((i : ℕ) → s.pc i ≡ idle) → (path : String) → lookup path s.table.locks ≡ none
  lock_table-empty quiet path = elim (Option-cases (lookup path s.table.locks)) [
    | inl q ↦ q
    | inr (e, q) ↦
        absurd (
          ground (arith, counted path e q, sum_below-zero (uses e) n s.pc (λ i. rw (quiet i) refl)))
  ]
