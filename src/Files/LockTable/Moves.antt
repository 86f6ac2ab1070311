-- ===== src/Files/LockTable/Moves.antt =====
-- Every move of a caller of internal/files/locktable.go keeps the invariant.
use native.Mathlib.Decide.{dec_lt}
use arch_agent.Files.LockTable.{
  Table, Pc, Mode, Move, idle, waits, holds, leaves, acquires, locks_it, unlocks, releases,
  write_lock, read_lock,
}
use arch_agent.Files.LockTable.Invariant.{Inv, Sums, sums, outside-put, found-Inv, new-Inv}
use arch_agent.Base.{
  Bool, Option-cases, String, arith, false, inl, inr, nat_eq, true, ℕ, ◌-◌, ◌<◌, ◌∙◌, ◌≡◌, ◌≤◌,
}
use arch_agent.Base.Dict.{lookup, lookup-delete}
use arch_agent.Base.Keys.{==_iff, string_eq, ◌==◌}
use arch_agent.Files.LockTable.{
  acquire, acquire_found, admits, enter, forget_entry, leave, set_mu, set_refs,
}
use arch_agent.Files.LockTable.Family.{put, sum_below, sum_below-le}
use arch_agent.Files.LockTable.Invariant.{is_using, path_of, uses, writes}
use arch_agent.Base.{refl}
use arch_agent.Files.LockTable.{release}
use arch_agent.Files.LockTable.Invariant.{entry_of}

module _ {n : ℕ} {lt : Table} {pc : ℕ → Pc} (inv : Inv n lt pc) (i : ℕ) (below : i < n) where
  acquire-Inv :
      (m : Mode) (path : String) (p : Pc)
      → p ≡ idle
      → pc i ≡ p
      → Inv n (acquire path lt).1 (put i (waits m path (acquire path lt).0) pc)
  unfolding acquire
  acquire-Inv m path p z h = elim (Option-cases (lookup path lt.locks)) [
    | inl q ↦ rw q (new-Inv inv i below m path (pc i) (h ∙ z) (sums inv i below _) q)
    | inr (e, q) ↦ rw q (
        unfold acquire_found in
        found-Inv inv i below m path e (pc i) (h ∙ z) (sums inv i below _) q)
  ]

  enter-Inv :
      (m : Mode) (path : String) (e : ℕ) (p : Pc)
      → p ≡ waits m path e
      → Sums inv i below p (holds m path e)
      → admits m (lt.mu e) ≡ true
      → Inv n (set_mu lt e (enter m (lt.mu e))) (put i (holds m path e) pc)
  unfolding admits enter
  enter-Inv write_lock path e p z f free_now = record {
    own = λ j h. ground (arith, inv.own j, inv.own i, f.here);
    counted = λ p' e' h. ground (arith, inv.counted p' e' h, f.of_uses e');
    apart = inv.apart;
    reading = λ e'. ground (arith, inv.reading e', f.of_reads e');
    writing = λ e'. ground (arith, inv.writing e', f.of_writes e');
    either = λ e'. ground (arith, inv.either e');
    outside = outside-put inv i below _;
  }
  enter-Inv read_lock path e p z f free_now = record {
    own = λ j h. ground (arith, inv.own j, inv.own i, f.here);
    counted = λ p' e' h. ground (arith, inv.counted p' e' h, f.of_uses e');
    apart = inv.apart;
    reading = λ e'. ground (arith, inv.reading e', f.of_reads e');
    writing = λ e'. ground (arith, inv.writing e', f.of_writes e');
    either = λ e'. ground (arith, inv.either e');
    outside = outside-put inv i below _;
  }

  leave-Inv :
      (m : Mode) (path : String) (e : ℕ) (p : Pc)
      → p ≡ holds m path e
      → Sums inv i below p (leaves path e)
      → Inv n (set_mu lt e (leave m (lt.mu e))) (put i (leaves path e) pc)
  unfolding leave
  leave-Inv write_lock path e p z f = record {
    own = λ j h. ground (arith, inv.own j, inv.own i, f.here);
    counted = λ p' e' h. ground (arith, inv.counted p' e' h, f.of_uses e');
    apart = inv.apart;
    reading = λ e'. ground (arith, inv.reading e', f.of_reads e');
    writing = λ e'. ground (arith, inv.writing e', f.of_writes e', held e');
    either = λ e'. ground (arith, inv.either e');
    outside = outside-put inv i below _;
  }
    where
      held : (e' : ℕ) → writes e' (pc i) ≤ sum_below (writes e') n pc
      held e' = sum_below-le (writes e') n i pc below
  leave-Inv read_lock path e p z f = record {
    own = λ j h. ground (arith, inv.own j, inv.own i, f.here);
    counted = λ p' e' h. ground (arith, inv.counted p' e' h, f.of_uses e');
    apart = inv.apart;
    reading = λ e'. ground (arith, inv.reading e', f.of_reads e');
    writing = λ e'. ground (arith, inv.writing e', f.of_writes e');
    either = λ e'. ground (arith, inv.either e');
    outside = outside-put inv i below _;
  }

  -- If the count falls to zero, no other thread has the entry.
  pub others-zero :
      (path : String) (e : ℕ) (p : Pc)
      → p ≡ leaves path e
      → Sums inv i below p idle
      → nat_eq (lt.refs e - 1) 0 ≡ true
      → sum_below (uses e) n (put i idle pc) ≡ 0
  others-zero path e p z f last = ground (arith, inv.own i, f.here, f.of_uses e, inv.counted path e)

  other-entry :
      (path : String) (e : ℕ) (p : Pc) (j : ℕ)
      → p ≡ leaves path e
      → Sums inv i below p idle
      → nat_eq (lt.refs e - 1) 0 ≡ true
      → is_using (put i idle pc j) ≡ true
      → nat_eq (entry_of (put i idle pc j)) e ≡ false
  other-entry path e p j z f last h = elim (dec_lt j n) [
    | yes inside ↦
        ground
          (arith, others-zero path e p z f last, sum_below-le (uses e) n j (put i idle pc) inside)
    | no out ↦ absurd (ground (arith, outside-put inv i below idle j (omega arith)))
  ]

  alone :
      (path : String) (e : ℕ) (p : Pc) (j : ℕ)
      → p ≡ leaves path e
      → Sums inv i below p idle
      → nat_eq (lt.refs e - 1) 0 ≡ true
      → is_using (put i idle pc j) ≡ true
      → (path == path_of (pc j)) ≡ false
  alone path e p j z f last h = ground (
    arith,
    ==_iff path (path_of (pc j)),
    inv.own j,
    inv.own i,
    f.here,
    other-entry path e p j z f last h,
  )

  forget-Inv :
      (path : String) (e : ℕ) (p : Pc) (b : Bool)
      → p ≡ leaves path e
      → Sums inv i below p idle
      → nat_eq (lt.refs e - 1) 0 ≡ b
      → Inv n (forget_entry b path (set_refs lt e (lt.refs e - 1))) (put i idle pc)
  unfolding forget_entry
  forget-Inv path e p true z f last = record {
    own = λ j h. ground (
      arith,
      inv.own j,
      lookup-delete path (path_of (pc j)) lt.locks,
      alone path e p j z f last h,
    );
    counted = λ p' e' h. ground (
      arith,
      lookup-delete path p' lt.locks,
      ==_iff path p',
      inv.own i,
      f.here,
      inv.apart path p' e',
      inv.counted p' e',
      f.of_uses e',
    );
    apart = λ a b e' h k.
        ground
          (arith, lookup-delete path a lt.locks, lookup-delete path b lt.locks, inv.apart a b e');
    reading = λ e'. ground (arith, inv.reading e', f.of_reads e');
    writing = λ e'. ground (arith, inv.writing e', f.of_writes e');
    either = inv.either;
    outside = outside-put inv i below _;
  }
  forget-Inv path e p false z f last = record {
    own = λ j h. ground (arith, inv.own j);
    counted = λ p' e' h.
        ground (arith, inv.counted p' e', inv.own i, f.here, inv.counted path e, f.of_uses e');
    apart = inv.apart;
    reading = λ e'. ground (arith, inv.reading e', f.of_reads e');
    writing = λ e'. ground (arith, inv.writing e', f.of_writes e');
    either = inv.either;
    outside = outside-put inv i below _;
  }

  release-Inv :
      (path : String) (e : ℕ) (p : Pc)
      → p ≡ leaves path e
      → Sums inv i below p idle
      → Inv n (release path e lt) (put i idle pc)
  unfolding release
  release-Inv path e p z f = forget-Inv path e p _ z f refl

  move-Inv :
      {p p' : Pc} {lt' : Table}
      → Move lt p lt' p'
      → pc i ≡ p
      → Sums inv i below p p'
      → Inv n lt' (put i p' pc)
  move-Inv (acquires m path) h f = acquire-Inv m path _ refl h
  move-Inv (locks_it {m} {path} {e} q) h f = enter-Inv m path e _ refl f q
  move-Inv (unlocks {m} {path} {e}) h f = leave-Inv m path e _ refl f
  move-Inv (releases {path} {e}) h f = release-Inv path e _ refl f

  pub Move-Inv : {p' : Pc} {lt' : Table} → Move lt (pc i) lt' p' → Inv n lt' (put i p' pc)
  Move-Inv {p'} mv = move-Inv mv refl (sums inv i below p')
