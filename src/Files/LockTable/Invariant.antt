-- ===== src/Files/LockTable/Invariant.antt =====
-- What holds of the lock table of internal/files/locktable.go however its callers interleave.
use arch_agent.Files.LockTable.{
  Table, Pc, Mode, set_refs, idle, waits, holds, leaves, write_lock, read_lock,
}
use arch_agent.Files.LockTable.Family.{put, sum_below, sum_below-put}
use arch_agent.Base.{
  Bool, Bool-cases, String, arith, false, if◌then◌else◌, inl, inr, nat_eq, refl, some, true, ℕ,
  ◌&&◌, ◌+◌, ◌<◌, ◌≡◌, ◌≤◌,
}
use arch_agent.Base.Dict.{lookup}
use arch_agent.Base.Keys.{string_eq}
use arch_agent.Base.{none}
use arch_agent.Base.Dict.{lookup-insert}
use arch_agent.Base.Keys.{==_iff, ==_self}
use arch_agent.Files.LockTable.{acquire_found}
use arch_agent.Files.LockTable.Family.{sum_below-zero}

abbrev pub is_using : Pc → Bool
is_using idle = false
is_using _ = true

abbrev pub path_of : Pc → String
path_of idle = ""
path_of (waits m path e) = path
path_of (holds m path e) = path
path_of (leaves path e) = path

abbrev pub entry_of : Pc → ℕ
entry_of idle = 0
entry_of (waits m path e) = e
entry_of (holds m path e) = e
entry_of (leaves path e) = e

abbrev pub is_writing : Pc → Bool
is_writing (holds write_lock path e) = true
is_writing _ = false

abbrev pub is_reading : Pc → Bool
is_reading (holds read_lock path e) = true
is_reading _ = false

abbrev pub one_if : Bool → ℕ
one_if b = if b then 1 else 0

-- Whether a thread has the entry, writes under it, reads under it.
abbrev pub uses : ℕ → Pc → ℕ
uses e p = one_if (is_using p && nat_eq (entry_of p) e)

abbrev pub writes : ℕ → Pc → ℕ
writes e p = one_if (is_writing p && nat_eq (entry_of p) e)

abbrev pub reads : ℕ → Pc → ℕ
reads e p = one_if (is_reading p && nat_eq (entry_of p) e)

pub reads-uses : (e : ℕ) (p : Pc) → (reads e p ≤ uses e p) × (writes e p ≤ uses e p)
reads-uses e idle = (omega arith, omega arith)
reads-uses e (waits m path f) = (omega arith, omega arith)
reads-uses e (holds write_lock path f) = (omega arith, omega arith)
reads-uses e (holds read_lock path f) = (omega arith, omega arith)
reads-uses e (leaves path f) = (omega arith, omega arith)

pub record Inv (n : ℕ) (lt : Table) (pc : ℕ → Pc) : Type 0 where
  pub own :
      (i : ℕ) → is_using (pc i) ≡ true → lookup (path_of (pc i)) lt.locks ≡ some (entry_of (pc i))
  pub counted :
      (path : String) (e : ℕ)
      → lookup path lt.locks ≡ some e
      → (lt.refs e ≡ sum_below (uses e) n pc) × (1 ≤ lt.refs e) × (e < lt.next)
  pub apart :
      (p q : String) (e : ℕ) → lookup p lt.locks ≡ some e → lookup q lt.locks ≡ some e → p ≡ q
  pub reading : (e : ℕ) → (lt.mu e).readers ≡ sum_below (reads e) n pc
  pub writing : (e : ℕ) → one_if (lt.mu e).writing ≡ sum_below (writes e) n pc
  pub either : (e : ℕ) → (lt.mu e).writing ≡ true → (lt.mu e).readers ≡ 0
  pub outside : (i : ℕ) → n ≤ i → pc i ≡ idle

module _ {n : ℕ} {lt : Table} {pc : ℕ → Pc} (inv : Inv n lt pc) (i : ℕ) (below : i < n) where
  -- What the sums become when thread `i` goes from `p` to `p'`.
  pub record Sums (p p' : Pc) : Type 0 where
    pub here : pc i ≡ p
    pub of_uses :
        (e : ℕ)
        → sum_below (uses e) n (put i p' pc) + uses e p ≡ sum_below (uses e) n pc + uses e p'
    pub of_reads :
        (e : ℕ)
        → sum_below (reads e) n (put i p' pc) + reads e p ≡ sum_below (reads e) n pc + reads e p'
    pub of_writes :
        (e : ℕ)
        → sum_below (writes e) n (put i p' pc) + writes e p
          ≡ sum_below (writes e) n pc + writes e p'

  pub sums : (p' : Pc) → Sums (pc i) p'
  sums p' = record {
    here = refl;
    of_uses = λ e. sum_below-put (uses e) n i p' pc below;
    of_reads = λ e. sum_below-put (reads e) n i p' pc below;
    of_writes = λ e. sum_below-put (writes e) n i p' pc below;
  }

  -- An entry that the table does not have is nobody's.
  unused : (e j : ℕ) → ((path : String) → lookup path lt.locks ≡ some e → ⊥) → uses e (pc j) ≡ 0
  unused e j h = elim (Bool-cases (is_using (pc j) && nat_eq (entry_of (pc j)) e)) [
    | inl q ↦ absurd (h (path_of (pc j)) (ground (arith, inv.own j)))
    | inr q ↦ ground arith
  ]

  pub outside-put : (p' : Pc) (j : ℕ) → n ≤ j → put i p' pc j ≡ idle
  outside-put p' j h = ground (arith, inv.outside j h, below)

  pub found-Inv :
      (m : Mode) (path : String) (e : ℕ) (p : Pc)
      → p ≡ idle
      → Sums p (waits m path e)
      → lookup path lt.locks ≡ some e
      → Inv n (set_refs lt e (lt.refs e + 1)) (put i (waits m path e) pc)
  found-Inv m path e p z f q = record {
    own = λ j h. ground (arith, inv.own j);
    counted = λ p' e' h. ground (arith, inv.counted p' e' h, f.of_uses e');
    apart = inv.apart;
    reading = λ e'. ground (arith, inv.reading e', f.of_reads e');
    writing = λ e'. ground (arith, inv.writing e', f.of_writes e');
    either = inv.either;
    outside = outside-put _;
  }

  -- The pointer of the next entry is nobody's.
  next-unused : (path : String) (e : ℕ) → lookup path lt.locks ≡ some e → e ≡ lt.next → ⊥
  next-unused path e h q = absurd (omega (arith, (inv.counted path e h).2, q))

  pub new-Inv :
      (m : Mode) (path : String) (p : Pc)
      → p ≡ idle
      → Sums p (waits m path lt.next)
      → lookup path lt.locks ≡ none
      → Inv n (acquire_found path none lt).1 (put i (waits m path lt.next) pc)
  unfolding acquire_found
  new-Inv m path p z f q = record {
    own = λ j h.
        let here = path_of (put i (waits m path lt.next) pc j) in
        ground (
          arith,
          lookup-insert path here lt.next lt.locks,
          inv.own j,
          ==_iff path (path_of (pc j)),
          ==_self path,
        );
    counted = λ p' e' h. ground (
      arith,
      lookup-insert path p' lt.next lt.locks,
      inv.counted p' e',
      f.of_uses e',
      next_unused,
    );
    apart = λ a b e h k. ground (
      arith,
      lookup-insert path a lt.next lt.locks,
      lookup-insert path b lt.next lt.locks,
      ==_iff path a,
      ==_iff path b,
      inv.apart a b e,
      inv.counted a e,
      inv.counted b e,
    );
    reading = λ e'. ground (arith, inv.reading e', f.of_reads e', next_unread);
    writing = λ e'. ground (arith, inv.writing e', f.of_writes e', next_unwritten);
    either = λ e'. ground (arith, inv.either e');
    outside = outside-put _;
  }
    where
      free_entry : (j : ℕ) → uses lt.next (pc j) ≡ 0
      free_entry j = unused lt.next j (λ a h. next-unused a lt.next h refl)

      next_unused : sum_below (uses lt.next) n pc ≡ 0
      next_unused = sum_below-zero (uses lt.next) n pc free_entry

      next_unread : sum_below (reads lt.next) n pc ≡ 0
      next_unread =
          sum_below-zero (reads lt.next) n pc
            (λ j. omega (arith, free_entry j, (reads-uses lt.next (pc j)).0))

      next_unwritten : sum_below (writes lt.next) n pc ≡ 0
      next_unwritten =
          sum_below-zero (writes lt.next) n pc
            (λ j. omega (arith, free_entry j, (reads-uses lt.next (pc j)).1))
