-- ===== src/Files/LockTable/Refinement.antt =====
-- The table of internal/files/locktable.go as what it stands for: one reader-writer lock per path,
-- whether the table has an entry for it or not.
use arch_agent.Files.LockTable.{
  System, Table, Pc, Mode, Move, Reach, Rw, free, admits, enter, leave, holds, acquires, locks_it,
  unlocks, releases,
}
use arch_agent.Files.LockTable.Exclusion.{Reach-Inv}
use arch_agent.Base.{
  Bool, Option, Option-cases, String, arith, if◌then◌else◌, inl, inr, ltb, none, refl, some, true,
  ℕ, ◌≡◌,
}
use arch_agent.Base.Dict.{lookup, lookup-insert}
use arch_agent.Base.Keys.{==_iff, string_eq, ◌==◌}
use arch_agent.Files.LockTable.{acquire, acquire_found, read_lock, set_mu, write_lock}
use arch_agent.Files.LockTable.Invariant.{Inv}
use arch_agent.Base.{◌<◌}
use arch_agent.Files.LockTable.{leaves, release}
use arch_agent.Files.LockTable.Family.{sum_below, sum_below-le}
use arch_agent.Files.LockTable.Invariant.{one_if, reads, writes}
use arch_agent.Base.{false, nat_eq, ◌-◌}
use arch_agent.Base.Dict.{lookup-delete}
use arch_agent.Files.LockTable.{forget_entry, idle, set_refs}
use arch_agent.Files.LockTable.Family.{put, sum_below_mono}
use arch_agent.Files.LockTable.Invariant.{reads-uses, sums, uses}
use arch_agent.Files.LockTable.Moves.{others-zero}

-- What a caller notices of a move.
pub data Label : Type 0 where
  silent : Label
  granted : Mode → String → Label
  returned : Mode → String → Label

abbrev pub Locks : Type 0
Locks = String → Rw

-- The lock of `path` becomes `m`, and no other changes.
abbrev pub Becomes : Locks → Locks → String → Rw → Type 0
Becomes v v' path m = (q : String) → v' q ≡ (if path == q then m else v q)

abbrev pub is_held : Mode → Rw → Bool
is_held write_lock m = m.writing
is_held read_lock m = ltb 0 m.readers

-- A lock is granted only to whom it admits, and given back only by one who holds it.
pub data LocksStep (v v' : Locks) : Label → Type 0 where
  stays : ((q : String) → v' q ≡ v q) → LocksStep v v' silent
  grants :
      {m : Mode} {path : String}
      → admits m (v path) ≡ true
      → Becomes v v' path (enter m (v path))
      → LocksStep v v' (granted m path)
  gives_back :
      {m : Mode} {path : String}
      → is_held m (v path) ≡ true
      → Becomes v v' path (leave m (v path))
      → LocksStep v v' (returned m path)

abbrev pub mutex_at : (ℕ → Rw) → Option ℕ → Rw
mutex_at mu none = free
mutex_at mu (some e) = mu e

unfoldable pub view : Table → Locks
view lt path = mutex_at lt.mu (lookup path lt.locks)

abbrev pub label : {lt lt' : Table} {p p' : Pc} → Move lt p lt' p' → Label
label (acquires m path) = silent
label (locks_it {m} {path} q) = granted m path
label (unlocks {m} {path}) = returned m path
label releases = silent

module _ {n : ℕ} {lt : Table} {pc : ℕ → Pc} (inv : Inv n lt pc) where
  acquire-view : (path q : String) → view (acquire path lt).1 q ≡ view lt q
  unfolding view acquire acquire_found
  acquire-view path q = elim (Option-cases (lookup path lt.locks)) [
    | inl missing ↦ rw missing (elim (Option-cases (lookup q lt.locks)) [
      | inl h ↦ ground (arith, lookup-insert path q lt.next lt.locks)
      | inr (e, h) ↦
          ground (arith, lookup-insert path q lt.next lt.locks, ==_iff path q, inv.counted q e h)
    ])
    | inr (e, found) ↦ rw found refl
  ]

  set_mu-view :
      (path : String) (e : ℕ) (m : Rw)
      → lookup path lt.locks ≡ some e
      → Becomes (view lt) (view (set_mu lt e m)) path m
  unfolding view
  set_mu-view path e m h q = elim (Option-cases (lookup q lt.locks)) [
    | inl out ↦ ground (arith, ==_iff path q)
    | inr (f, found) ↦ ground (arith, ==_iff path q, inv.apart path q e)
  ]

  enter-LocksStep :
      (m : Mode) (path : String) (e : ℕ)
      → lookup path lt.locks ≡ some e
      → admits m (lt.mu e) ≡ true
      → LocksStep (view lt) (view (set_mu lt e (enter m (lt.mu e)))) (granted m path)
  unfolding view
  enter-LocksStep m path e h q =
      grants (rw h q) (λ p. rw h (set_mu-view path e (enter m (lt.mu e)) h p))

  leave-LocksStep :
      (m : Mode) (path : String) (e : ℕ)
      → lookup path lt.locks ≡ some e
      → is_held m (lt.mu e) ≡ true
      → LocksStep (view lt) (view (set_mu lt e (leave m (lt.mu e)))) (returned m path)
  unfolding view
  leave-LocksStep m path e h q =
      gives_back (rw h q) (λ p. rw h (set_mu-view path e (leave m (lt.mu e)) h p))

  -- An entry that is forgotten is the entry of a free lock.
  last-free :
      (e : ℕ) → (sum_below (reads e) n pc ≡ 0) → (sum_below (writes e) n pc ≡ 0) → lt.mu e ≡ free
  last-free e h k =
      free-cases (lt.mu e) (omega (arith, inv.reading e, h)) (omega (arith, inv.writing e, k))
    where
      free-cases : (m : Rw) → m.readers ≡ 0 → one_if m.writing ≡ 0 → m ≡ free
      free-cases m h k = ground arith

  module _ (i : ℕ) (below : i < n) where
    held : (m : Mode) (path : String) (e : ℕ) → pc i ≡ holds m path e → is_held m (lt.mu e) ≡ true
    held write_lock path e h = ground (arith, inv.writing e, sum_below-le (writes e) n i pc below)
    held read_lock path e h = ground (arith, inv.reading e, sum_below-le (reads e) n i pc below)

    forgotten-free :
        (path : String) (e : ℕ)
        → pc i ≡ leaves path e
        → nat_eq (lt.refs e - 1) 0 ≡ true
        → lt.mu e ≡ free
    forgotten-free path e h last =
        let f = sums inv i below idle in
        let none_left = others-zero inv i below path e (pc i) h f last in
        last-free e
          (ground (
            arith,
            none_left,
            f.of_reads e,
            sum_below_mono (reads e) (uses e) n (put i idle pc) (λ p. (reads-uses e p).0),
          ))
          (ground (
            arith,
            none_left,
            f.of_writes e,
            sum_below_mono (writes e) (uses e) n (put i idle pc) (λ p. (reads-uses e p).1),
          ))

    forget-view :
        (path : String) (e : ℕ) (q : String) (b : Bool)
        → pc i ≡ leaves path e
        → nat_eq (lt.refs e - 1) 0 ≡ b
        → view (forget_entry b path (set_refs lt e (lt.refs e - 1))) q ≡ view lt q
    unfolding view forget_entry
    forget-view path e q false h k = refl
    forget-view path e q true h k = elim (Option-cases (lookup q lt.locks)) [
      | inl missing ↦ ground (arith, lookup-delete path q lt.locks)
      | inr (f, found) ↦ ground (
        arith,
        lookup-delete path q lt.locks,
        ==_iff path q,
        inv.own i,
        forgotten-free path e h k,
      )
    ]

    move-LocksStep :
        {p p' : Pc} {lt' : Table}
        → (mv : Move lt p lt' p') → pc i ≡ p
        → LocksStep (view lt) (view lt') (label mv)
    move-LocksStep (acquires m path) h = stays (acquire-view path)
    move-LocksStep (locks_it {m} {path} {e} q) h =
        enter-LocksStep m path e (ground (arith, inv.own i)) q
    move-LocksStep (unlocks {m} {path} {e}) h =
        leave-LocksStep m path e (ground (arith, inv.own i)) (held m path e h)
    move-LocksStep (releases {path} {e}) h =
        stays (λ q. unfold release in forget-view path e q _ h refl)

-- However the callers of Lock and RLock interleave, each move of one of them is a step of one
-- reader-writer lock per path: what adds an entry to the table or forgets one changes no lock, and
-- the mutex of an entry lets in and lets go exactly as the lock of its path would.
pub lock_table-LocksStep :
    {n : ℕ} {s : System} {lt : Table} {p : Pc}
    → Reach n s
    → (i : ℕ) → i < n
    → (mv : Move s.table (s.pc i) lt p) → LocksStep (view s.table) (view lt) (label mv)
lock_table-LocksStep r i below mv = move-LocksStep (Reach-Inv r) i below mv refl
