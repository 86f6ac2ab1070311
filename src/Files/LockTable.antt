-- ===== src/Files/LockTable.antt =====
-- internal/files/locktable.go: a lock for each path. A pointer to an entry is a number, a goroutine
-- that calls Lock or RLock and later the function that it got is a thread, and the sections under
-- `lt.mu` are single steps, as are the calls of the entry's mutex. Go makes a reader wait for a
-- writer that came first; here it may also go on, so that what holds here holds there.
pub mod Family
pub mod Invariant
pub mod Moves
pub mod Exclusion
pub mod Refinement
use arch_agent.Base.{
  Bool, Option, String, [], false, if◌then◌else◌, nat_eq, none, not, some, suc, true, ℕ, ◌&&◌, ◌+◌,
  ◌-◌, ◌<◌, ◌≡◌,
}
use arch_agent.Base.Keys.{string_eq}
use arch_agent.Base.Dict.{Dict, delete, insert, lookup}
use arch_agent.Files.LockTable.Family.{put}

-- A sync.RWMutex: whether it has a writer, and its readers.
pub record Rw : Type 0 where
  pub writing : Bool
  pub readers : ℕ

abbrev pub free : Rw
free = record { writing = false; readers = 0 }

-- lockTable with the entries that its pointers lead to, and the pointer that the next one gets.
pub record Table : Type 0 where
  pub locks : Dict String ℕ
  pub refs : ℕ → ℕ
  pub mu : ℕ → Rw
  pub next : ℕ

unfoldable pub new_lock_table : Table
new_lock_table = record { locks = []; refs = λ e. 0; mu = λ e. free; next = 0 }

abbrev pub set_refs : Table → ℕ → ℕ → Table
set_refs lt e n = record lt { refs = put e n lt.refs }

-- acquire behind the lookup of the path.
unfoldable pub acquire_found : String → Option ℕ → Table → ℕ × Table
acquire_found path none lt =
    let e = lt.next in
    (
      e,
      record {
        locks = insert path e lt.locks;
        refs = put e 1 lt.refs;
        mu = put e free lt.mu;
        next = suc e;
      },
    )
acquire_found path (some e) lt = (e, set_refs lt e (lt.refs e + 1))

unfoldable pub acquire : String → Table → ℕ × Table
unfolding acquire_found
acquire path lt = acquire_found path (lookup path lt.locks) lt

-- release behind the count, which is 0 or not.
unfoldable pub forget_entry : Bool → String → Table → Table
forget_entry true path lt = record lt { locks = delete path lt.locks }
forget_entry false path lt = lt

-- The count of an entry that a thread has is never below one (see the invariant), so that `e.refs--`
-- is `- 1`.
unfoldable pub release : String → ℕ → Table → Table
unfolding forget_entry
release path e lt = forget_entry (nat_eq (lt.refs e - 1) 0) path (set_refs lt e (lt.refs e - 1))

-- Lock or RLock.
pub data Mode : Type 0 where
  write_lock read_lock : Mode

-- Whether a mutex lets a caller in, and what it is then.
unfoldable pub admits : Mode → Rw → Bool
admits write_lock m = not m.writing && nat_eq m.readers 0
admits read_lock m = not m.writing

unfoldable pub enter : Mode → Rw → Rw
enter write_lock m = record m { writing = true }
enter read_lock m = record m { readers = m.readers + 1 }

unfoldable pub leave : Mode → Rw → Rw
leave write_lock m = record m { writing = false }
leave read_lock m = record m { readers = m.readers - 1 }

-- Where a thread stands: it has no entry, waits for the mutex of its entry, holds it, or has
-- given it back and is about to call release.
pub data Pc : Type 0 where
  idle : Pc
  waits : Mode → String → ℕ → Pc
  holds : Mode → String → ℕ → Pc
  leaves : String → ℕ → Pc

pub record System : Type 0 where
  pub table : Table
  pub pc : ℕ → Pc

abbrev pub set_mu : Table → ℕ → Rw → Table
set_mu lt e m = record lt { mu = put e m lt.mu }

-- What one thread does to the table.
pub data Move (lt : Table) : Pc → Table → Pc → Type 0 where
  acquires :
      (m : Mode) (path : String)
      → Move lt idle (acquire path lt).1 (waits m path (acquire path lt).0)
  locks_it :
      {m : Mode} {path : String} {e : ℕ}
      → admits m (lt.mu e) ≡ true
      → Move lt (waits m path e) (set_mu lt e (enter m (lt.mu e))) (holds m path e)
  unlocks :
      {m : Mode} {path : String} {e : ℕ}
      → Move lt (holds m path e) (set_mu lt e (leave m (lt.mu e))) (leaves path e)
  releases : {path : String} {e : ℕ} → Move lt (leaves path e) (release path e lt) idle

-- One of the first `n` threads moves.
pub data Step (n : ℕ) (s : System) : System → Type 0 where
  moves :
      (i : ℕ) {lt : Table} {p : Pc}
      → i < n
      → Move s.table (s.pc i) lt p
      → Step n s (record { table = lt; pc = put i p s.pc })

abbrev pub start_system : System
start_system = record { table = new_lock_table; pc = λ i. idle }

pub data Reach (n : ℕ) : System → Type 0 where
  start : Reach n start_system
  then : {s t : System} → Reach n s → Step n s t → Reach n t
