-- ===== src/Chat/Dispatcher.antt =====
-- internal/chat/dispatcher.go: at most one request of a session is processed at a time. The fields
-- of Dispatcher are one state and each stretch of code between two blocking points is one step, so
-- a sequence of steps is an interleaving of the goroutines. A process is named by its number.
pub mod Fits
pub mod Phases
pub mod Beginning
pub mod Exclusion
pub mod Progress
pub mod Superseding
use arch_agent.Base.{
  Bool, Option, String, [], false, if◌then◌else◌, nat_eq, none, some, suc, true, ℕ, ◌≡◌,
}
use arch_agent.Base.Keys.{string_eq, pair_eq}
use arch_agent.Base.Dict.{Dict, delete, insert, lookup}

abbrev pub SessionKey : Type 0
SessionKey = String × String

-- Where the goroutine of a call of Chat stands: swapped in, with the process that was there before
-- it still to be cancelled, if there was one; waiting for that process to be done; inside
-- Service.Chat; behind it, with `done` not closed yet; past `close(p.done)`, with its entry still
-- there; or returned.
pub data Phase : Type 0 where
  swapped waiting : Option ℕ → Phase
  working leaving closed returned : Phase

-- A call of Chat with its requestProcessing.
pub record Process : Type 0 where
  pub key : SessionKey
  pub phase : Phase
  pub cancelled : Bool

-- `started` is the number of the next call. All calls stand in `calls`, `processes` is the map of
-- the dispatcher.
pub record Dispatcher : Type 0 where
  pub processes : Dict SessionKey ℕ
  pub calls : ℕ → Process
  pub started : ℕ

abbrev nobody : Process
nobody = record { key = ("", ""); phase = returned; cancelled = false }

-- NewDispatcher
unfoldable pub new_dispatcher : Dispatcher
new_dispatcher = record { processes = []; calls = λ p. nobody; started = 0 }

abbrev pub update : ℕ → Process → (ℕ → Process) → ℕ → Process
update p new calls q = if nat_eq p q then new else calls q

unfoldable pub set_phase : Dispatcher → ℕ → Phase → Dispatcher
set_phase d p phase = record d { calls = update p (record (d.calls p) { phase = phase }) d.calls }

unfoldable pub cancel : Dispatcher → ℕ → Dispatcher
cancel d p = record d { calls = update p (record (d.calls p) { cancelled = true }) d.calls }

abbrev pub cancel_prev : Option ℕ → Dispatcher → Dispatcher
cancel_prev none d = d
cancel_prev (some prev) d = cancel d prev

-- Chat with its swap, under the mutex.
unfoldable pub begin : Dispatcher → SessionKey → Dispatcher
begin d key =
    let prev = lookup key d.processes in
    let fresh : Process = record { key = key; phase = swapped prev; cancelled = false } in
    record {
      processes = insert key d.started d.processes;
      calls = update d.started fresh d.calls;
      started = suc d.started;
    }

-- prev.cancel(), up to `<-prev.done`.
unfoldable pub cancel_before : Dispatcher → ℕ → Option ℕ → Dispatcher
unfolding cancel set_phase
cancel_before d p prev = set_phase (cancel_prev prev d) p (waiting prev)

-- A closed channel `done` can be received from.
abbrev pub is_done : Phase → Bool
is_done closed = true
is_done returned = true
is_done _ = false

abbrev pub may_start : Dispatcher → Phase → Bool
may_start d (waiting none) = true
may_start d (waiting (some prev)) = is_done (d.calls prev).phase
may_start d _ = false

-- remove
unfoldable pub remove_process : Dispatcher → SessionKey → ℕ → Dispatcher
remove_process d key p = elim (lookup key d.processes) [
  | none ↦ d
  | some q ↦ if nat_eq q p then record d { processes = delete key d.processes } else d
]

-- The end of the deferred function, behind `close(p.done)`.
unfoldable pub finish : Dispatcher → ℕ → Dispatcher
unfolding remove_process set_phase
finish d p = set_phase (remove_process d (d.calls p).key p) p returned

-- Interrupt up to `<-prev.done`. That it waits there with the mutex held is left out: the calls can
-- do less then, and the one it waits for closes its channel without the mutex.
unfoldable pub interrupt : Dispatcher → SessionKey → Dispatcher
unfolding cancel
interrupt d key = cancel_prev (lookup key d.processes) d

pub data Step : Dispatcher → Dispatcher → Type 0 where
  begins : (d : Dispatcher) (key : SessionKey) → Step d (begin d key)
  cancels :
      (d : Dispatcher) (p : ℕ) (prev : Option ℕ)
      → (d.calls p).phase ≡ swapped prev
      → Step d (cancel_before d p prev)
  starts :
      (d : Dispatcher) (p : ℕ)
      → may_start d (d.calls p).phase ≡ true
      → Step d (set_phase d p working)
  ends : (d : Dispatcher) (p : ℕ) → (d.calls p).phase ≡ working → Step d (set_phase d p leaving)
  closes :
      (d : Dispatcher) (p : ℕ)
      → (d.calls p).phase ≡ leaving
      → Step d (set_phase (cancel d p) p closed)
  removes : (d : Dispatcher) (p : ℕ) → (d.calls p).phase ≡ closed → Step d (finish d p)
  interrupts : (d : Dispatcher) (key : SessionKey) → Step d (interrupt d key)

pub data Reachable : Dispatcher → Type 0 where
  starting : Reachable new_dispatcher
  after : (d d' : Dispatcher) → Reachable d → Step d d' → Reachable d'
