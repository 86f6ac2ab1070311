-- ===== src/Cleanup/Erasing.antt =====
-- The deletions of internal/cleanup/session.go as what they do to the files.
use arch_agent.Cleanup.{handle_broken_sessions, eliminate_depricated}
use arch_agent.Files.Sessions.{SessionDisk, SessionFile, delete_session, removed}
use arch_agent.Base.Keys.{string_eq, pair_eq, pair_beq, pair_beq_iff}
use arch_agent.Base.{
  Bool, Bool-cases, List, Option, String, [], false, if◌then◌else◌, inl, inr, ltb, none, refl, some,
  true, ℕ, ◌&&◌, ◌+◌, ◌||◌, ◌∷◌, ◌≡◌,
}
use arch_agent.Base.Dict.{lookup}
use arch_agent.Base.Keys.{pair_beq, string_eq}
use arch_agent.Errors.{Error}
use arch_agent.Files.Sessions.{BrokenHeader}
use arch_agent.Session.{SessionHeader}
use arch_agent.Base.{Option-cases, arith}
use arch_agent.Base.Dict.{Dict, IsDict, delete, delete-IsDict, lookup-delete}

-- The keys of the broken headers, and of the headers that are too old.
abbrev pub broken_keys : List BrokenHeader → List (String × String)
broken_keys [] = []
broken_keys (b ∷ bs) = (b.agent_id, b.session_id) ∷ broken_keys bs

abbrev pub old_keys : ℕ → ℕ → String → List SessionHeader → List (String × String)
old_keys now retention a [] = []
old_keys now retention a (h ∷ hs) =
    let rest = old_keys now retention a hs in
    if ltb now (h.updated_at + retention) then rest else (a, h.id) ∷ rest

abbrev pub is_in : String × String → List (String × String) → Bool
is_in key [] = false
is_in key (k ∷ ks) = pair_beq k key || is_in key ks

abbrev pub Files : Type 0
Files = Dict (String × String) SessionFile

-- Whether a file can be removed.
abbrev pub removable : Option Error → Bool
removable none = true
removable (some e) = false

abbrev forget : String × String → Option SessionFile → Option Error → Files → Files
forget key none e files = files
forget key (some f) (some e) files = files
forget key (some f) none files = delete key files

-- What the deletion of one file, and of some, does to the files.
erase : (String × String → Option Error) → String × String → Files → Files
erase rm key files = forget key (lookup key files) (rm key) files

unfoldable pub erase_all : (String × String → Option Error) → List (String × String) → Files → Files
unfolding erase
erase_all rm [] files = files
erase_all rm (k ∷ ks) files = erase_all rm ks (erase rm k files)

lookup-erase :
    (rm : String × String → Option Error) (key k : String × String) (files : Files)
    → lookup k (erase rm key files)
      ≡ (if pair_beq key k && removable (rm k) then none else lookup k files)
unfolding erase
lookup-erase rm key k files = elim (Option-cases (lookup key files)) [
  | inl q ↦ rw q (ground (arith, pair_beq_iff key k))
  | inr (f, q) ↦ elim (Option-cases (rm key)) [
    | inl free_to ↦ rw (q, free_to) (ground (arith, lookup-delete key k files, pair_beq_iff key k))
    | inr (e, kept) ↦ rw (q, kept) (ground (arith, pair_beq_iff key k))
  ]
]

forget-IsDict :
    (key : String × String) (o : Option SessionFile) (e : Option Error) (files : Files)
    → IsDict files
    → IsDict (forget key o e files)
forget-IsDict key none e files h = h
forget-IsDict key (some f) (some e) files h = h
forget-IsDict key (some f) none files h = delete-IsDict key files h

pub lookup-erase_all :
    (rm : String × String → Option Error) (ks : List (String × String)) (k : String × String)
    (files : Files)
    → lookup k (erase_all rm ks files)
      ≡ (if is_in k ks && removable (rm k) then none else lookup k files)
unfolding erase_all
lookup-erase_all rm [] k files = refl
lookup-erase_all rm (key ∷ ks) k files =
    ground (arith, lookup-erase_all rm ks k (erase rm key files), lookup-erase rm key k files)

pub erase_all-IsDict :
    (rm : String × String → Option Error) (ks : List (String × String)) (files : Files)
    → IsDict files
    → IsDict (erase_all rm ks files)
unfolding erase_all erase
erase_all-IsDict rm [] files h = h
erase_all-IsDict rm (k ∷ ks) files h =
    erase_all-IsDict rm ks (erase rm k files) (forget-IsDict k (lookup k files) (rm k) files h)

-- `d` with the files `fs`.
abbrev pub on : SessionDisk → Files → SessionDisk
on d fs = record d { files = fs }

removed-on :
    (d : SessionDisk) (key : String × String) (o : Option SessionFile) (e : Option Error)
    → (removed d key o e).1 ≡ on d (forget key o e d.files)
removed-on d key none e = refl
removed-on d key (some f) (some e) = refl
removed-on d key (some f) none = refl

delete_session-on :
    (d : SessionDisk) (a i : String)
    → (delete_session d a i).1 ≡ on d (erase d.remove_error (a, i) d.files)
unfolding delete_session erase
delete_session-on d a i = removed-on d (a, i) _ _

pub handle_broken_sessions-on :
    (bs : List BrokenHeader) (d : SessionDisk)
    → handle_broken_sessions bs d ≡ on d (erase_all d.remove_error (broken_keys bs) d.files)
unfolding handle_broken_sessions erase_all
handle_broken_sessions-on [] d = refl
handle_broken_sessions-on (b ∷ bs) d =
    rw (delete_session-on d b.agent_id b.session_id) (handle_broken_sessions-on bs _)

pub eliminate_depricated-on :
    (now retention : ℕ) (a : String) (hs : List SessionHeader) (d : SessionDisk)
    → eliminate_depricated now retention a hs d
      ≡ on d (erase_all d.remove_error (old_keys now retention a hs) d.files)
unfolding eliminate_depricated erase_all
eliminate_depricated-on now retention a [] d = refl
eliminate_depricated-on now retention a (h ∷ hs) d =
    elim (Bool-cases (ltb now (h.updated_at + retention))) [
      | inl young ↦ rw young (eliminate_depricated-on now retention a hs d)
      | inr old ↦
          rw (old, delete_session-on d a h.id) (eliminate_depricated-on now retention a hs _)
    ]
