-- ===== src/Cleanup/Exactly.antt =====
-- Which files are left when internal/cleanup/session.go has cleaned.
use arch_agent.Base.Keys.{string_eq, pair_eq, pair_beq, pair_beq_iff}
use arch_agent.Cleanup.Erasing.{broken_keys, old_keys, is_in, Files}
use arch_agent.Files.Sessions.{
  SessionDisk, SessionFile, scan_headers, header_line, with_header, header_of,
}
use arch_agent.Base.{
  Bool, List, Option, String, [], arith, false, ltb, none, not, refl, some, true, ℕ, ◌&&◌, ◌++◌,
  ◌+◌, ◌||◌, ◌∷◌, ◌≡◌,
}
use arch_agent.Base.Dict.{IsDict, lookup}
use arch_agent.Base.Keys.{◌==◌}
use arch_agent.Errors.{Error, Result, err, ok}
use arch_agent.Files.Sessions.{BrokenHeader, SessionHeaderDto}
use arch_agent.Session.{SessionHeader}
use arch_agent.Base.{Bool-cases, ap, inl, inr, subst}
use arch_agent.Base.Keys.{==_iff}
use arch_agent.Base.{Option-cases, if◌then◌else◌, ◌∙◌}
use arch_agent.Cleanup.{clean_agent, clean_read}
use arch_agent.Cleanup.Erasing.{
  eliminate_depricated-on, erase_all, handle_broken_sessions-on, lookup-erase_all, on, removable,
}
use arch_agent.Files.Sessions.{session_headers}
use arch_agent.Base.{sym}
use arch_agent.Cleanup.{clean, clean_agents}
use arch_agent.Cleanup.Erasing.{erase_all-IsDict}

-- A file is doomed if its header cannot be read, or was updated too long ago.
abbrev pub doomed_line : ℕ → ℕ → Result SessionHeaderDto → Bool
doomed_line now retention (err e) = true
doomed_line now retention (ok dto) = not (ltb now (dto.updated_at + retention))

abbrev pub is_doomed : ℕ → ℕ → SessionDisk → String × String → Option SessionFile → Bool
is_doomed now retention d key none = false
is_doomed now retention d key (some f) = doomed_line now retention (header_line d key f)

abbrev pub is_agent : String → List String → Bool
is_agent a [] = false
is_agent a (b ∷ agents) = (b == a) || is_agent a agents

abbrev pub lists : Option Error → Bool
lists none = true
lists (some e) = false

abbrev keys_of : ℕ → ℕ → String → List SessionHeader × List BrokenHeader → List (String × String)
keys_of now retention a (hs, bs) = broken_keys bs ++ old_keys now retention a hs

is_in-append :
    (k : String × String) (xs ys : List (String × String))
    → is_in k (xs ++ ys) ≡ (is_in k xs || is_in k ys)
is_in-append k [] ys = refl
is_in-append k (x ∷ xs) ys = ground (arith, is_in-append k xs ys)

module _ (now retention : ℕ) where
  with_header-is_in :
      (a : String) (key k : String × String) (r : Result SessionHeaderDto)
      (rest : List SessionHeader × List BrokenHeader)
      → (key.0 == a) ≡ true
      → is_in k (keys_of now retention a (with_header key r rest)) ≡ (
          (pair_beq key k && doomed_line now retention r) || is_in k (keys_of now retention a rest))
  with_header-is_in a key k (err e) (hs, bs) own = ground arith
  with_header-is_in a key k (ok dto) (hs, bs) own = ground (
    arith,
    ==_iff key.0 a,
    ==_iff key.0 k.0,
    ==_iff a k.0,
    is_in-append k (broken_keys bs) (old_keys now retention a hs),
    is_in-append k (broken_keys bs) (old_keys now retention a (header_of key.1 dto ∷ hs)),
  )

  scan_headers-is_in :
      (d : SessionDisk) (a : String) (k : String × String) (files : Files)
      → IsDict files
      → is_in k (keys_of now retention a (scan_headers d a files))
        ≡ ((k.0 == a) && is_doomed now retention d k (lookup k files))
  unfolding scan_headers lookup
  scan_headers-is_in d a k [] h = ground arith
  scan_headers-is_in d a k ((key, f) ∷ files) h =
      let rest = scan_headers-is_in d a k files h.1 in
      elim (Bool-cases (pair_beq key k)) [
        | inl same ↦
            let e : key ≡ k = (pair_beq_iff key k).0 same in
            ground (
              arith,
              rest,
              ap (λ (x : String × String). header_line d x f) e,
              subst (λ x. lookup x files ≡ none) e h.0,
              ==_iff key.0 k.0,
              pair_beq_iff key k,
              with_header-is_in a key k (header_line d key f) (scan_headers d a files),
            )
        | inr other ↦
            ground (
              arith,
              rest,
              with_header-is_in a key k (header_line d key f) (scan_headers d a files),
            )
      ]

  erase_all-append :
      (rm : String × String → Option Error) (xs ys : List (String × String)) (files : Files)
      → erase_all rm (xs ++ ys) files ≡ erase_all rm ys (erase_all rm xs files)
  unfolding erase_all
  erase_all-append rm [] ys files = refl
  erase_all-append rm (x ∷ xs) ys files = erase_all-append rm xs ys _

  -- The keys that are deleted for one agent.
  abbrev agent_keys : SessionDisk → String → Option Error → List (String × String)
  agent_keys d a (some e) = []
  agent_keys d a none = keys_of now retention a (scan_headers d a d.files)

  clean_scan-on :
      (a : String) (scan : List SessionHeader × List BrokenHeader) (d : SessionDisk)
      → clean_read now retention a (ok scan) d
        ≡ on d (erase_all d.remove_error (keys_of now retention a scan) d.files)
  unfolding clean_read
  clean_scan-on a (hs, bs) d =
      rw
        (
          handle_broken_sessions-on bs d,
          eliminate_depricated-on now retention a hs
              (on d (erase_all d.remove_error (broken_keys bs) d.files)),
          erase_all-append d.remove_error (broken_keys bs) (old_keys now retention a hs) d.files,
        )
        refl

  clean_agent-on :
      (a : String) (d : SessionDisk)
      → clean_agent now retention a d
        ≡ on d (erase_all d.remove_error (agent_keys d a (d.list_error a)) d.files)
  unfolding clean_agent session_headers clean_read erase_all
  clean_agent-on a d = elim (Option-cases (d.list_error a)) [
    | inl q ↦ rw (q, session_headers) (clean_scan-on a (scan_headers d a d.files) d)
    | inr (e, q) ↦ rw (q, session_headers) refl
  ]

  abbrev lookup_on : String × String → SessionDisk → Option SessionFile
  lookup_on k d = lookup k d.files

  clean_agent-lookup :
      (a : String) (k : String × String) (d : SessionDisk)
      → IsDict d.files
      → lookup_on k (clean_agent now retention a d) ≡ (
          if ((k.0 == a)
              && (lists (d.list_error k.0) && is_doomed now retention d k (lookup k d.files)))
            && removable (d.remove_error k)
          then none
          else lookup k d.files)
  clean_agent-lookup a k d h =
      ap (lookup_on k) (clean_agent-on a d)
      ∙ (lookup-erase_all d.remove_error (agent_keys d a (d.list_error a)) k d.files
          ∙ elim (Option-cases (d.list_error a)) [
            | inl q ↦ ground (arith, q, scan_headers-is_in d a k d.files h, ==_iff k.0 a)
            | inr (e, q) ↦ ground (arith, q, ==_iff k.0 a)
          ])

  clean_agents-lookup :
      (agents : List String) (k : String × String) (d : SessionDisk)
      → IsDict d.files
      → lookup_on k (clean_agents now retention agents d) ≡ (
          if (is_agent k.0 agents
              && (lists (d.list_error k.0) && is_doomed now retention d k (lookup k d.files)))
            && removable (d.remove_error k)
          then none
          else lookup k d.files)
  unfolding clean_agents
  clean_agents-lookup [] k d h = refl
  clean_agents-lookup (a ∷ agents) k d h =
      let fs : Files = erase_all d.remove_error (agent_keys d a (d.list_error a)) d.files in
      let one : lookup k fs ≡ _ =
        sym (ap (lookup_on k) (clean_agent-on a d)) ∙ clean_agent-lookup a k d h in
      ap (λ d'. lookup_on k (clean_agents now retention agents d')) (clean_agent-on a d)
      ∙ (clean_agents-lookup agents k (on d fs) (erase_all-IsDict d.remove_error _ d.files h)
          ∙ ground (arith, one, ==_iff k.0 a, ==_iff a k.0))

  -- Where the agents are known and no key has two files, Clean deletes exactly the files of known
  -- agents whose folder can be listed, whose header cannot be read (for whatever reason, so also
  -- where only the opening of the file failed) or was not updated within the retention, and which
  -- can be removed; every other file stays as it is.
  pub clean-lookup :
      (agents : List String) (k : String × String) (d : SessionDisk)
      → IsDict d.files
      → lookup k (clean now retention (ok agents) d).1.files ≡ (
          if (is_agent k.0 agents
              && (lists (d.list_error k.0) && is_doomed now retention d k (lookup k d.files)))
            && removable (d.remove_error k)
          then none
          else lookup k d.files)
  unfolding clean
  clean-lookup agents k d h = clean_agents-lookup agents k d h
