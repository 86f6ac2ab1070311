-- ===== src/Hooks/FileAccess/Permitted.antt =====
-- FileAccessHook of internal/hooks/filesystem.go: exactly what it lets pass.
use arch_agent.Hooks.FileAccess.{
  PathLib, Rule, access_of, is_allow, resolve_paths, file_access, verify_path, verify_access,
  verify_paths, judge_paths, contains_symlink, verdict,
}
use arch_agent.Agent.{ToolCall}
use arch_agent.Base.{
  All, Bool, Bool-cases, List, Option, Option-cases, String, [], arith, false, inl, inr, none, refl,
  some, true, ℕ, ◌↔◌, ◌∷◌, ◌≡◌,
}
use arch_agent.Errors.{Error, Result, err, ok}
use arch_agent.Hooks.FileAccess.{no_access}
use arch_agent.Runtime.Hook.{applied}

module _ {D : Type 0} (lib : PathLib D) where
  -- `r` is the first rule whose pattern matches `p`.
  pub data FirstMatch (p : String) : List Rule → Rule → Type 0 where
    here :
        {r : Rule} {rules : List Rule}
        → lib.path_match r.pattern_text p ≡ true
        → FirstMatch p (r ∷ rules) r
    later :
        {r s : Rule} {rules : List Rule}
        → lib.path_match r.pattern_text p ≡ false
        → FirstMatch p rules s
        → FirstMatch p (r ∷ rules) s

  -- No symlink is found, and the first rule that matches allows the tool.
  pub record Permitted (fuel : ℕ) (rules : List Rule) (d : D) (tool_name p : String) : Type 0 where
    pub no_symlink : contains_symlink lib fuel d p ≡ some (ok false)
    pub rule : Rule
    pub first : FirstMatch p rules rule
    pub allows : is_allow tool_name rule.access ≡ true

  is_allow-no : (tool_name : String) → is_allow tool_name no_access ≡ false
  unfolding is_allow
  is_allow-no tool_name = ground arith

  pub access_of-FirstMatch :
      (p : String) {rules : List Rule} {r : Rule}
      → FirstMatch p rules r
      → access_of lib rules p ≡ r.access
  unfolding access_of
  access_of-FirstMatch p (here m) = rw m refl
  access_of-FirstMatch p (later m more) = rw m (access_of-FirstMatch p more)

  find_rule :
      (rules : List Rule) (p tool_name : String)
      → is_allow tool_name (access_of lib rules p) ≡ true
      → (r : Rule) × FirstMatch p rules r × (is_allow tool_name r.access ≡ true)
  unfolding access_of
  find_rule [] p tool_name h = absurd (ground (arith, is_allow-no tool_name))
  find_rule (s ∷ rules) p tool_name h = elim (Bool-cases (lib.path_match s.pattern_text p)) [
    | inl m ↦ (s, here m, ground arith)
    | inr m ↦
        let (r, first, allows) = find_rule rules p tool_name (ground arith) in
        (r, later m first, allows)
  ]

  module _ (fuel : ℕ) (rules : List Rule) (d : D) where
    verify_access_sound :
        (tool_name p : String) (o : Option (Result Bool))
        → contains_symlink lib fuel d p ≡ o
        → verify_access lib rules tool_name p o ≡ none
        → Permitted fuel rules d tool_name p
    unfolding verify_access
    verify_access_sound tool_name p none q h = cc
    verify_access_sound tool_name p (some (err e)) q h = cc
    verify_access_sound tool_name p (some (ok true)) q h = cc
    verify_access_sound tool_name p (some (ok false)) q h =
        let (r, first, allows) = find_rule rules p tool_name (ground arith) in
        record { no_symlink = q; rule = r; first = first; allows = allows }

    verify_access_complete :
        (tool_name p : String)
        → Permitted fuel rules d tool_name p
        → verify_access lib rules tool_name p (contains_symlink lib fuel d p) ≡ none
    unfolding verify_access
    verify_access_complete tool_name p ok_path =
        rw (ok_path.no_symlink, access_of-FirstMatch p ok_path.first, ok_path.allows) refl

    verify_paths_sound :
        (tool_name : String) (ps : List String)
        → verify_paths lib fuel rules d tool_name ps ≡ none
        → All (λ p. Permitted fuel rules d tool_name (lib.clean p)) ps
    unfolding verify_paths verify_path
    verify_paths_sound tool_name [] h = tt
    verify_paths_sound tool_name (p ∷ ps) h =
        elim (Option-cases (verify_path lib fuel rules d tool_name (lib.clean p))) [
          | inl q ↦ (
            verify_access_sound tool_name (lib.clean p) _ refl q,
            verify_paths_sound tool_name ps (ground arith),
          )
          | inr (e, q) ↦ absurd (ground arith)
        ]

    verify_paths_complete :
        (tool_name : String) (ps : List String)
        → All (λ p. Permitted fuel rules d tool_name (lib.clean p)) ps
        → verify_paths lib fuel rules d tool_name ps ≡ none
    unfolding verify_paths verify_path
    verify_paths_complete tool_name [] h = refl
    verify_paths_complete tool_name (p ∷ ps) h =
        rw (verify_access_complete tool_name (lib.clean p) h.0)
          (verify_paths_complete tool_name ps h.1)

    -- A call that resolves to paths passes the hook, unchanged, exactly if for every path, cleaned,
    -- the search finds no symlink and the first rule that matches exists and allows the tool.
    pub file_access-Permitted :
        (tc : ToolCall) (paths : List String)
        → resolve_paths lib tc ≡ ok paths
        → (file_access lib fuel rules d tc ≡ applied tc)
          ↔ All (λ p. Permitted fuel rules d tc.tool_name (lib.clean p)) paths
    unfolding file_access judge_paths
    file_access-Permitted tc paths q = rw q (
      (λ h.
          verify_paths_sound tc.tool_name paths
            (passed (verify_paths lib fuel rules d tc.tool_name paths) h)),
      λ h. rw (verify_paths_complete tc.tool_name paths h) refl,
    )
      where
        passed : (o : Option Error) → verdict lib tc o ≡ applied tc → o ≡ none
        passed none h = refl
        passed (some e) h = cc
