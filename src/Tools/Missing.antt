-- ===== src/Tools/Missing.antt =====
-- ToolServers of internal/tools/service.go under DistillErrNotExist of internal/types/errors.go, as
-- the callers of the first use the second.
use arch_agent.Chat.{distilled}
use arch_agent.Tools.{find_servers, tool_servers}
use arch_agent.Errors.Distill.{
  distill_err_not_exist, distill_err_not_exist-only, only_not_exist, all_not_exist,
}
use arch_agent.Base.{List, Option-cases, String, [], ap, inl, inr, none, refl, some, true, ◌∷◌, ◌≡◌}
use arch_agent.Base.Dict.{Dict, lookup}
use arch_agent.Base.Keys.{string_eq}
use arch_agent.Errors.{Error, Errors, cons, errors_is, errors_join, nil}
use arch_agent.Base.{arith, subst}
use arch_agent.Errors.{joined}
use arch_agent.Base.{Bool, is_some, not, ◌&&◌}

join-distill :
    (es : Errors) (e : Error)
    → all_not_exist es ≡ true
    → errors_join es ≡ some e
    → distill_err_not_exist e ≡ none
unfolding errors_join only_not_exist
join-distill nil e h q = cc
join-distill (cons x xs) e h q =
    subst (λ d. distill_err_not_exist d ≡ none) (same q)
      (ground (arith, distill_err_not_exist-only (joined (cons x xs))))
  where
    same : {a b : Error} → some a ≡ some b → a ≡ b
    same r = cc

distilled-join : (es : Errors) → all_not_exist es ≡ true → distilled (errors_join es) ≡ none
distilled-join es h = elim (Option-cases (errors_join es)) [
  | inl q ↦ rw q refl
  | inr (e, q) ↦ rw q (join-distill es e h q)
]

module _ {S : Type 0} where
  -- The servers that the map has for the names, in their order.
  abbrev pub connected : List String → Dict String S → List S
  connected [] servers = []
  connected (n ∷ names) servers = elim (lookup n servers) [
    | some srv ↦ srv ∷ connected names servers
    | none ↦ connected names servers
  ]

  find_servers-connected :
      (names : List String) (servers : Dict String S)
      → ((find_servers names servers).0 ≡ connected names servers)
        × (all_not_exist (find_servers names servers).1 ≡ true)
  unfolding find_servers all_not_exist errors_is
  find_servers-connected [] servers = (refl, refl)
  find_servers-connected (n ∷ names) servers =
      let (found, missing) = find_servers-connected names servers in
      elim (Option-cases (lookup n servers)) [
        | inl q ↦ rw (q, find_servers, connected) (found, missing)
        | inr (srv, q) ↦ rw (q, find_servers, connected) (ap (◌∷◌ srv) found, missing)
      ]

  abbrev pub all_connected : List String → Dict String S → Bool
  all_connected [] servers = true
  all_connected (n ∷ names) servers = is_some (lookup n servers) && all_connected names servers

  find_servers-all_connected :
      (names : List String) (servers : Dict String S)
      → is_some (errors_join (find_servers names servers).1) ≡ not (all_connected names servers)
  unfolding find_servers errors_join
  find_servers-all_connected [] servers = refl
  find_servers-all_connected (n ∷ names) servers =
      ground (arith, find_servers-all_connected names servers)

  -- ToolServers returns the servers that are connected under the names, in their order, and an error
  -- exactly if some name has none; what its callers make of the error by DistillErrNotExist is nil.
  pub tool_servers-distill :
      (names : List String) (servers : Dict String S)
      → ((tool_servers names servers).0 ≡ connected names servers)
        × (is_some (tool_servers names servers).1 ≡ not (all_connected names servers))
        × (distilled (tool_servers names servers).1 ≡ none)
  unfolding tool_servers
  tool_servers-distill names servers =
      let (found, missing) = find_servers-connected names servers in
      (
        found,
        find_servers-all_connected names servers,
        distilled-join (find_servers names servers).1 missing,
      )
