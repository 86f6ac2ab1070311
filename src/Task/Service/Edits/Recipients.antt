-- ===== src/Task/Service/Edits/Recipients.antt =====
-- validateRecipients of internal/task/service.go.
use arch_agent.Base.{
  Bool, List, Option-cases, String, [], arith, false, inl, inr, is_some, not, true, ◌&&◌, ◌||◌, ◌∷◌,
  ◌≡◌,
}
use arch_agent.Base.Keys.{string_eq}
use arch_agent.Base.Dict.{Dict}
use arch_agent.Errors.{Result, err, ok}
use arch_agent.Task.Service.{Deps}
use arch_agent.Task.Service.Edits.{recipient_problems}
use arch_agent.Base.{refl}
use arch_agent.Base.Dict.{insert}
use arch_agent.Task.Service.Edits.{validate_recipients}

abbrev refuses : Result (Dict String String) → Bool
refuses (err e) = true
refuses (ok []) = false
refuses (ok (p ∷ ps)) = true

insert-refuses :
    (k v : String) (found : Dict String String) → refuses (ok (insert k v found)) ≡ true
unfolding insert
insert-refuses k v [] = refl
insert-refuses k v (p ∷ ps) = ground arith

abbrev pub is_refused : Result (Unit {0}) → Bool
is_refused (err e) = true
is_refused (ok u) = false

module _ (deps : Deps) where
  -- The repository has an agent for each of the ids.
  abbrev pub all_found : List String → Bool
  all_found [] = true
  all_found (r ∷ rs) = not (is_some (deps.agent_error r)) && all_found rs

  recipient_problems-refuses :
      (rs : List String) (found : Dict String String)
      → refuses (recipient_problems deps rs found) ≡ (not (all_found rs) || refuses (ok found))
  unfolding recipient_problems
  recipient_problems-refuses [] found = ground arith
  recipient_problems-refuses (r ∷ rs) found = elim (Option-cases (deps.agent_error r)) [
    | inl q ↦ rw (q, recipient_problems) (recipient_problems-refuses rs found)
    | inr (e, q) ↦
        let known = recipient_problems-refuses rs (insert r "is not exist" found) in
        ground (arith, q, known, insert-refuses r "is not exist" found)
  ]

  -- A list of recipients is accepted exactly if the repository has an agent for each of them.
  pub validate_recipients-lem :
      (rs : List String) → is_refused (validate_recipients deps rs) ≡ not (all_found rs)
  unfolding validate_recipients
  validate_recipients-lem rs = let known = recipient_problems-refuses rs [] in ground (arith, known)
