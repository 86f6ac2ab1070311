-- ===== src/Tools.antt =====
-- internal/tools/service.go: the tool servers by their names. Each method holds the mutex, so a method
-- is a function of the map.
pub mod Missing
use arch_agent.Base.{concat}
use arch_agent.Base.{List, Option, String, [], none, some, ◌∷◌}
use arch_agent.Base.Dict.{Dict, delete, insert, lookup}
use arch_agent.Base.Keys.{string_eq}
use arch_agent.Errors.{
  Error, Errors, Result, cons, err, errors_join, is_not_exist, nil, ok, sentinel, text, wrap,
}

module _ {S : Type 0} where
  -- The servers that ToolServers finds, and its errors.
  unfoldable pub find_servers : List String → Dict String S → List S × Errors
  find_servers [] servers = ([], nil)
  find_servers (n ∷ names) servers =
      let (found, missing) = find_servers names servers in
      elim (lookup n servers) [
        | some srv ↦ (srv ∷ found, missing)
        | none ↦ (
          found,
          cons (wrap (concat ("tool service: " ∷ n ∷ " " ∷ [])) (sentinel is_not_exist)) missing,
        )
      ]

  unfoldable pub tool_servers : List String → Dict String S → List S × Option Error
  unfolding find_servers
  tool_servers names servers =
      let (found, missing) = find_servers names servers in (found, errors_join missing)

  unfoldable pub connect : String → S → Dict String S → Result (Dict String S)
  connect server_name server servers = elim (lookup server_name servers) [
    | some old ↦ err (text (concat ("server " ∷ server_name ∷ " already connected" ∷ [])))
    | none ↦ ok (insert server_name server servers)
  ]

  unfoldable pub disconnect : String → Dict String S → Dict String S
  disconnect server_name servers = delete server_name servers
