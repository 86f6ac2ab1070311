-- ===== src/Hooks/FileAccess.antt =====
-- internal/hooks/filesystem.go: which paths the file tools may touch.
pub mod Symlinks
pub mod Permitted
use arch_agent.Base.{ltb}
use arch_agent.Agent.{ToolCall}
use arch_agent.Base.{
  Bool, List, Option, String, [], concat, false, if◌then◌else◌, none, not, some, suc, true, zero, ℕ,
  ◌||◌, ◌∷◌,
}
use arch_agent.Base.Keys.{string_eq, ◌==◌}
use arch_agent.Errors.{
  Error, Result, agent_mistake, err, errors_is, is_not_file_tool, ok, or_else, sentinel, text,
  ◌>>=◌,
}
use arch_agent.Runtime.Hook.{Applied, applied, rejected}

pub data Access : Type 0 where
  no_access read_access write_access : Access

abbrev pub access_level : Access → ℕ
access_level no_access = 0
access_level read_access = 1
access_level write_access = 2

pub record Rule : Type 0 where
  pub pattern_text : String
  pub access : Access

-- What the code calls of path/filepath and of doublestar, and the decoding of a call's arguments. A
-- file system is read in a state `D`; `eval_symlinks` fails with a missing file by `none`.
pub record PathLib (D : Type 0) : Type 0 where
  pub clean : String → String
  pub dir : String → String
  pub eval_symlinks : D → String → Result (Option String)
  pub path_match : String → String → Bool
  pub validate_path_pattern : String → Bool
  pub path_argument : String → Option String
  pub move_arguments : String → Option (String × String)

unfoldable pub is_allow : String → Access → Bool
is_allow tool_name a =
    if tool_name == "read"
    then ltb 0 (access_level a)
    else if (tool_name == "edit") || ((tool_name == "write") || (tool_name == "move"))
    then ltb 1 (access_level a)
    else false

-- What UnwrapArgs makes of arguments that are no JSON of the type.
abbrev pub unwrapped {ℓ} : {A : Type ℓ} → Option A → Result A
unwrapped none = err (agent_mistake "invalid json aguments")
unwrapped (some a) = ok a

abbrev pub bad_path : Error
bad_path = agent_mistake "bad path"

module _ {D : Type 0} (lib : PathLib D) where
  abbrev one_path : Option String → Result (List String)
  one_path p = unwrapped p >>= λ a. ok (a ∷ [])

  abbrev two_paths : Option (String × String) → Result (List String)
  two_paths p = unwrapped p >>= λ a. ok (a.0 ∷ a.1 ∷ [])

  -- The paths of a call; the name of another tool is errIsNotFileTool.
  unfoldable pub resolve_paths : ToolCall → Result (List String)
  resolve_paths tc =
      if (tc.tool_name == "read") || ((tc.tool_name == "edit") || (tc.tool_name == "write"))
      then one_path (lib.path_argument tc.arguments)
      else if tc.tool_name == "move"
      then two_paths (lib.move_arguments tc.arguments)
      else err (sentinel is_not_file_tool)

  -- One round of the loop of containsSymlink at `cur`, given the rounds behind it.
  unfoldable pub symlink_round :
      Option (Result Bool) → String → Result (Option String) → Option (Result Bool)
  symlink_round further cur (err e) = some (err e)
  symlink_round further cur (ok (some resolved)) = some (ok (not (resolved == cur)))
  symlink_round further cur (ok none) = if lib.dir cur == cur then some (ok false) else further

  -- The loop, for at most so many rounds: `none` if they do not suffice.
  unfoldable pub symlink_loop : ℕ → D → String → Option (Result Bool)
  unfolding symlink_round
  symlink_loop zero d cur = none
  symlink_loop (suc n) d cur =
      symlink_round (symlink_loop n d (lib.dir cur)) cur (lib.eval_symlinks d cur)

  unfoldable pub contains_symlink : ℕ → D → String → Option (Result Bool)
  unfolding symlink_loop
  contains_symlink fuel d p = symlink_loop fuel d (lib.clean p)

  -- The access of the first rule that matches.
  unfoldable pub access_of : List Rule → String → Access
  access_of [] p = no_access
  access_of (r ∷ rules) p = if lib.path_match r.pattern_text p then r.access else access_of rules p

  unfoldable pub denied : String → Access → Error
  denied p a = agent_mistake (
      concat
        (p ∷ ": " ∷ (if ltb 0 (access_level a) then "read only access" else "access denied") ∷ []))

  -- verifyPath behind the search for symlinks. A search that runs out of rounds is an error, so that
  -- nothing is allowed by it.
  unfoldable pub verify_access : List Rule → String → String → Option (Result Bool) → Option Error
  unfolding denied access_of is_allow
  verify_access rules tool_name p none = some (text "the search for symlinks goes on")
  verify_access rules tool_name p (some (err e)) = some bad_path
  verify_access rules tool_name p (some (ok true)) =
      some (agent_mistake "path contain symlink: symlink is not allowed")
  verify_access rules tool_name p (some (ok false)) =
      if is_allow tool_name (access_of rules p) then none else some (denied p (access_of rules p))

  unfoldable pub verify_path : ℕ → List Rule → D → String → String → Option Error
  unfolding verify_access contains_symlink
  verify_path fuel rules d tool_name p = verify_access rules tool_name p (contains_symlink fuel d p)

  unfoldable pub verify_paths : ℕ → List Rule → D → String → List String → Option Error
  verify_paths fuel rules d tool_name [] = none
  verify_paths fuel rules d tool_name (p ∷ ps) =
      or_else (verify_path fuel rules d tool_name (lib.clean p))
        (verify_paths fuel rules d tool_name ps)

  abbrev pub verdict : ToolCall → Option Error → Applied ToolCall
  verdict tc none = applied tc
  verdict tc (some e) = rejected none e

  unfoldable pub judge_paths :
      ℕ → List Rule → D → ToolCall → Result (List String) → Applied ToolCall
  unfolding verify_paths
  judge_paths fuel rules d tc (err e) =
      if errors_is e is_not_file_tool then applied tc else rejected none e
  judge_paths fuel rules d tc (ok paths) = verdict tc (verify_paths fuel rules d tc.tool_name paths)

  unfoldable pub file_access : ℕ → List Rule → D → ToolCall → Applied ToolCall
  unfolding judge_paths resolve_paths
  file_access fuel rules d tc = judge_paths fuel rules d tc (resolve_paths tc)

  abbrev all_valid : List Rule → Option Rule
  all_valid [] = none
  all_valid (r ∷ rules) =
      if lib.validate_path_pattern r.pattern_text then all_valid rules else some r

  -- NewFileAccessHook: the rules of the hook, or the error.
  unfoldable pub new_file_access : List Rule → Result (List Rule)
  new_file_access rules = elim (all_valid rules) [
    | none ↦ ok rules
    | some r ↦ err (text (concat ("invalid pattern '" ∷ r.pattern_text ∷ "'" ∷ [])))
  ]
