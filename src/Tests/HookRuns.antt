-- ===== src/Tests/HookRuns.antt =====
-- Examples for internal/hooks.
use arch_agent.Hooks.{World, Cautions}
use arch_agent.Hooks.Sets.{Parts, agent_rules, new_agent_hooks, agent_hook_list}
use arch_agent.Hooks.Guarantees.{HookSet, of_agent, process_tool_calls-HookSet}
use arch_agent.Hooks.FileAccess.{
  PathLib, resolve_paths, file_access, contains_symlink, new_file_access,
}
use arch_agent.Hooks.FileAccess.Symlinks.{Settles, contains_symlink-Settles}
use arch_agent.Hooks.FileAccess.Permitted.{Permitted, file_access-Permitted}
use arch_agent.Hooks.Sets.AgentRules.{is_open, file_access-agent_rules}
use arch_agent.Hooks.Completion.Patience.{undone_todo-patience, is_given_up, is_turned_back, insist}
use arch_agent.Hooks.Completion.{undone_todo, attempts_of}
use arch_agent.Agent.{Completion, ToolCall}
use arch_agent.Agent.Merge.Content.{answered, gather}
use arch_agent.Base.{
  All, Bool, Bool-cases, List, String, [], arith, false, if◌then◌else◌, inl, inr, length, none,
  refl, some, true, ℕ, ◌<◌, ◌||◌, ◌↔◌, ◌∷◌, ◌≡◌,
}
use arch_agent.Base.Dict.{lookup}
use arch_agent.Base.Int.{pos}
use arch_agent.Base.Keys.{==_self, string_eq, ◌==◌}
use arch_agent.Errors.{Result, ok}
use arch_agent.Hooks.Completion.{extract_undone_todos}
use arch_agent.Hooks.FileAccess.{
  access_of, is_allow, judge_paths, symlink_loop, symlink_round, verify_access, verify_path,
  verify_paths,
}
use arch_agent.Runtime.{Context, Model}
use arch_agent.Runtime.Hook.{Hook, applied}
use arch_agent.Runtime.ToolCalls.{process_tool_calls}
use arch_agent.Todo.{items_of, list_todos, touch_timer}

-- A disk with the folder "a" and no symlink, on which a path is clean as it is.
abbrev disk : PathLib (Unit {0})
disk = record {
  clean = λ p. p;
  dir = λ p. if p == "a/new" then "a" else p;
  eval_symlinks = λ d p. if p == "a" then ok (some "a") else ok none;
  path_match = λ pat p. (pat == "**") || (pat == p);
  validate_path_pattern = λ pat. true;
  path_argument = λ args. some args;
  move_arguments = λ args. some (args, "a/new");
}

abbrev height : String → ℕ
height p = if p == "a/new" then 1 else 0

dir-lower : (p : String) → (disk.dir p == p) ≡ false → height (disk.dir p) < height p
dir-lower p h = elim (Bool-cases (p == "a/new")) [
  | inl q ↦ rw q (omega arith)
  | inr q ↦ absurd (ground (arith, ==_self p))
]

contains_symlink-Settles_example :
    (r : Result Bool) × (contains_symlink disk 2 tt "a/new" ≡ some r) × Settles disk tt "a/new" r
contains_symlink-Settles_example =
    contains_symlink-Settles disk height dir-lower 2 tt "a/new" (omega arith)

abbrev writing : ToolCall
writing = record { id = "1"; tool_name = "write"; arguments = "a/new" }

file_access-Permitted_example :
    (file_access disk 2 agent_rules tt writing ≡ applied writing)
    ↔ All (λ p. Permitted disk 2 agent_rules tt "write" p) ("a/new" ∷ [])
unfolding resolve_paths
file_access-Permitted_example =
    file_access-Permitted disk 2 agent_rules tt writing ("a/new" ∷ []) refl

file_access-agent_rules_example : All (λ p. is_open disk "write" p ≡ true) ("a/new" ∷ [])
unfolding resolve_paths file_access judge_paths verify_paths verify_path verify_access
    contains_symlink symlink_loop symlink_round access_of agent_rules is_allow
file_access-agent_rules_example = file_access-agent_rules disk 2 tt writing ("a/new" ∷ []) refl refl

abbrev cautions : Cautions
cautions = record { empty_answer_caution = "say more"; undone_todos_caution = λ s. s }

abbrev hook_parts : Parts (Unit {0})
hook_parts = record {
  lib = disk;
  fuel = 2;
  session = some "s";
  cautions = cautions;
  cut = λ n s. s;
  replace = λ d s. s;
  indexer = record { memory_index = λ agent_id d. none; error_string = λ e. "" };
}

abbrev chat_hooks : List (Hook (World (Unit {0})))
chat_hooks = agent_hook_list hook_parts agent_rules

hook_set : HookSet hook_parts chat_hooks
unfolding new_agent_hooks new_file_access agent_rules
hook_set = of_agent refl

-- One todo is open.
abbrev with_todo : World (Unit {0})
with_todo = record {
  todos = record {
    todos = ("s", record { id = 0; title = "milk"; status = "pending" } ∷ []) ∷ [];
    timers = [];
  };
  now = 5;
  attempts = [];
  rest = tt;
}

abbrev says_done : Completion
says_done = record {
  tool_calls = [];
  content = "done";
  done = true;
  input_tokens = 1;
  completion_tokens = 1;
}

abbrev stubborn : Model (World (Unit {0}))
stubborn = record {
  max_turns = none;
  context_limit = pos 1000;
  complete = λ tools msgs w. (ok says_done, w);
}

abbrev undying : Context (World (Unit {0}))
undying = record { err = λ w. none }

process_tool_calls-HookSet_example :
    let msgs = (process_tool_calls [] chat_hooks (writing ∷ []) with_todo).0 in
    (gather answered msgs ≡ "1" ∷ []) × (length msgs ≡ 1)
process_tool_calls-HookSet_example =
    process_tool_calls-HookSet hook_parts chat_hooks hook_set [] (writing ∷ []) with_todo

undone_todo-patience_example :
    (is_turned_back
        (undone_todo (some "s") cautions says_done (insist cautions "s" says_done 2 with_todo)).0
      ≡ true)
    × (is_given_up
          (undone_todo (some "s") cautions says_done (insist cautions "s" says_done 3 with_todo)).0
        ≡ true)
    × (attempts_of "s"
          (undone_todo (some "s") cautions says_done (insist cautions "s" says_done 3 with_todo)).1
        ≡ 0)
unfolding extract_undone_todos list_todos items_of touch_timer lookup attempts_of
undone_todo-patience_example =
    undone_todo-patience cautions "s" says_done refl
      (record { id = 0; title = "milk"; status = "pending" }) [] with_todo 2 refl refl (omega arith)
