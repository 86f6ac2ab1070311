-- ===== src/Hooks.antt =====
-- internal/hooks: what the program hangs into the loop of internal/runtime. This file has the world
-- that the hooks act on, and what they are given.
pub mod Completion
pub mod ContentSize
pub mod FileAccess
pub mod Secrets
pub mod Sets
pub mod Guarantees
use arch_agent.Base.{ℕ, String, Option}
use arch_agent.Base.Dict.{Dict}
use arch_agent.Errors.{Error}
use arch_agent.Todo.{Store}

-- The todo lists with the time in seconds, the attempts that UndoneTodoHook counts by session, and
-- all the rest, which the hooks do not write.
pub record World (R : Type 0) : Type 0 where
  pub todos : Store
  pub now : ℕ
  pub attempts : Dict String ℕ
  pub rest : R

-- The texts of the package prompt that this package puts into errors.
pub record Cautions : Type 0 where
  pub empty_answer_caution : String
  pub undone_todos_caution : String → String

-- agent.MemoryIndexer, as far as its error goes, and (error).Error.
pub record Indexer (R : Type 0) : Type 0 where
  pub memory_index : String → R → Option Error
  pub error_string : Error → String
