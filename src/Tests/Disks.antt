-- ===== src/Tests/Disks.antt =====
-- Examples for internal/files.
use arch_agent.Files.LockTable.{
  System, Reach, Move, start, then, moves, acquires, locks_it, unlocks, releases, write_lock, holds,
  start_system,
}
use arch_agent.Files.LockTable.Exclusion.{lock_table-exclusion}
use arch_agent.Files.LockTable.Refinement.{LocksStep, view, lock_table-LocksStep}
use arch_agent.Files.Storage.{Root, run_op, rename}
use arch_agent.Files.Storage.Locking.{run_op-locks}
use arch_agent.Files.Dto.{dto_to_messages, messages_to_dto}
use arch_agent.Agent.Message.{Message, agent_message, tool_result_message, user_message}
use arch_agent.Base.{List, String, [], arith, none, refl, suc, ℕ, ◌∷◌, ◌≡◌}
use arch_agent.Base.Dict.{lookup}
use arch_agent.Base.Keys.{string_eq}
use arch_agent.Errors.{ok}
use arch_agent.Files.Dto.RoundTrip.{dto_to_messages-messages_to_dto}
use arch_agent.Files.LockTable.{
  acquire, acquire_found, admits, enter, idle, leave, leaves, new_lock_table, release, set_mu,
  waits,
}
use arch_agent.Files.LockTable.Family.{put}
use arch_agent.Files.LockTable.Refinement.{label}
use arch_agent.Files.Storage.{blocks_forever}

-- Thread 0 waits for the lock of "a", and then holds it.
abbrev one_waits : System
one_waits = record {
  table = (acquire "a" start_system.table).1;
  pc = put 0 (waits write_lock "a" (acquire "a" start_system.table).0) start_system.pc;
}

one_waits-Reach : Reach 2 one_waits
one_waits-Reach = then start (moves 0 (omega arith) (acquires write_lock "a"))

abbrev holding : System
holding = record {
  table = set_mu one_waits.table 0 (enter write_lock (one_waits.table.mu 0));
  pc = put 0 (holds write_lock "a" 0) one_waits.pc;
}

enters : Move one_waits.table (one_waits.pc 0) holding.table (holds write_lock "a" 0)
unfolding acquire acquire_found new_lock_table admits lookup
enters = locks_it refl

holding-Reach : Reach 2 holding
holding-Reach = then one_waits-Reach (moves 0 (omega arith) enters)

lock_table-exclusion_example : ◌≡◌ {A = ℕ} 0 0
lock_table-exclusion_example = lock_table-exclusion holding-Reach 0 0 0 0 write_lock "a" refl refl

lock_table-LocksStep_example : LocksStep (view one_waits.table) (view holding.table) (label enters)
lock_table-LocksStep_example = lock_table-LocksStep one_waits-Reach 0 (omega arith) enters

-- Thread 0 gives the lock back and forgets the entry.
abbrev quiet : System
quiet = record {
  table = release "a" 0 (set_mu holding.table 0 (leave write_lock (holding.table.mu 0)));
  pc = put 0 idle (put 0 (leaves "a" 0) holding.pc);
}

quiet-Reach : Reach 2 quiet
quiet-Reach =
    then (then holding-Reach (moves 0 (omega arith) unlocks)) (moves 0 (omega arith) releases)

quiet-idle : (i : ℕ) → quiet.pc i ≡ idle
quiet-idle i = ground arith

-- A disk that always succeeds with the same reply.
abbrev calm : Root String ℕ
calm = record {
  perform = λ held op w. (ok "done", suc w);
  open_at = λ held o name w. (ok name, suc w);
  create_at = λ held name w. (ok name, suc w);
  close_file = λ held f w. (none, suc w);
}

test-rename-same : run_op calm (rename "a" "a") [] 0 ≡ blocks_forever
test-rename-same = run_op-locks calm (rename "a" "a") 0

abbrev talk : List Message
talk = user_message [] ∷ agent_message [] [] ∷ tool_result_message "c" [] ∷ []

dto_to_messages-messages_to_dto_example : dto_to_messages (messages_to_dto talk) ≡ ok talk
dto_to_messages-messages_to_dto_example = dto_to_messages-messages_to_dto talk
