-- ===== src/Lib.antt =====
-- A model of arch-agent, a server that runs language model agents: agents hold conversations, call
-- tools, and work on scheduled tasks.
--
-- The program's parts, and the files that model them:
--
-- - Errors.antt: internal/types/errors.go, and what the program uses of Go's package errors.
--   `errors_is` and `as_mistake` are errors.Is and errors.As; a nil error is `none`. Errors/Distill is
--   DistillErrNotExist.
-- - Agent.antt and Agent/: internal/agent, the vocabulary. Agent/Message has the four kinds of
--   messages and their printing, Agent/Merge MergeMatchedPair and CollapseMatched, with the
--   function by recursion from the right in Agent/Merge/Reference, Agent/Exclude ExcludeToolCallsData.
--   Agent/Service is service.go, over the repository of Files/Agents and the servers of Tools.
-- - Session.antt: internal/session/session.go. A method holds the mutex, so it is a function from the
--   session to the session.
-- - Runtime.antt and Runtime/: internal/runtime, the loop in which a model and its tools take turns.
--   Runtime/Hook is ApplyHooks, Runtime/ToolCalls the calls of tools (the second half of loop.go),
--   Runtime/Compaction doCompact, and Runtime/Loop RunAgentLoop: one round is `turn`, which ends by
--   `continue`, `returns` or `panics`, and `run_turns` counts the rounds that are left, as the range of
--   the source does, so no fuel is added. What the loop sends to its channel is the list of events of
--   a run. The model, the tools and the hooks are parameters that act on a world of any type.
-- - Chat.antt and Chat/: internal/chat. `prepare` is Chat up to the start of the loop, Chat/Forward
--   the loop over the events of a run that changes and saves the session, Chat/SystemMessage the
--   system message and its cache (context_assembler.go), and Chat/Dispatcher a step relation on the
--   processes of dispatcher.go, in which each step is what a goroutine does between two points where
--   another can go on.
-- - Task.antt and Task/: internal/task and internal/files/tasks.go. Task/Files is the repository over a
--   file whose reads and writes may fail, Task/Service the runtimes of the tasks and Reload,
--   Task/Service/Edits the methods List, Add, Patch and Delete.
-- - Todo.antt and Todo/: internal/tools/todo/storage.go, the todo lists with their timers. A timer is a
--   session with the time at which it fires; `fire` lets all fire that are due.
-- - Hooks.antt and Hooks/: internal/hooks, the values that fill the parameter `hooks` of the loop.
--   Hooks/Completion, Hooks/ContentSize, Hooks/FileAccess and Hooks/Secrets have a function for each
--   hook, over a world with the todo lists, and Hooks/Sets the two lists of hook_sets.go. What the loop
--   may rely on with them is in Hooks/Guarantees. The search for symlinks runs on fuel; a round more
--   than the path has ancestors is enough.
-- - Files.antt and Files/: internal/files. Files/LockTable is locktable.go as a step relation on any
--   number of threads, with its invariant in Files/LockTable/Invariant and Files/LockTable/Moves and the
--   specification by one lock per path in Files/LockTable/Refinement. Files/Storage has the methods of
--   filesystem.go over the locks that one goroutine holds, Files/Dto the conversion of messages, and
--   Files/Sessions the repository of the sessions (sessions.go) with Create of
--   internal/session/service.go, and Files/Agents that of the agents (agents.go).
-- - Tools.antt: internal/tools/service.go, the tool servers by name.
-- - Mcp.antt and Mcp/: internal/mcp, the configurations and the service, whose state stands together
--   with the map of Tools. Mcp/Service/Steps is a step relation: what Reload does under the mutex, a
--   successful Connect, the entry into the map of servers, a shutdown and the end of a connection are
--   steps, and a handshake is the time between two of them.
-- - Cleanup.antt and Cleanup/: internal/cleanup, over the repository of Files/Sessions. The deletions
--   of a cleaning are gathered in Cleanup/Erasing.
-- - Memory.antt and Memory/: internal/memory. Memory/Activity is activity_reporter.go, with a step for
--   each method and for each timer that fires, and for the two halves of Commit, between which the
--   mutex is free (Memory/Activity/Stuck), and Memory/Consolidation
--   consolidation.go, which runs the loop of Runtime for each agent with a memory.
-- - Subagent.antt: internal/subagent and what the tool call_agent of internal/tools/call_agent.go makes
--   of an answer. A call creates a session and runs the chat of Chat/Forward.
-- - Providers.antt and Providers/: internal/model over the file of internal/files/models.go. The
--   factories that make a model are parameters; the methods that change a provider are in
--   Providers/Updating.
-- - Secrets.antt and Secrets/: internal/secrets, with the length of a text in bytes as a parameter.
-- - Base.antt and Base/: shared names, lists, Go's maps as association lists (Base/Dict), integers.
-- - Tests.antt and Tests/: runs at concrete inputs.
--
-- A chat calls the agents, models, tools and sessions by the records `Deps`; it runs the loop of
-- Runtime on the context that it prepared, and folds the events into the Session. Tasks call a chat.
--
-- Bounds: token counts and lengths are natural numbers, as the int64 and int values of the program
-- stay far below 2^63. The two products with a float (seven tenths of the messages, nine tenths of the
-- context limit) are written as quotients of integers; these agree with the rounded products for up to
-- 2^20 messages and a limit up to 2^49.
--
-- Not modelled: the HTTP interface, the calls of a model over HTTP, the sessions of MCP, the tools, the
-- index of the memory, the execution of a task, and the text of the files; they
-- are I/O, or parameters of what is modelled, or not reached yet. Messages and tool calls are values.
-- In the source OverwriteMessages keeps the slice to which the loop goes on appending, and a hook may
-- write into a call that the session shares: what is stated of the saved session in
-- Chat/Forward/Conversation is therefore about runs that do not compact, with hooks that write into no
-- call. A write of the tasks may break off half way (Task/Files); a write of sessions, agents and
-- providers that fails leaves the file as it was. Of a task the goroutine that waits for its cron
-- time is left out, and of an event its time stamp.
mod Base
pub mod Errors
pub mod Agent
pub mod Session
pub mod Runtime
pub mod Chat
pub mod Task
pub mod Todo
pub mod Hooks
pub mod Files
pub mod Tools
pub mod Mcp
pub mod Cleanup
pub mod Memory
pub mod Subagent
pub mod Providers
pub mod Secrets
pub mod Tests
