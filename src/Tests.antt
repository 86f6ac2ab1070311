-- ===== src/Tests.antt =====
-- Runs of the models at concrete inputs, and instances of their theorems.
mod Messages
mod Runs
mod Chats
mod Tasks
mod Todos
mod HookRuns
mod Disks
mod Servers
mod Cleaning
mod Subagents
mod Providing
