-- ===== src/Memory.antt =====
-- internal/memory: what becomes of the conversations. Memory/Activity logs them, Memory/Consolidation
-- lets an agent work on its memory.
pub mod Activity
pub mod Consolidation
