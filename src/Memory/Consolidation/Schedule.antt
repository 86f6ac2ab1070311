-- ===== src/Memory/Consolidation/Schedule.antt =====
-- When internal/memory/consolidation.go consolidates next.
use Prim.Native.Nat.{◌%◌}
use arch_agent.Memory.Consolidation.{next_consolidation, day, hour_23}
use arch_agent.Base.{arith, ℕ, ◌+◌, ◌<◌, ◌≡◌, ◌≤◌}

-- The next consolidation is after now, by at most a day, and at 23 o'clock.
next_consolidation-bounds :
    (now : ℕ)
    → (now < next_consolidation now)
      × (next_consolidation now ≤ now + day)
      × (next_consolidation now % day ≡ hour_23)
unfolding next_consolidation
next_consolidation-bounds now = ground arith
