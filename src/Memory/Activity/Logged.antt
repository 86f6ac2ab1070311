-- ===== src/Memory/Activity/Logged.antt =====
-- What the timers of internal/memory/activity_reporter.go hand over while the service is enabled.
use arch_agent.Base.Keys.{Eq, ◌==◌}
use arch_agent.Base.Dict.{lookup}
use arch_agent.Memory.Activity.{Service, commit, or_empty}
use arch_agent.Agent.Message.{Message}
use arch_agent.Base.{Bool, List, [], false, if◌then◌else◌, is_some, ℕ, ◌++◌, ◌||◌, ◌∷◌, ◌≡◌}
use arch_agent.Base.Keys.{string_eq}

module _ {K : Type 0} ⦃e : Eq K⦄ where
  -- The messages that were committed for one session, in their order.
  abbrev pub messages_for : K → List (ℕ × K × List Message) → List Message
  messages_for key [] = []
  messages_for key ((now, k, msgs) ∷ cs) =
      let rest = messages_for key cs in if k == key then msgs ++ rest else rest

  abbrev pub commits_to : K → List (ℕ × K × List Message) → Bool
  commits_to key [] = false
  commits_to key ((now, k, msgs) ∷ cs) = (k == key) || commits_to key cs

module _ {K M : Type 0} ⦃e : Eq K⦄ where
  unfoldable pub run_commits : List (ℕ × K × List Message) → Service K M → Service K M
  run_commits [] s = s
  run_commits ((now, k, msgs) ∷ cs) s = run_commits cs (commit now k msgs s)

  -- What is buffered for a session behind some commits.
  record Buffers (key : K) (msgs : List Message) (some_msgs : Bool) (s s' : Service K M)
      : Type 0 where
    buffered : or_empty (lookup key s'.buffers) ≡ or_empty (lookup key s.buffers) ++ msgs
    there : is_some (lookup key s'.buffers) ≡ (is_some (lookup key s.buffers) || some_msgs)
    enabled : s'.enabled ≡ s.enabled
    model : s'.model ≡ s.model
