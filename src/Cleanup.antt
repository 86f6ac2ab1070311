-- ===== src/Cleanup.antt =====
-- internal/cleanup: which sessions are deleted. Times are counts of a clock that all calls of one
-- cleaning read alike, so that `updatedAt.After(now - retention)` is `now < updated_at + retention`.
pub mod Erasing
pub mod Exactly
use arch_agent.Session.{SessionHeader}
use arch_agent.Files.Sessions.{SessionDisk, BrokenHeader, delete_session, session_headers}
use arch_agent.Base.{List, Option, String, [], if◌then◌else◌, ltb, none, some, ℕ, ◌*◌, ◌+◌, ◌∷◌}
use arch_agent.Errors.{Error, Result, err, ok, text}

unfoldable pub handle_broken_sessions : List BrokenHeader → SessionDisk → SessionDisk
handle_broken_sessions [] d = d
handle_broken_sessions (b ∷ broken) d =
    handle_broken_sessions broken (delete_session d b.agent_id b.session_id).1

unfoldable pub eliminate_depricated :
    ℕ → ℕ → String → List SessionHeader → SessionDisk → SessionDisk
eliminate_depricated now retention agent_id [] d = d
eliminate_depricated now retention agent_id (h ∷ headers) d =
    eliminate_depricated now retention agent_id headers
      (if ltb now (h.updated_at + retention) then d else (delete_session d agent_id h.id).1)

-- What is done for one agent, once its headers are read.
unfoldable pub clean_read :
    ℕ → ℕ → String → Result (List SessionHeader × List BrokenHeader) → SessionDisk → SessionDisk
unfolding handle_broken_sessions eliminate_depricated
clean_read now retention agent_id (err e) d = d
clean_read now retention agent_id (ok (headers, broken)) d =
    eliminate_depricated now retention agent_id headers (handle_broken_sessions broken d)

unfoldable pub clean_agent : ℕ → ℕ → String → SessionDisk → SessionDisk
unfolding clean_read
clean_agent now retention agent_id d =
    clean_read now retention agent_id (session_headers d agent_id) d

unfoldable pub clean_agents : ℕ → ℕ → List String → SessionDisk → SessionDisk
unfolding clean_agent
clean_agents now retention [] d = d
clean_agents now retention (agent_id ∷ agents) d =
    clean_agents now retention agents (clean_agent now retention agent_id d)

-- Clean, given what the repository of the agents returned.
unfoldable pub clean : ℕ → ℕ → Result (List String) → SessionDisk → Option Error × SessionDisk
unfolding clean_agents
clean now retention (err e) d = (some e, d)
clean now retention (ok agents) d = (none, clean_agents now retention agents d)

-- Hours, as time.Duration counts nanoseconds.
abbrev pub hours : ℕ → ℕ
hours n = n * 3_600_000_000_000

abbrev pub min_sess_retention : ℕ
min_sess_retention = hours 10

abbrev pub min_clean_up_interval : ℕ
min_clean_up_interval = hours 5

pub record CleanUpConfig : Type 0 where
  pub sess_retention : ℕ
  pub max_log_lines : ℕ
  pub clean_up_interval : ℕ

-- NewCleanUpService: the configuration that it keeps.
unfoldable pub new_clean_up_service : CleanUpConfig → Result CleanUpConfig
new_clean_up_service cfg =
    if ltb cfg.sess_retention min_sess_retention
    then err (text "too short session retention, must be greather than 24h")
    else if ltb cfg.clean_up_interval min_clean_up_interval
    then err (text "too short cleanup interval, must be greather than 5h")
    else ok cfg
