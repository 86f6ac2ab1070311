-- ===== src/Runtime/Compaction.antt =====
-- internal/runtime/compaction.go. `int(float32(n) * 0.7)` is n * 7 / 10 and
-- `int64(float64(limit) * 0.9)` is limit * 9 / 10: with Go's rounding the two agree for every
-- n < 2^20 and every limit < 2^49, and a context is far shorter than that.
pub mod Keeping
use arch_agent.Base.{
  ℕ, zero, suc, ◌+◌, ◌*◌, ◌/◌, String, Bool, true, false, Option, none, some, List, [], ◌∷◌, ◌++◌,
  leb, if◌then◌else◌, length, take, drop,
}
use arch_agent.Base.Int.{ℤ, pos, negsuc}
use arch_agent.Errors.{Error, Result, ok, err, text}
use arch_agent.Agent.{ContentPart, Completion, new_content}
use arch_agent.Agent.Message.{
  Message, user_message, agent_message, tool_result_message, system_message, role, role_eq, content,
  set_content, stringify_conversation,
}
use arch_agent.Runtime.{Model, Prompts}
use arch_agent.Runtime.Event.{Event, compaction}

abbrev pub default_context_limit : ℕ
default_context_limit = 100_000

-- A limit that is not positive stands for the default one.
unfoldable pub resolve_limit : ℤ → ℕ
resolve_limit (pos zero) = default_context_limit
resolve_limit (pos (suc n)) = suc n
resolve_limit (negsuc n) = default_context_limit

unfoldable pub should_compact : ℕ → ℕ → ℤ → Bool
unfolding resolve_limit
should_compact input output limit = leb (resolve_limit limit * 9 / 10) (input + output)

abbrev pub compaction_count : ℕ → ℕ
compaction_count n = n * 7 / 10

-- `messages[0]` of no messages panics: `none`.
unfoldable pub role_safe_pushback : List Message → Message → Option (List Message)
role_safe_pushback [] new = none
role_safe_pushback (first ∷ rest) new =
    if role_eq (role first) (role new)
    then some (set_content first (content first ++ content new) ∷ rest)
    else some (new ∷ first ∷ rest)

-- The system message in front, if the first message is one, and the messages behind it.
abbrev pub split_system : List Message → List Message × List Message
split_system (system_message c ∷ ms) = (system_message c ∷ [], ms)
split_system ms = ([], ms)

-- `compacted` is the new context with the event that announces it.
pub data Compacted : Type 0 where
  compacted : List Message → Event → Compacted
  not_compacted : Error → Compacted
  compaction_panics : Compacted

module _ (prompts : Prompts) where
  -- What is done with the summary.
  unfoldable pub assemble : List Message → List Message → Completion → Compacted
  unfolding role_safe_pushback
  assemble pre tail completion =
      let summary = user_message (new_content (prompts.summary_explanation completion.content)) in
      elim (role_safe_pushback tail summary) [
        | none ↦ compaction_panics
        | some ms ↦ compacted (pre ++ ms) (compaction completion.content (pre ++ ms))
      ]

  -- The context that the summary is asked for with.
  unfoldable pub compaction_context : List Message → List Message
  compaction_context candidates =
      system_message (new_content prompts.compaction)
      ∷ user_message (new_content (stringify_conversation candidates))
      ∷ []

module _ {W : Type 0} (prompts : Prompts) where
  -- What is done with the answer of the model.
  unfoldable pub finish_compaction :
      List Message → List Message → Result Completion → W → Compacted × W
  unfolding assemble
  finish_compaction pre tail (err e) w = (not_compacted e, w)
  finish_compaction pre tail (ok completion) w = (assemble prompts pre tail completion, w)

  unfoldable pub compact : Model W → List Message → List Message → W → Compacted × W
  unfolding finish_compaction compaction_context
  compact model pre msgs w =
      let divide = compaction_count (length msgs) in
      let (r, w') = model.complete [] (compaction_context prompts (take divide msgs)) w in
      finish_compaction pre (drop divide msgs) r w'

  unfoldable pub do_compact : Model W → List Message → W → Compacted × W
  unfolding compact
  do_compact model msgs w =
      let (pre, rest) = split_system msgs in
      if leb (length msgs) 1
      then (not_compacted (text "must be at least one message"), w)
      else compact model pre rest w
