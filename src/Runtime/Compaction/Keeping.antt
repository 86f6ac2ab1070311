-- ===== src/Runtime/Compaction/Keeping.antt =====
-- doCompact of internal/runtime/compaction.go: what a compacted context keeps of the old one.
use arch_agent.Base.{
  append_assoc, sym, subst, ◌+◌, ◌≤◌, ◌<◌, String, Bool, true, false, some, List, [], ◌∷◌, ◌++◌,
  ◌≡◌, refl, arith, Bool-cases, inl, inr, leb, length, drop, length-drop, length-append, ap, ◌∙◌,
}
use arch_agent.Errors.{Result, ok, err}
use arch_agent.Agent.{Completion, new_content}
use arch_agent.Agent.Message.{
  Message, user_message, agent_message, tool_result_message, system_message, role, content,
  set_content, tool_calls,
}
use arch_agent.Agent.Merge.Content.{answered, gather}
use arch_agent.Runtime.{Model, Prompts}
use arch_agent.Runtime.Event.{Event}
use arch_agent.Runtime.Compaction.{
  compaction, finish_compaction, compaction_count, role_safe_pushback, split_system, Compacted,
  compacted, not_compacted, compaction_panics, assemble, compact, do_compact,
}
use arch_agent.Base.{◌-◌}

abbrev pub is_panic : Compacted → Bool
is_panic compaction_panics = true
is_panic _ = false

-- The messages that are not summarized.
abbrev pub tail_of : List Message → List Message
tail_of msgs = let rest = (split_system msgs).1 in drop (compaction_count (length rest)) rest

-- A context is kept from `tail` if it has the calls and the answers of `tail`, and of no other
-- message, and is longer by one message at most.
abbrev pub KeepsTail : List Message → List Message → List Message → Type 0
KeepsTail pre tail ms =
    (gather tool_calls ms ≡ gather tool_calls tail)
    × (gather answered ms ≡ gather answered tail)
    × (length pre + length tail ≤ length ms)
    × (length ms ≤ length pre + length tail + 1)

pushback-keeps :
    (tail : List Message) (s : String)
    → 0 < length tail
    → (ms : List Message) × (role_safe_pushback tail (user_message (new_content s)) ≡ some ms)
      × KeepsTail [] tail ms
unfolding role_safe_pushback role content set_content tool_calls
pushback-keeps [] s h = absurd (omega arith)
pushback-keeps (user_message c ∷ rest) s h =
    (user_message (c ++ new_content s) ∷ rest, refl, (refl, refl, omega arith, omega arith))
pushback-keeps (agent_message c calls ∷ rest) s h = (
  user_message (new_content s) ∷ agent_message c calls ∷ rest,
  refl,
  (refl, refl, omega arith, omega arith),
)
pushback-keeps (tool_result_message i c ∷ rest) s h = (
  user_message (new_content s) ∷ tool_result_message i c ∷ rest,
  refl,
  (refl, refl, omega arith, omega arith),
)
pushback-keeps (system_message c ∷ rest) s h = (
  user_message (new_content s) ∷ system_message c ∷ rest,
  refl,
  (refl, refl, omega arith, omega arith),
)

split_system-lem :
    (msgs : List Message)
    → ((split_system msgs).0 ++ (split_system msgs).1 ≡ msgs)
      × (gather tool_calls (split_system msgs).0 ≡ [])
      × (gather answered (split_system msgs).0 ≡ [])
      × (length (split_system msgs).0 ≤ 1)
unfolding tool_calls
split_system-lem [] = (refl, refl, refl, omega arith)
split_system-lem (user_message c ∷ ms) = (refl, refl, refl, omega arith)
split_system-lem (agent_message c calls ∷ ms) = (refl, refl, refl, omega arith)
split_system-lem (tool_result_message i c ∷ ms) = (refl, refl, refl, omega arith)
split_system-lem (system_message c ∷ ms) = (refl, refl, refl, omega arith)

tail_pos : (msgs : List Message) → leb (length msgs) 1 ≡ false → 0 < length (tail_of msgs)
tail_pos msgs h = ground (
  arith,
  split_system-lem msgs,
  ap length (split_system-lem msgs).0,
  length-append (split_system msgs).0 (split_system msgs).1,
  length-drop (compaction_count (length (split_system msgs).1)) (split_system msgs).1,
)

gather-append :
    {A : Type 0} (f : Message → List A) (xs ys : List Message)
    → gather f (xs ++ ys) ≡ gather f xs ++ gather f ys
gather-append f [] ys = refl
gather-append f (x ∷ xs) ys =
    ap (◌++◌ (f x)) (gather-append f xs ys) ∙ sym (append_assoc (f x) (gather f xs) (gather f ys))

-- The system message stays in front, nothing panics, and the event carries the same context.
abbrev pub Kept : List Message → Compacted → Type 0
Kept msgs (compacted ms ev) =
    KeepsTail (split_system msgs).0 (tail_of msgs) ms
    × ((rest : List Message) × (ms ≡ (split_system msgs).0 ++ rest))
    × ((summary : String) × (ev ≡ compaction summary ms))
Kept msgs (not_compacted e) = Unit
Kept msgs compaction_panics = ⊥

prepend-KeepsTail :
    (pre tail ms : List Message)
    → gather tool_calls pre ≡ []
    → gather answered pre ≡ []
    → KeepsTail [] tail ms
    → KeepsTail pre tail (pre ++ ms)
prepend-KeepsTail pre tail ms c a k = (
  gather-append tool_calls pre ms ∙ rw c k.0,
  gather-append answered pre ms ∙ rw a k.1,
  omega (arith, k, length-append pre ms),
  omega (arith, k, length-append pre ms),
)

module _ (prompts : Prompts) where
  assemble-Kept :
      (msgs : List Message) (completion : Completion)
      → leb (length msgs) 1 ≡ false
      → Kept msgs (assemble prompts (split_system msgs).0 (tail_of msgs) completion)
  unfolding assemble
  assemble-Kept msgs completion h =
      let (ms, e, k) =
        pushback-keeps (tail_of msgs) (prompts.summary_explanation completion.content)
          (tail_pos msgs h) in
      let (_, c, a, _) = split_system-lem msgs in
      rw (e, assemble) (prepend-KeepsTail _ _ ms c a k, (ms, refl), (completion.content, refl))

  compact-Kept :
      {W : Type 0} (msgs : List Message) (r : Result Completion) (w : W)
      → leb (length msgs) 1 ≡ false
      → Kept msgs (finish_compaction prompts (split_system msgs).0 (tail_of msgs) r w).0
  unfolding finish_compaction
  compact-Kept msgs (ok completion) w h = assemble-Kept msgs completion h
  compact-Kept msgs (err e) w h = tt

  pub do_compact-Kept :
      {W : Type 0} (model : Model W) (msgs : List Message) (w : W)
      → Kept msgs (do_compact prompts model msgs w).0
  unfolding do_compact compact
  do_compact-Kept model msgs w = elim (Bool-cases (leb (length msgs) 1)) [
    | inl y ↦ rw y tt
    | inr n ↦ rw n (compact-Kept msgs _ _ n)
  ]

  -- The lengths before and after.
  kept_lengths :
      {W : Type 0} (model : Model W) (msgs ms : List Message) (ev : Event) (w : W)
      → (do_compact prompts model msgs w).0 ≡ compacted ms ev
      → let n = length (split_system msgs).1 in
        (length msgs + (n - compaction_count n) ≤ length ms + n)
        × (length ms + n ≤ length msgs + (n - compaction_count n) + 1)
  kept_lengths model msgs ms ev w h =
      let k : Kept msgs (compacted ms ev) = subst (Kept msgs) h (do_compact-Kept model msgs w) in
      let a = ap length (split_system-lem msgs).0 in
      let b = length-append (split_system msgs).0 (split_system msgs).1 in
      let d = length-drop (compaction_count (length (split_system msgs).1)) (split_system msgs).1 in
      (omega (arith, k.0), omega (arith, k.0))

  -- Of three messages or more behind the system message, compaction leaves a shorter context.
  pub length-do_compact :
      {W : Type 0} (model : Model W) (msgs ms : List Message) (ev : Event) (w : W)
      → (do_compact prompts model msgs w).0 ≡ compacted ms ev
      → 3 ≤ length (split_system msgs).1
      → length ms < length msgs
  length-do_compact model msgs ms ev w h many =
      let k = kept_lengths model msgs ms ev w h in omega arith

  -- Of a single message behind the system message, compaction never leaves a shorter context.
  pub single_message-do_compact :
      {W : Type 0} (model : Model W) (msgs ms : List Message) (ev : Event) (w : W)
      → (do_compact prompts model msgs w).0 ≡ compacted ms ev
      → length (split_system msgs).1 ≡ 1
      → length msgs ≤ length ms
  single_message-do_compact model msgs ms ev w h single =
      let k = kept_lengths model msgs ms ev w h in omega (arith, single)
