-- ===== src/Agent/Merge/Content.antt =====
-- What CollapseMatched of agent/message.go keeps: every part of the content with its role, every
-- tool call and every answered call id, in their order.
use arch_agent.Base.{String, List, [], ◌∷◌, ◌++◌, ◌≡◌, refl, ap, ◌∙◌, append_assoc, arith, inl, inr}
use arch_agent.Errors.{ok}
use arch_agent.Agent.{ContentPart}
use arch_agent.Agent.Message.{
  Role, user, agent, system, Message, user_message, agent_message, tool_result_message,
  system_message, role, content, tool_calls,
}
use arch_agent.Agent.Merge.{merge_matched_pair, collapse_matched}
use arch_agent.Agent.Merge.Reference.{
  Result-cases, push_result, push_front, collapse, collapse_matched-eq-collapse,
}

-- One view of a message: the parts that it says, and under which role.
abbrev pub tag : Role → List ContentPart → List (Role × ContentPart)
tag r [] = []
tag r (p ∷ ps) = (r, p) ∷ tag r ps

abbrev pub said : Message → List (Role × ContentPart)
said m = tag (role m) (content m)

abbrev pub answered : Message → List String
answered (tool_result_message call_id c) = call_id ∷ []
answered _ = []

abbrev pub gather {ℓ} : {A : Type ℓ} → (Message → List A) → List Message → List A
gather f [] = []
gather f (m ∷ ms) = f m ++ gather f ms

-- A view that merging a pair joins.
abbrev pub Joins {ℓ} : {A : Type ℓ} → (Message → List A) → Type ℓ
Joins f = (a b m : Message) → merge_matched_pair a b ≡ ok m → f m ≡ f a ++ f b

module _ {ℓ} {A : Type ℓ} (f : Message → List A) (joins : Joins f) where
  gather-push_front :
      (m : Message) (zs : List Message) → gather f (push_front m zs) ≡ f m ++ gather f zs
  unfolding push_front
  gather-push_front m [] = refl
  gather-push_front m (z ∷ zs) = elim (Result-cases (merge_matched_pair m z)) [
    | inl (n, e) ↦
        rw (e, push_result)
          (ap (λ l. l ++ gather f zs) (joins m z n e) ∙ append_assoc (f m) (f z) (gather f zs))
    | inr (x, e) ↦ rw (e, push_result)
  ]

  gather-collapse : (ms : List Message) → gather f (collapse ms) ≡ gather f ms
  unfolding collapse
  gather-collapse [] = refl
  gather-collapse (m ∷ ms) =
      gather-push_front m (collapse ms) ∙ ap (◌++◌ (f m)) (gather-collapse ms)

  gather-collapse_matched : (ms : List Message) → gather f (collapse_matched ms) ≡ gather f ms
  gather-collapse_matched ms = ap (gather f) (collapse_matched-eq-collapse ms) ∙ gather-collapse ms

tag-append : (r : Role) (a b : List ContentPart) → tag r (a ++ b) ≡ tag r a ++ tag r b
tag-append r [] b = refl
tag-append r (p ∷ a) b = ap (◌∷◌ (r, p)) (tag-append r a b)

said-Joins : Joins said
unfolding merge_matched_pair role content
said-Joins (user_message a) (user_message b) m h = ground (arith, tag-append user a b)
said-Joins (agent_message a p) (agent_message b q) m h = ground (arith, tag-append agent a b)
said-Joins (system_message a) (system_message b) m h = ground (arith, tag-append system a b)
said-Joins _ _ m h = ground arith

calls-Joins : Joins tool_calls
unfolding merge_matched_pair tool_calls
calls-Joins a b m h = ground arith

answered-Joins : Joins answered
unfolding merge_matched_pair
answered-Joins a b m h = ground arith

-- CollapseMatched keeps all that the messages hold: the sequence of content parts, each with the
-- role that said it, the sequence of tool calls, and the sequence of the answered call ids.
pub collapse_matched-content :
    (ms : List Message)
    → (gather said (collapse_matched ms) ≡ gather said ms)
      × (gather tool_calls (collapse_matched ms) ≡ gather tool_calls ms)
      × (gather answered (collapse_matched ms) ≡ gather answered ms)
collapse_matched-content ms = (
  gather-collapse_matched said said-Joins ms,
  gather-collapse_matched tool_calls calls-Joins ms,
  gather-collapse_matched answered answered-Joins ms,
)
