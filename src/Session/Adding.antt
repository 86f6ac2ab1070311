-- ===== src/Session/Adding.antt =====
-- AddMessages of internal/session/session.go: adding to a session is collapsing the whole.
use arch_agent.Base.{
  List, [], ◌∷◌, ◌++◌, ◌≡◌, refl, ap, sym, ◌∙◌, append-nil, append_assoc, arith, inl, inr,
}
use arch_agent.Agent.Message.{Message}
use arch_agent.Agent.Merge.{merge_matched_pair, collapse_matched}
use arch_agent.Agent.Merge.Reference.{
  Result-cases, push_result, push_front, push_front-refused, collapse, Refuses-push_front,
  push_front-push_front, IsCollapsed, collapse_matched-eq-collapse, collapse_matched-IsCollapsed,
  collapse-IsCollapsed,
}
use arch_agent.Session.{Session, splice, add_messages}

splice-push_front : (m : Message) (zs : List Message) → splice (m ∷ []) zs ≡ push_front m zs
unfolding splice push_front
splice-push_front m [] = refl
splice-push_front m (z ∷ zs) = ground arith

splice-collapse :
    (ms new : List Message) → IsCollapsed ms → splice ms (collapse new) ≡ collapse (ms ++ new)
unfolding splice collapse
splice-collapse [] new c = refl
splice-collapse (m ∷ []) new c = splice-push_front m (collapse new)
splice-collapse (m ∷ n ∷ ms) new c =
    ap (◌∷◌ m) (splice-collapse (n ∷ ms) new c.1)
    ∙ sym (
        push_front-refused m (collapse ((n ∷ ms) ++ new))
          (Refuses-push_front m n (collapse (ms ++ new)) c.0))

-- Adding messages to a session whose neighbours cannot be merged gives what CollapseMatched makes
-- of the old and the new messages in a row, and changes no other field of the session.
pub add_messages-collapse :
    (s : Session) (new : List Message)
    → IsCollapsed s.messages
    → add_messages s new ≡ record s { messages = collapse_matched (s.messages ++ new) }
unfolding add_messages
add_messages-collapse s [] c =
    rw (append-nil, collapse_matched-eq-collapse, collapse-IsCollapsed s.messages c)
add_messages-collapse s (m ∷ ms) c =
    rw (collapse_matched-eq-collapse (m ∷ ms), splice-collapse s.messages (m ∷ ms) c)
      (rw collapse_matched-eq-collapse)

-- If no two neighbours of a session can be merged, none can after messages were added.
pub add_messages-IsCollapsed :
    (s : Session) (new : List Message)
    → IsCollapsed s.messages
    → IsCollapsed (add_messages s new).messages
add_messages-IsCollapsed s new c =
    rw (add_messages-collapse s new c) (collapse_matched-IsCollapsed (s.messages ++ new))

collapse-push_front-append :
    (m : Message) (ws ys : List Message)
    → collapse (push_front m ws ++ ys) ≡ push_front m (collapse (ws ++ ys))
unfolding collapse push_front
collapse-push_front-append m [] ys = refl
collapse-push_front-append m (w ∷ ws) ys = elim (Result-cases (merge_matched_pair m w)) [
  | inl (n, e) ↦ rw (e, push_result) (sym (push_front-push_front m w n (collapse (ws ++ ys)) e))
  | inr (x, e) ↦ rw (e, push_result)
]

collapse-collapse-append :
    (xs ys : List Message) → collapse (collapse xs ++ ys) ≡ collapse (xs ++ ys)
unfolding collapse
collapse-collapse-append [] ys = refl
collapse-collapse-append (x ∷ xs) ys =
    collapse-push_front-append x (collapse xs) ys
    ∙ ap (push_front x) (collapse-collapse-append xs ys)

-- Adding two groups of messages one after the other is adding them at once, for a session whose
-- neighbours cannot be merged.
pub add_messages-add_messages :
    (s : Session) (xs ys : List Message)
    → IsCollapsed s.messages
    → add_messages (add_messages s xs) ys ≡ add_messages s (xs ++ ys)
add_messages-add_messages s xs ys c =
    add_messages-collapse (add_messages s xs) ys (add_messages-IsCollapsed s xs c)
    ∙ rw (add_messages-collapse s xs c, add_messages-collapse s (xs ++ ys) c)
        (simp (collapse_matched-eq-collapse, collapse-collapse-append, append_assoc))
