-- ===== src/Agent/Merge/Reference.antt =====
-- CollapseMatched against a definition from the right, with no accumulator.
use arch_agent.Base.{
  Bool, true, false, List, [], ◌∷◌, ◌++◌, ◌≡◌, refl, ◌∙◌, ap, sym, arith, append_assoc, ◌⊎◌, inl,
  inr,
}
use arch_agent.Errors.{Result, ok, err, Error}
use arch_agent.Agent.Message.{Message, user_message, agent_message, system_message}
use arch_agent.Agent.Merge.{merge_matched_pair, collapse_loop, collapse_matched}

abbrev pub is_ok {ℓ} : {A : Type ℓ} → Result A → Bool
is_ok (ok a) = true
is_ok (err e) = false

abbrev pub push_result : Message → Message → List Message → Result Message → List Message
push_result m h t (ok merged) = merged ∷ t
push_result m h t (err e) = m ∷ h ∷ t

-- A message in front of a list, merged with the first one if the pair can be merged.
unfoldable pub push_front : Message → List Message → List Message
push_front m [] = m ∷ []
push_front m (h ∷ t) = push_result m h t (merge_matched_pair m h)

unfoldable pub collapse : List Message → List Message
collapse [] = []
collapse (m ∷ ms) = push_front m (collapse ms)

-- No two neighbours can be merged.
abbrev pub IsCollapsed : List Message → Type 0
IsCollapsed [] = Unit
IsCollapsed (m ∷ []) = Unit
IsCollapsed (m ∷ n ∷ ms) = (is_ok (merge_matched_pair m n) ≡ false) × IsCollapsed (n ∷ ms)

-- A merged message can be merged with what its second part can be merged with.
pub merge_matched_pair-left :
    (a b c m : Message)
    → merge_matched_pair a b ≡ ok m
    → is_ok (merge_matched_pair m c) ≡ is_ok (merge_matched_pair b c)
unfolding merge_matched_pair
merge_matched_pair-left a b c m h = ground arith

pub merge_matched_pair-right :
    (a b c m : Message)
    → merge_matched_pair b c ≡ ok m
    → is_ok (merge_matched_pair a m) ≡ is_ok (merge_matched_pair a b)
unfolding merge_matched_pair
merge_matched_pair-right a b c m h = ground arith

pub merge_matched_pair_assoc :
    (a b c m n : Message)
    → merge_matched_pair a b ≡ ok m
    → merge_matched_pair b c ≡ ok n
    → merge_matched_pair m c ≡ merge_matched_pair a n
unfolding merge_matched_pair
merge_matched_pair_assoc (user_message a) (user_message b) (user_message c) m n h k =
    ground (arith, append_assoc a b c)
merge_matched_pair_assoc (agent_message a p) (agent_message b q) (agent_message c r) m n h k =
    ground (arith, append_assoc a b c, append_assoc p q r)
merge_matched_pair_assoc (system_message a) (system_message b) (system_message c) m n h k =
    ground (arith, append_assoc a b c)
merge_matched_pair_assoc _ _ _ m n h k = ground arith

pub Result-cases {ℓ} :
    {A : Type ℓ} (r : Result A) → ((a : A) × (r ≡ ok a)) ⊎ ((e : Error) × (r ≡ err e))
Result-cases (ok a) = inl (a, refl)
Result-cases (err e) = inr (e, refl)

-- The first message of a list, if it has one, cannot be merged behind `m`.
abbrev pub Refuses : Message → List Message → Type 0
Refuses m [] = Unit
Refuses m (h ∷ t) = is_ok (merge_matched_pair m h) ≡ false

pub push_front-refused : (m : Message) (zs : List Message) → Refuses m zs → push_front m zs ≡ m ∷ zs
unfolding push_front
push_front-refused m [] h = refl
push_front-refused m (z ∷ zs) h = ground arith

pub Refuses-push_front :
    (a b : Message) (zs : List Message)
    → is_ok (merge_matched_pair a b) ≡ false
    → Refuses a (push_front b zs)
unfolding push_front
Refuses-push_front a b [] h = h
Refuses-push_front a b (z ∷ zs) h = elim (Result-cases (merge_matched_pair b z)) [
  | inl (m, e) ↦ rw (e, push_result) (merge_matched_pair-right a b z m e ∙ h)
  | inr (x, e) ↦ rw (e, push_result) h
]

-- Two messages that merge act on a list one after the other as the merged one does at once.
pub push_front-push_front :
    (a b m : Message) (zs : List Message)
    → merge_matched_pair a b ≡ ok m
    → push_front a (push_front b zs) ≡ push_front m zs
unfolding push_front
push_front-push_front a b m [] h = rw (h, push_result)
push_front-push_front a b m (z ∷ zs) h = elim (Result-cases (merge_matched_pair b z)) [
  | inl (n, e) ↦
      ground (arith, merge_matched_pair_assoc a b z m n h e, merge_matched_pair-right a b z n e)
  | inr (x, e) ↦ ground (arith, merge_matched_pair-left a b z m h)
]

IsCollapsed-push_front :
    (m : Message) (zs : List Message) → IsCollapsed zs → IsCollapsed (push_front m zs)
unfolding push_front
IsCollapsed-push_front m [] c = tt
IsCollapsed-push_front m (z ∷ []) c = ground arith
IsCollapsed-push_front m (z ∷ y ∷ zs) c = elim (Result-cases (merge_matched_pair m z)) [
  | inl (n, e) ↦ rw (e, push_result) (merge_matched_pair-left m z y n e ∙ c.0, c.1)
  | inr (x, e) ↦ rw (e, push_result) (rw e, c)
]

pub IsCollapsed-collapse : (ms : List Message) → IsCollapsed (collapse ms)
unfolding collapse
IsCollapsed-collapse [] = tt
IsCollapsed-collapse (m ∷ ms) = IsCollapsed-push_front m (collapse ms) (IsCollapsed-collapse ms)

collapse_loop-eq :
    (front : List Message) (last : Message) (rest : List Message)
    → collapse_loop front last rest ≡ front ++ push_front last (collapse rest)
unfolding collapse_loop collapse
collapse_loop-eq front last [] = unfold push_front in refl
collapse_loop-eq front last (next ∷ rest) = elim (Result-cases (merge_matched_pair last next)) [
  | inl (m, e) ↦
      rw (e, collapse_loop)
        (collapse_loop-eq front m rest
          ∙ ap (◌++◌ front) (sym (push_front-push_front last next m (collapse rest) e)))
  | inr (x, e) ↦
      rw (e, collapse_loop)
        (collapse_loop-eq (front ++ last ∷ []) next rest
          ∙ append_assoc front (last ∷ []) (push_front next (collapse rest))
          ∙ ap (◌++◌ front) (
              sym (
                push_front-refused last (push_front next (collapse rest))
                  (Refuses-push_front last next (collapse rest) (rw e)))))
]

-- CollapseMatched, which walks the messages once with its last merged message in hand, computes
-- the list that is built from the right by merging each message with the one behind it.
pub collapse_matched-eq-collapse : (ms : List Message) → collapse_matched ms ≡ collapse ms
unfolding collapse_matched collapse
collapse_matched-eq-collapse [] = refl
collapse_matched-eq-collapse (m ∷ ms) = collapse_loop-eq [] m ms

-- No two neighbours of what CollapseMatched returns can be merged.
pub collapse_matched-IsCollapsed : (ms : List Message) → IsCollapsed (collapse_matched ms)
collapse_matched-IsCollapsed ms = rw (collapse_matched-eq-collapse ms) (IsCollapsed-collapse ms)

pub collapse-IsCollapsed : (ms : List Message) → IsCollapsed ms → collapse ms ≡ ms
unfolding collapse
collapse-IsCollapsed [] c = refl
collapse-IsCollapsed (m ∷ []) c = unfold push_front in refl
collapse-IsCollapsed (m ∷ n ∷ ms) c =
    ap (push_front m) (collapse-IsCollapsed (n ∷ ms) c.1) ∙ push_front-refused m (n ∷ ms) c.0
