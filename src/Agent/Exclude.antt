-- ===== src/Agent/Exclude.antt =====
-- ExcludeToolCallsData of agent/message.go.
use arch_agent.Base.{
  String, Bool, true, false, not, ◌||◌, List, [], ◌∷◌, ◌++◌, ◌≡◌, refl, arith, keep_if,
  if◌then◌else◌,
}
use arch_agent.Base.Keys.{◌==◌, string_eq}
use arch_agent.Agent.{ToolCall}
use arch_agent.Agent.Message.{Message, tool_result_message, tool_calls}
use arch_agent.Agent.Message.{agent_message, system_message, user_message}
use arch_agent.Base.{ap, ◌&&◌}

-- A set of texts: `_, found := set[k]`.
unfoldable pub contains : List String → String → Bool
contains [] k = false
contains (x ∷ xs) k = x == k || contains xs k

abbrev pub ids_of : List String → List ToolCall → List String
ids_of names [] = []
ids_of names (tc ∷ calls) =
    let rest = ids_of names calls in if contains names tc.tool_name then tc.id ∷ rest else rest

-- The first loop: the ids of the calls of the named tools.
unfoldable pub elimination_calls_id : List String → List Message → List String
elimination_calls_id names [] = []
elimination_calls_id names (m ∷ ms) = ids_of names (tool_calls m) ++ elimination_calls_id names ms

unfoldable pub is_eliminated : List String → Message → Bool
is_eliminated ids (tool_result_message call_id c) = contains ids call_id
is_eliminated ids _ = false

unfoldable pub exclude_tool_calls_data : List String → List Message → List Message
exclude_tool_calls_data names msgs =
    keep_if (λ m. not (is_eliminated (elimination_calls_id names msgs) m)) msgs

-- Some message has a call of this id to one of the named tools.
abbrev pub names_tool : List String → String → Bool
names_tool [] t = false
names_tool (n ∷ names) t = (n == t) || names_tool names t

abbrev pub calls_named : List String → String → List ToolCall → Bool
calls_named names id [] = false
calls_named names id (tc ∷ calls) =
    ((tc.id == id) && names_tool names tc.tool_name) || calls_named names id calls

abbrev pub is_called : List String → String → List Message → Bool
is_called names id [] = false
is_called names id (m ∷ ms) = calls_named names id (tool_calls m) || is_called names id ms

-- What is to stay of a conversation: all but the results of calls of the named tools.
abbrev pub stays : List String → List Message → Message → Bool
stays names msgs (tool_result_message call_id c) = not (is_called names call_id msgs)
stays names msgs (user_message c) = true
stays names msgs (system_message c) = true
stays names msgs (agent_message c calls) = true

contains-names : (names : List String) (t : String) → contains names t ≡ names_tool names t
unfolding contains
contains-names [] t = refl
contains-names (n ∷ names) t = ground (arith, contains-names names t)

contains-append :
    (xs ys : List String) (k : String) → contains (xs ++ ys) k ≡ (contains xs k || contains ys k)
unfolding contains
contains-append [] ys k = refl
contains-append (x ∷ xs) ys k = ground (arith, contains-append xs ys k)

ids_of-contains :
    (names : List String) (id : String) (calls : List ToolCall)
    → contains (ids_of names calls) id ≡ calls_named names id calls
unfolding contains
ids_of-contains names id [] = refl
ids_of-contains names id (tc ∷ calls) =
    ground (arith, contains-names names tc.tool_name, ids_of-contains names id calls)

elimination_calls_id-contains :
    (names : List String) (id : String) (msgs : List Message)
    → contains (elimination_calls_id names msgs) id ≡ is_called names id msgs
unfolding elimination_calls_id contains
elimination_calls_id-contains names id [] = refl
elimination_calls_id-contains names id (m ∷ ms) = ground (
  arith,
  contains-append (ids_of names (tool_calls m)) (elimination_calls_id names ms) id,
  ids_of-contains names id (tool_calls m),
  elimination_calls_id-contains names id ms,
)

is_eliminated-stays :
    (names : List String) (msgs : List Message) (m : Message)
    → not (is_eliminated (elimination_calls_id names msgs) m) ≡ stays names msgs m
unfolding is_eliminated
is_eliminated-stays names msgs (tool_result_message call_id c) =
    ap not (elimination_calls_id-contains names call_id msgs)
is_eliminated-stays names msgs (user_message c) = refl
is_eliminated-stays names msgs (system_message c) = refl
is_eliminated-stays names msgs (agent_message c calls) = refl

keep_if-same {ℓ} :
    {A : Type ℓ} (p q : A → Bool) (xs : List A)
    → ((x : A) → p x ≡ q x)
    → keep_if p xs ≡ keep_if q xs
keep_if-same p q [] h = refl
keep_if-same p q (x ∷ xs) h = ground (arith, h x, keep_if-same p q xs h)

-- ExcludeToolCallsData leaves exactly the messages, in their order, that are no tool result, or the
-- result of a call under whose id no message calls one of the named tools.
pub exclude_tool_calls_data-lem :
    (names : List String) (msgs : List Message)
    → exclude_tool_calls_data names msgs ≡ keep_if (stays names msgs) msgs
unfolding exclude_tool_calls_data
exclude_tool_calls_data-lem names msgs =
    keep_if-same _ (stays names msgs) msgs (is_eliminated-stays names msgs)
