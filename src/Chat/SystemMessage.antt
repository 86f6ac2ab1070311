-- ===== src/Chat/SystemMessage.antt =====
-- internal/chat/context_assembler.go: the system message of a conversation is put together from
-- parts and cached for half an hour since its last use. The methods of the cache hold its mutex. The
-- time of a call is an argument, and a timer that is due has fired.
pub mod Caching
use arch_agent.Agent.{Agent}
use arch_agent.Base.{
  List, Option, String, [], concat, if◌then◌else◌, join, ltb, none, some, ℕ, ◌++◌, ◌+◌, ◌∷◌,
}
use arch_agent.Base.Dict.{Dict, delete, insert, lookup}
use arch_agent.Base.Keys.{string_eq, pair_eq, ◌==◌}
use arch_agent.Chat.{ToolServer}
use arch_agent.Chat.Dispatcher.{SessionKey}
use arch_agent.Errors.{Result, err, ok, text, wrap, ◌>>=◌, ◌>>◌}
use arch_agent.Session.{Extra, Session, a_string, of_type}

-- cacheLifeTime, in seconds.
abbrev pub cache_life_time : ℕ
cache_life_time = 1800

-- `messages` and `deleteTimers`, which have the same keys: the text, and when its timer fires.
abbrev pub Cache : Type 0
Cache = Dict SessionKey (String × ℕ)

-- Put. It stops the old timer, and sets a new one.
unfoldable pub put : ℕ → SessionKey → String → Cache → Cache
put now key message c = insert key (message, now + cache_life_time) (delete key c)

-- What the timers have left of an entry.
unfoldable pub alive : ℕ → Option (String × ℕ) → Option String
alive now none = none
alive now (some (message, deadline)) = if ltb now deadline then some message else none

unfoldable pub cached : ℕ → SessionKey → Cache → Option String
unfolding alive
cached now key c = alive now (lookup key c)

-- Get, which starts the timer of the entry anew.
abbrev pub touched : ℕ → SessionKey → Cache → Option String → Option String × Cache
touched now key c none = (none, c)
touched now key c (some message) = (some message, insert key (message, now + cache_life_time) c)

unfoldable pub get_cached : ℕ → SessionKey → Cache → Option String × Cache
unfolding cached
get_cached now key c = touched now key c (cached now key c)

-- The texts of the package prompt, and the two repositories. Skills returns what it found beside an
-- error, which is logged.
pub record Sources : Type 0 where
  pub default_agent : String
  pub persistent_memory : String → String → String → String
  pub skill_guidance : String → String
  pub tool_usage_guide : String
  pub skills : String → Dict String String
  pub memory_index : String → Result (Dict String String)

unfoldable pub agent_part : Sources → Agent → String
agent_part src agt = if agt.system_prompt == "" then src.default_agent else agt.system_prompt

abbrev pub index_text : Dict String String → String
index_text [] = ""
index_text ((k, v) ∷ m) = concat ("- (" ∷ k ∷ ") " ∷ v ∷ "\n" ∷ index_text m ∷ [])

abbrev pub guided : (String → String) → Dict String String → String
guided guide [] = ""
guided guide (entry ∷ m) = guide (index_text (entry ∷ m))

unfoldable pub memory_part : Sources → String → Result String
memory_part src agent_id = elim (src.memory_index agent_id) [
  | err e ↦ err (wrap (concat ("agent " ∷ agent_id ∷ " memory index is not reached" ∷ [])) e)
  | ok idx ↦ ok (guided (λ index. src.persistent_memory agent_id index "") idx)
]

unfoldable pub skill_part : Sources → String → String
skill_part src agent_id = guided src.skill_guidance (src.skills agent_id)

abbrev pub maybe_one {ℓ} : {A : Type ℓ} → Option A → List A
maybe_one none = []
maybe_one (some a) = a ∷ []

abbrev pub applied_to : Agent → Option (Agent → String) → Option String
applied_to agt none = none
applied_to agt (some f) = some (f agt)

module _ {W : Type 0} where
  unfoldable pub instructions : Agent → List (ToolServer W) → List String
  instructions agt [] = []
  instructions agt (t ∷ ts) =
      maybe_one t.instruction
      ++ (maybe_one (applied_to agt t.agent_instruction) ++ instructions agt ts)

  unfoldable pub tool_aware_part : Sources → Agent → List (ToolServer W) → String
  unfolding instructions
  tool_aware_part src agt [] = ""
  tool_aware_part src agt (t ∷ ts) = join "\n\n" (src.tool_usage_guide ∷ instructions agt (t ∷ ts))

-- The type assertion of the instruction, if there is one.
abbrev pub instruction_text : Option Extra → Result String
instruction_text none = ok ""
instruction_text (some (a_string s)) = ok s
instruction_text (some (of_type t)) =
    err (text (concat ("session instruction: bad type: want string, have: " ∷ t ∷ [])))

unfoldable pub session_part : Session → Result String
session_part sess = instruction_text (lookup "instruction" sess.header.extras)

-- AssembleParts over the results of Part: the first error ends it.
unfoldable pub assemble_parts : List (Result String) → Result String
assemble_parts [] = ok ""
assemble_parts (p ∷ ps) = do
  part ← p
  rest ← assemble_parts ps
  ok (concat (part ∷ "\n\n" ∷ rest ∷ []))

-- The end of BuildSystemMessage: a hit is returned, and what was assembled is put into the cache.
abbrev pub built : ℕ → SessionKey → Option String × Cache → Result String → Result String × Cache
built now key (some t, c) r = (ok t, c)
built now key (none, c) (err e) = (err e, c)
built now key (none, c) (ok t) = (ok t, put now key t c)

module _ {W : Type 0} where
  -- BuildSystemMessage behind a miss.
  unfoldable pub assemble_message : Sources → Agent → List (ToolServer W) → Session → Result String
  unfolding assemble_parts agent_part memory_part skill_part tool_aware_part session_part
  assemble_message src agt servers sess = assemble_parts (
      ok (agent_part src agt)
      ∷ memory_part src agt.id
      ∷ ok (skill_part src agt.id)
      ∷ ok (tool_aware_part src agt servers)
      ∷ session_part sess
      ∷ [])

  unfoldable pub build_system_message :
      Sources → ℕ → Agent → List (ToolServer W) → Session → Cache → Result String × Cache
  unfolding get_cached assemble_message put
  build_system_message src now agt servers sess c =
      let key : SessionKey = (agt.id, sess.header.id) in
      built now key (get_cached now key c) (assemble_message src agt servers sess)
