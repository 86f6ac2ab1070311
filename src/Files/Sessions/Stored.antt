-- ===== src/Files/Sessions/Stored.antt =====
-- What a session's file in internal/files/sessions.go gives back.
use arch_agent.Files.Sessions.{
  as_lines, read_session, save_session, marshal_session, unmarshal_session, decode_lines,
  dto_to_session,
}
use arch_agent.Base.{List, String, [], if◌then◌else◌, none, refl, ◌∷◌, ◌≡◌}
use arch_agent.Base.Keys.{string_eq, pair_eq, pair_beq, pair_beq_iff, ==_self}
use arch_agent.Errors.{ok}
use arch_agent.Files.Dto.{MessageDto, messages_to_dto}
use arch_agent.Files.Dto.RoundTrip.{dto_to_messages-messages_to_dto}
use arch_agent.Files.Sessions.{SessionDisk}
use arch_agent.Session.{Session}
use arch_agent.Base.{Bool-cases, inl, inr}
use arch_agent.Base.Keys.{pair_beq}
use arch_agent.Base.{false, subst}
use arch_agent.Base.Dict.{insert, lookup-insert}
use arch_agent.Files.Sessions.{SessionFile}
use arch_agent.Base.{ap, sym}
use arch_agent.Errors.{Result}
use arch_agent.Files.Sessions.{written}
use arch_agent.Agent.{ToolCall}
use arch_agent.Agent.Message.{
  role, content, Message, agent_message, system_message, tool_result_message, user_message,
}
use arch_agent.Base.{Option, ap₂, arith, map, some, ◌∙◌}
use arch_agent.Errors.{Error, err, ◌>>=◌}
use arch_agent.Files.Dto.{ToolCallDto, message_to_dto, toolcalls_to_dto}
use arch_agent.Files.Sessions.{
  encode_calls, encode_message, encode_messages, file_of, save_marshalled,
}

decode_lines-as_lines : (dtos : List MessageDto) → decode_lines (as_lines dtos) ≡ ok dtos
unfolding decode_lines
decode_lines-as_lines [] = refl
decode_lines-as_lines (dto ∷ dtos) = rw (decode_lines-as_lines dtos) refl

bind-ok {ℓ κ} :
    {A : Type ℓ} {B : Type κ} (r : Result A) (next : A → Result B) (y : B)
    → (r >>= next) ≡ ok y
    → (x : A) × (r ≡ ok x) × (next x ≡ ok y)
bind-ok (err e) next y h = absurd (ground arith)
bind-ok (ok x) next y h = (x, refl, h)

same_ok {ℓ} : {A : Type ℓ} {a b : A} → ok a ≡ ok b → a ≡ b
same_ok h = cc

-- The arguments as they are written, where they can be.
abbrev written_as : String → Result String → String
written_as a (err e) = a
written_as a (ok b) = b

abbrev compact : (String → Result String) → String → String
compact encode_args a = written_as a (encode_args a)

abbrev compact_calls : (String → Result String) → List ToolCall → List ToolCall
compact_calls encode_args [] = []
compact_calls encode_args (tc ∷ calls) =
    record tc { arguments = compact encode_args tc.arguments } ∷ compact_calls encode_args calls

abbrev compact_message : (String → Result String) → Message → Message
compact_message encode_args (agent_message c calls) =
    agent_message c (compact_calls encode_args calls)
compact_message encode_args (user_message c) = user_message c
compact_message encode_args (system_message c) = system_message c
compact_message encode_args (tool_result_message id c) = tool_result_message id c

abbrev pub compact_session : (String → Result String) → Session → Session
compact_session encode_args s = record s { messages = map (compact_message encode_args) s.messages }

module _ (encode_args : String → Result String) where
  encode_calls-compact :
      (calls : List ToolCall) (xs : List ToolCallDto)
      → encode_calls encode_args (toolcalls_to_dto calls) ≡ ok xs
      → toolcalls_to_dto (compact_calls encode_args calls) ≡ xs
  unfolding encode_calls toolcalls_to_dto
  encode_calls-compact [] xs h = same_ok h
  encode_calls-compact (tc ∷ calls) xs h =
      let (a, encoded, h1) = bind-ok (encode_args tc.arguments) _ xs h in
      let (rest, others, h2) =
        bind-ok (encode_calls encode_args (toolcalls_to_dto calls)) _ xs h1 in
      let c : compact encode_args tc.arguments ≡ a = ap (written_as tc.arguments) encoded in
      ap₂ (λ b bs. (record { id = tc.id; tool = tc.tool_name; args = b }) ∷ bs) c
        (encode_calls-compact calls rest others)
      ∙ same_ok h2

  encode_message-compact :
      (m : Message) (x : MessageDto)
      → encode_message encode_args (message_to_dto m) ≡ ok x
      → message_to_dto (compact_message encode_args m) ≡ x
  unfolding encode_message encode_calls message_to_dto role content
  encode_message-compact (agent_message c calls) x h =
      let (cs, encoded, h1) = bind-ok (encode_calls encode_args (toolcalls_to_dto calls)) _ x h in
      ap (λ ds. record (message_to_dto (agent_message c calls)) { tool_calls = ds })
        (encode_calls-compact calls cs encoded)
      ∙ same_ok h1
  encode_message-compact (user_message c) x h = same_ok h
  encode_message-compact (system_message c) x h = same_ok h
  encode_message-compact (tool_result_message id c) x h = same_ok h

  encode_messages-compact :
      (ms : List Message) (xs : List MessageDto)
      → encode_messages encode_args (messages_to_dto ms) ≡ ok xs
      → messages_to_dto (map (compact_message encode_args) ms) ≡ xs
  unfolding encode_messages messages_to_dto
  encode_messages-compact [] xs h = same_ok h
  encode_messages-compact (m ∷ ms) xs h =
      let (y, line, h1) = bind-ok (encode_message encode_args (message_to_dto m)) _ xs h in
      let (ys, lines, h2) = bind-ok (encode_messages encode_args (messages_to_dto ms)) _ xs h1 in
      ap₂ (λ d ds. d ∷ ds) (encode_message-compact m y line) (encode_messages-compact ms ys lines)
      ∙ same_ok h2

  unmarshal_session-marshal_session :
      (s : Session) (f : SessionFile)
      → marshal_session encode_args s ≡ ok f
      → unmarshal_session s.header.id f ≡ ok (compact_session encode_args s)
  unfolding unmarshal_session marshal_session dto_to_session
  unmarshal_session-marshal_session s f h =
      let (dtos, encoded, h1) =
        bind-ok (encode_messages encode_args (messages_to_dto s.messages)) _ f h in
      let ms = map (compact_message encode_args) s.messages in
      subst (λ g. unmarshal_session s.header.id g ≡ ok (compact_session encode_args s))
        (ap (file_of s.header) (encode_messages-compact s.messages dtos encoded) ∙ same_ok h1)
        (rw (decode_lines-as_lines (messages_to_dto ms), dto_to_messages-messages_to_dto ms) refl)

abbrev with_file : SessionDisk → String × String → SessionFile → SessionDisk
with_file d key f = record d { files = insert key f d.files }

read_session-same :
    (d : SessionDisk) (agent_id : String) (s : Session) (f : SessionFile)
    → marshal_session d.encode_args s ≡ ok f
    → d.open_error (agent_id, s.header.id) ≡ none
    → read_session (with_file d (agent_id, s.header.id) f) agent_id s.header.id
      ≡ ok (compact_session d.encode_args s)
unfolding read_session
read_session-same d agent_id s f fine opened =
    let key : String × String = (agent_id, s.header.id) in
    rw (lookup-insert key key f d.files, ==_self key, opened)
      (unmarshal_session-marshal_session d.encode_args s f fine)

read_session-other :
    (d : SessionDisk) (agent_id session_id a i : String) (f : SessionFile)
    → pair_beq (agent_id, session_id) (a, i) ≡ false
    → read_session (with_file d (agent_id, session_id) f) a i ≡ read_session d a i
unfolding read_session
read_session-other d agent_id session_id a i f other =
    rw (lookup-insert (agent_id, session_id) (a, i) f d.files, other) refl

save_marshalled-ok :
    (d : SessionDisk) (agent_id session_id : String) (r : Result SessionFile) (w : Option Error)
    → d.write_error ≡ w
    → (save_marshalled d agent_id session_id r).0 ≡ none
    → (f : SessionFile) × (r ≡ ok f)
      × (with_file d (agent_id, session_id) f ≡ (save_marshalled d agent_id session_id r).1)
save_marshalled-ok d agent_id session_id (err e) w q h = absurd (ground arith)
save_marshalled-ok d agent_id session_id (ok f) (some e) q h =
    absurd (some_not_none (sym (ap (λ v. (written d agent_id session_id f v).0) q) ∙ h))
  where
    some_not_none : {e : Error} → some e ≡ none → ⊥
    some_not_none r = ground arith
save_marshalled-ok d agent_id session_id (ok f) none q h =
    (f, refl, sym (ap (λ v. (written d agent_id session_id f v).1) q))

-- Where a session is saved without an error and its file can be opened, it is read back with its
-- header and its messages, the arguments of their calls as the encoder of JSON writes them, and every
-- other session is read as before.
pub read_session-save_session :
    (d : SessionDisk) (agent_id a i : String) (s : Session)
    → (save_session d agent_id s).0 ≡ none
    → d.open_error (agent_id, s.header.id) ≡ none
    → read_session (save_session d agent_id s).1 a i ≡ (
        if pair_beq (agent_id, s.header.id) (a, i)
        then ok (compact_session d.encode_args s)
        else read_session d a i)
unfolding save_session
read_session-save_session d agent_id a i s saved opened =
    let (f, fine, behind) =
      save_marshalled-ok d agent_id s.header.id (marshal_session d.encode_args s) d.write_error refl
        saved in
    subst (λ d'. read_session d' a i ≡ meant) behind
      (elim (Bool-cases (pair_beq (agent_id, s.header.id) (a, i))) [
        | inl same ↦ rw same (
            subst
              (λ k.
                read_session (with_file d (agent_id, s.header.id) f) k.0 k.1
                ≡ ok (compact_session d.encode_args s))
              ((pair_beq_iff (agent_id, s.header.id) (a, i)).0 same)
              (read_session-same d agent_id s f fine opened))
        | inr other ↦ rw other (read_session-other d agent_id s.header.id a i f other)
      ])
  where
    meant : Result Session
    meant =
        if pair_beq (agent_id, s.header.id) (a, i)
        then ok (compact_session d.encode_args s)
        else read_session d a i
