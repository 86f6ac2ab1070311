-- ===== src/Files/Sessions.antt =====
-- internal/files/sessions.go: the repository of the sessions, with internal/session/service.go over
-- it. A file of a session has a line for the header and one for each message; what the JSON library
-- makes of a line is its value or an error, and it reads back what it wrote. A header's line is taken
-- to be within the 64 KB that Headers reads of it.
pub mod Stored
use arch_agent.Session.{Session, SessionHeader, Extra, new_session, set_extras, a_string}
use arch_agent.Files.Dto.{MessageDto, dto_to_messages, messages_to_dto}
use arch_agent.Agent.Message.{Message}
use arch_agent.Base.{List, Option, String, [], if◌then◌else◌, none, some, ℕ, ◌∷◌}
use arch_agent.Base.Keys.{string_eq, pair_eq}
use arch_agent.Base.Dict.{Dict, delete, insert, lookup}
use arch_agent.Base.Keys.{Eq, string_eq, ◌==◌}
use arch_agent.Errors.{Error, Result, err, is_not_exist, ok, sentinel, wrap, ◌>>=◌, ◌>>◌}
use arch_agent.Agent.Message.{tool_calls}
use arch_agent.Files.Dto.{ToolCallDto}

-- SessionHeaderDTO
pub record SessionHeaderDto : Type 0 where
  pub input_tokens : ℕ
  pub output_tokens : ℕ
  pub created_at : ℕ
  pub updated_at : ℕ
  pub extras : Dict String Extra

pub record SessionFile : Type 0 where
  pub header : Result SessionHeaderDto
  pub lines : List (Result MessageDto)

-- The files of the sessions by agent and session, and the errors that the next calls meet: of listing
-- a folder (a missing folder is an empty one), of opening or reading a file, of writing a file or
-- making its folder (which leave the file as it was, as far as they are looked at), and of removing
-- one. `encode_args` is what the encoder of JSON writes for a json.RawMessage: it compacts the text,
-- and refuses one that is no JSON.
pub record SessionDisk : Type 0 where
  pub files : Dict (String × String) SessionFile
  pub list_error : String → Option Error
  pub open_error : String × String → Option Error
  pub write_error : Option Error
  pub remove_error : String × String → Option Error
  pub encode_args : String → Result String

abbrev pub header_to_dto : SessionHeader → SessionHeaderDto
header_to_dto h = record {
  input_tokens = h.input_tokens;
  output_tokens = h.output_tokens;
  created_at = h.created_at;
  updated_at = h.updated_at;
  extras = h.extras;
}

abbrev pub header_of : String → SessionHeaderDto → SessionHeader
header_of session_id dto = record {
  id = session_id;
  input_tokens = dto.input_tokens;
  output_tokens = dto.output_tokens;
  created_at = dto.created_at;
  updated_at = dto.updated_at;
  extras = dto.extras;
}

abbrev as_lines : List MessageDto → List (Result MessageDto)
as_lines [] = []
as_lines (dto ∷ dtos) = ok dto ∷ as_lines dtos

unfoldable pub encode_calls :
    (String → Result String) → List ToolCallDto → Result (List ToolCallDto)
encode_calls encode_args [] = ok []
encode_calls encode_args (tc ∷ calls) = do
  args ← encode_args tc.args
  encoded ← encode_calls encode_args calls
  ok (record tc { args = args } ∷ encoded)

-- enc.Encode(m)
unfoldable pub encode_message : (String → Result String) → MessageDto → Result MessageDto
unfolding encode_calls
encode_message encode_args dto = do
  calls ← encode_calls encode_args dto.tool_calls
  ok (record dto { tool_calls = calls })

-- The loop over the messages.
unfoldable pub encode_messages :
    (String → Result String) → List MessageDto → Result (List MessageDto)
unfolding encode_message
encode_messages encode_args [] = ok []
encode_messages encode_args (dto ∷ dtos) = do
  line ← encode_message encode_args dto
  lines ← encode_messages encode_args dtos
  ok (line ∷ lines)

abbrev pub file_of : SessionHeader → List MessageDto → SessionFile
file_of h dtos = record { header = ok (header_to_dto h); lines = as_lines dtos }

unfoldable pub marshal_session : (String → Result String) → Session → Result SessionFile
unfolding encode_messages
marshal_session encode_args s = do
  dtos ← encode_messages encode_args (messages_to_dto s.messages)
  ok (file_of s.header dtos)

-- The loop over the lines behind the header: the first that is no message ends it.
unfoldable pub decode_lines : List (Result MessageDto) → Result (List MessageDto)
decode_lines [] = ok []
decode_lines (line ∷ lines) = do dto ← line; dtos ← decode_lines lines; ok (dto ∷ dtos)

abbrev restored : String → SessionHeaderDto → List Message → Result Session
restored session_id dto msgs =
    let s : Session = record { header = header_of session_id dto; messages = msgs } in ok s

-- dtoToSession
unfoldable pub dto_to_session : String → SessionHeaderDto → List MessageDto → Result Session
dto_to_session session_id dto dtos = do msgs ← dto_to_messages dtos; restored session_id dto msgs

unfoldable pub unmarshal_session : String → SessionFile → Result Session
unfolding decode_lines dto_to_session
unmarshal_session session_id f = do
  dto ← f.header
  dtos ← decode_lines f.lines
  dto_to_session session_id dto dtos

abbrev pub missing_file : Error
missing_file = wrap "open" (sentinel is_not_exist)

-- Session: a file that is missing, that cannot be read, or what it holds.
abbrev read_found : String → Option SessionFile → Option Error → Result Session
read_found session_id none e = err missing_file
read_found session_id (some f) (some e) = err e
read_found session_id (some f) none = unmarshal_session session_id f

unfoldable pub read_session : SessionDisk → String → String → Result Session
unfolding unmarshal_session
read_session d agent_id session_id =
    read_found session_id (lookup (agent_id, session_id) d.files)
      (d.open_error (agent_id, session_id))

abbrev pub written :
    SessionDisk → String → String → SessionFile → Option Error → Option Error × SessionDisk
written d agent_id session_id f (some e) = (some e, d)
written d agent_id session_id f none =
    (none, record d { files = insert (agent_id, session_id) f d.files })

abbrev pub save_marshalled :
    SessionDisk → String → String → Result SessionFile → Option Error × SessionDisk
save_marshalled d agent_id session_id (err e) = (some e, d)
save_marshalled d agent_id session_id (ok f) = written d agent_id session_id f d.write_error

unfoldable pub save_session : SessionDisk → String → Session → Option Error × SessionDisk
unfolding marshal_session
save_session d agent_id s = save_marshalled d agent_id s.header.id (marshal_session d.encode_args s)

abbrev pub removed :
    SessionDisk → String × String → Option SessionFile → Option Error → Option Error × SessionDisk
removed d key none e = (some missing_file, d)
removed d key (some f) (some e) = (some e, d)
removed d key (some f) none = (none, record d { files = delete key d.files })

unfoldable pub delete_session : SessionDisk → String → String → Option Error × SessionDisk
delete_session d agent_id session_id =
    removed d (agent_id, session_id) (lookup (agent_id, session_id) d.files)
      (d.remove_error (agent_id, session_id))

-- ErrBrokenHeader
pub record BrokenHeader : Type 0 where
  pub session_id : String
  pub agent_id : String
  pub cause : Error

abbrev pub header_line : SessionDisk → String × String → SessionFile → Result SessionHeaderDto
header_line d key f = elim (d.open_error key) [ some e ↦ err e | none ↦ f.header ]

abbrev pub with_header :
    String × String
    → Result SessionHeaderDto
    → List SessionHeader × List BrokenHeader
    → List SessionHeader × List BrokenHeader
with_header key (ok dto) (headers, broken) = (header_of key.1 dto ∷ headers, broken)
with_header key (err e) (headers, broken) =
    let b : BrokenHeader = record { session_id = key.1; agent_id = key.0; cause = e } in
    (headers, b ∷ broken)

-- The loop of Headers over the files of the folder.
unfoldable pub scan_headers :
    SessionDisk
    → String
    → Dict (String × String) SessionFile
    → List SessionHeader × List BrokenHeader
scan_headers d agent_id [] = ([], [])
scan_headers d agent_id ((key, f) ∷ files) =
    let rest = scan_headers d agent_id files in
    if key.0 == agent_id then with_header key (header_line d key f) rest else rest

-- Headers: the headers and the broken ones, or the error of listing the folder.
unfoldable pub session_headers :
    SessionDisk → String → Result (List SessionHeader × List BrokenHeader)
unfolding scan_headers
session_headers d agent_id = elim (d.list_error agent_id) [
  | some e ↦ err e
  | none ↦ ok (scan_headers d agent_id d.files)
]

abbrev created :
    SessionDisk → String → Session → Option Error × SessionDisk → Result String × SessionDisk
created d agent_id s (some e, d') = (err e, d')
created d agent_id s (none, d') = (ok s.header.id, d')

abbrev with_instruction : String → Session → Session
with_instruction instruction s =
    if instruction == "" then s else set_extras s (("instruction", a_string instruction) ∷ [])

-- (*Service).Create of internal/session/service.go, with the id that the generator returned.
unfoldable pub create_session_file :
    SessionDisk → ℕ → String → String → String → Result String × SessionDisk
unfolding save_session
create_session_file d now new_id agent_id instruction =
    let s = with_instruction instruction (new_session now new_id) in
    created d agent_id s (save_session d agent_id s)
