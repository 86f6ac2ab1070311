-- ===== src/Tests/Cleaning.antt =====
-- Examples for internal/files/sessions.go, internal/cleanup and internal/memory.
use arch_agent.Cleanup.{clean, hours}
use arch_agent.Cleanup.Exactly.{clean-lookup}
use arch_agent.Files.Sessions.{SessionDisk, marshal_session, read_session, save_session}
use arch_agent.Files.Sessions.Stored.{read_session-save_session}
use arch_agent.Memory.Activity.{Deps, Service, timer_fires}
use arch_agent.Memory.Activity.Stuck.{no_step, is_stuck, timer_fires-stuck}
use arch_agent.Session.{Session, new_session}
use arch_agent.Agent.Message.{Message, user_message}
use arch_agent.Agent.{new_content}
use arch_agent.Base.{List, String, [], false, if◌then◌else◌, none, refl, some, true, ℕ, ◌∷◌, ◌≡◌}
use arch_agent.Base.Dict.{IsDict, lookup}
use arch_agent.Base.Keys.{pair_eq, string_eq, ◌==◌}
use arch_agent.Errors.{ok, text}
use arch_agent.Agent.Message.{agent_message}
use arch_agent.Errors.{err}
use arch_agent.Files.Dto.{content_to_dto, message_to_dto, messages_to_dto, toolcalls_to_dto}
use arch_agent.Files.Sessions.{encode_calls, encode_message, encode_messages, file_of}

abbrev hello : Session
unfolding new_session
hello = record {
  header = record (new_session 10 "s1").header { input_tokens = 5 };
  messages = user_message (new_content "hello") ∷ [];
}

abbrev pub empty_disk : SessionDisk
empty_disk = record {
  files = [];
  list_error = λ a. none;
  open_error = λ k. none;
  write_error = none;
  remove_error = λ k. none;
  encode_args = λ a. if a == "" then err (text "unexpected end of JSON input") else ok "{}";
}

-- A session with a call, whose arguments the encoder compacts.
abbrev asking : (arguments : String) → Session
unfolding new_session
asking arguments = record (new_session 10 "s1") {
  messages =
      agent_message [] ((record { id = "c1"; tool_name = "echo"; arguments = arguments }) ∷ [])
      ∷ [];
}

read_session-save_session_example :
    read_session (save_session empty_disk "claw" (asking "{ }")).1 "claw" "s1" ≡ ok (asking "{}")
unfolding asking save_session marshal_session encode_messages encode_message encode_calls
    messages_to_dto message_to_dto toolcalls_to_dto content_to_dto
read_session-save_session_example =
    read_session-save_session empty_disk "claw" "claw" "s1" (asking "{ }") refl refl

-- The file of s2 is there and can only not be opened at the moment.
abbrev shared_disk : SessionDisk
unfolding hello
shared_disk = record empty_disk {
  files =
      (("claw", "s1"), file_of hello.header []) ∷ (("claw", "s2"), file_of hello.header []) ∷ [];
  open_error = λ k. if k.1 == "s2" then some (text "too many open files") else none;
}

shared_disk-IsDict : IsDict shared_disk.files
unfolding lookup shared_disk
shared_disk-IsDict = (refl, (refl, tt))

clean-lookup_example :
    lookup ("claw", "s2") (clean 25 (hours 10) (ok ("claw" ∷ [])) shared_disk).1.files ≡ none
unfolding lookup shared_disk clean
clean-lookup_example =
    clean-lookup 25 (hours 10) ("claw" ∷ []) ("claw", "s2") shared_disk shared_disk-IsDict

abbrev deps : Deps ℕ
deps = record {
  get_model = λ name. ok 7;
  load_config = ok (record { enabled = true; interval = 60; model_name = "small" });
  save_config = λ cfg. none;
  report_system = "Report.";
  report_request = "What was done?";
}

abbrev reporting : Service String ℕ
reporting = record {
  interval = 60;
  model_name = "small";
  enabled = true;
  model = some 7;
  buffers = [];
  timers = [];
}

abbrev paused : Service String ℕ
paused = record reporting {
  enabled = false;
  buffers = ("claw/s1", user_message (new_content "hello") ∷ []) ∷ [];
  timers = ("claw/s1", 70) ∷ [];
}

timer_fires-stuck_example : is_stuck "claw/s1" (timer_fires deps "claw/s1" paused).1 ≡ true
unfolding lookup
timer_fires-stuck_example = timer_fires-stuck deps "claw/s1" paused refl refl no_step

abbrev two_commits : List (ℕ × String × List Message)
two_commits =
    (10, "claw/s1", user_message (new_content "hello") ∷ [])
    ∷ (12, "claw/s2", user_message (new_content "hi") ∷ [])
    ∷ (15, "claw/s1", user_message (new_content "bye") ∷ [])
    ∷ []
