-- ===== src/Memory/Activity.antt =====
-- ActivityService of internal/memory/activity_reporter.go. A method is a step, as its parts run under
-- a mutex each; a timer that fires is a step, too. Times are seconds.
pub mod Stuck
pub mod Logged
use arch_agent.Agent.{new_content}
use arch_agent.Agent.Message.{Message, stringify_conversation, system_message, user_message}
use arch_agent.Base.{
  Bool, List, Option, String, [], concat, false, if◌then◌else◌, keep_if, nat_eq, none, not, some, ℕ,
  ◌&&◌, ◌++◌, ◌+◌, ◌∷◌,
}
use arch_agent.Base.Dict.{Dict, delete, insert, lookup}
use arch_agent.Base.Keys.{string_eq, ◌==◌}
use arch_agent.Errors.{Error, Result, err, is_not_exist, ok, sentinel, text}
use arch_agent.Base.Keys.{Eq}
use arch_agent.Base.{true}

abbrev pub default_flush_interval : ℕ
default_flush_interval = 120

pub record ActivityConfig : Type 0 where
  pub enabled : Bool
  pub interval : ℕ
  pub model_name : String

abbrev pub is_zero_config : ActivityConfig → Bool
is_zero_config c = not c.enabled && (nat_eq c.interval 0 && (c.model_name == ""))

-- The service with the timers that run, each with its key and the time at which it fires. A key is
-- an agent with a session, of which only the equality matters. `M` is the models of the registry; a
-- nil model is `none`.
pub record Service (K M : Type 0) : Type 0 where
  pub interval : ℕ
  pub model_name : String
  pub enabled : Bool
  pub model : Option M
  pub buffers : Dict K (List Message)
  pub timers : List (K × ℕ)

-- agent.ModelRegistry, the repository of the configuration, and the texts around a transcript.
pub record Deps (M : Type 0) : Type 0 where
  pub get_model : String → Result M
  pub load_config : Result ActivityConfig
  pub save_config : ActivityConfig → Option Error
  pub report_system : String
  pub report_request : String

abbrev pub or_empty : Option (List Message) → List Message
or_empty none = []
or_empty (some buf) = buf

module _ {M : Type 0} where
  -- (*messageBuffer).transcript
  unfoldable pub transcript : Deps M → List Message → String
  transcript deps buf =
      concat (
        deps.report_request
        ∷ "\n\n<transcript>"
        ∷ stringify_conversation buf
        ∷ "</transcript>"
        ∷ [])

  -- What the model is asked, if there is one.
  unfoldable pub report_messages : Deps M → Option M → List Message → Result (M × List Message)
  unfolding transcript
  report_messages deps none buf = err (text "model is not set")
  report_messages deps (some model) buf = ok (
    model,
    system_message (new_content deps.report_system)
        ∷ user_message (new_content (transcript deps buf))
        ∷ [],
  )

  abbrev checked_save : Deps M → ActivityConfig → Result M → Option Error
  checked_save deps cfg (err e) = some e
  checked_save deps cfg (ok model) = deps.save_config cfg

module _ {K : Type 0} ⦃e : Eq K⦄ where
  -- delete(o.flushTimer, key), and the end of a timer that has fired.
  abbrev pub drop_timer : K → List (K × ℕ) → List (K × ℕ)
  drop_timer key timers = keep_if (λ (t : K × ℕ). not (t.0 == key)) timers

module _ {K M : Type 0} ⦃e : Eq K⦄ where
  -- The body of getBuffer: a new buffer gets a timer.
  unfoldable pub get_buffer : ℕ → K → Option (List Message) → Service K M → Service K M
  get_buffer now key (some buf) s = s
  get_buffer now key none s = record s {
    buffers = insert key [] s.buffers;
    timers = (key, now + s.interval) ∷ s.timers;
  }

  -- buf.append(msgs)
  unfoldable pub append_to : K → List Message → Service K M → Service K M
  append_to key msgs s = record s {
    buffers = insert key (or_empty (lookup key s.buffers) ++ msgs) s.buffers;
  }

  unfoldable pub commit_if : Bool → ℕ → K → List Message → Service K M → Service K M
  unfolding get_buffer append_to
  commit_if false now key msgs s = s
  commit_if true now key msgs s = append_to key msgs (get_buffer now key (lookup key s.buffers) s)

  unfoldable pub commit : ℕ → K → List Message → Service K M → Service K M
  unfolding commit_if
  commit now key msgs s = commit_if s.enabled now key msgs s

  -- releaseBuffer: the buffer that was there, if any.
  abbrev pub released :
      K → Option (List Message) → Service K M → Result (List Message) × Service K M
  released key none s = (err (sentinel is_not_exist), s)
  released key (some buf) s =
      (ok buf, record s { buffers = delete key s.buffers; timers = drop_timer key s.timers })

  unfoldable pub release_buffer : K → Service K M → Result (List Message) × Service K M
  release_buffer key s = released key (lookup key s.buffers) s

  unfoldable pub asked : Deps M → Service K M → Result (List Message) → Result (M × List Message)
  unfolding report_messages
  asked deps s (err e) = err e
  asked deps s (ok buf) = report_messages deps s.model buf

  -- flush, up to the call of the model: what it is asked, and the state behind the release. What it
  -- answers is logged, and an error on the way leaves the buffer released.
  unfoldable pub flush : Deps M → K → Service K M → Result (M × List Message) × Service K M
  unfolding release_buffer asked
  flush deps key s = let (r, s') = release_buffer key s in (asked deps s r, s')

  -- The function of a timer, which is spent: it does nothing while the service is disabled.
  unfoldable pub timer_if :
      Bool → Deps M → K → Service K M → Option (Result (M × List Message)) × Service K M
  unfolding flush
  timer_if false deps key s = (none, s)
  timer_if true deps key s = let (r, s') = flush deps key s in (some r, s')

  unfoldable pub timer_fires :
      Deps M → K → Service K M → Option (Result (M × List Message)) × Service K M
  unfolding timer_if
  timer_fires deps key s =
      timer_if s.enabled deps key (record s { timers = drop_timer key s.timers })

  unfoldable pub use_model : ActivityConfig → Result M → Service K M → Option Error × Service K M
  use_model cfg (err e) s = (some e, s)
  use_model cfg (ok model) s = (
    none,
    record s {
      model = some model;
      model_name = cfg.model_name;
      interval = cfg.interval;
      enabled = cfg.enabled;
    },
  )

  -- applyConfig: the model is looked up by the name that the service had before.
  unfoldable pub apply_config : Deps M → ActivityConfig → Service K M → Option Error × Service K M
  unfolding use_model
  apply_config deps cfg s =
      if is_zero_config cfg then (none, s) else use_model cfg (deps.get_model s.model_name) s

  abbrev applied_config : Deps M → Result ActivityConfig → Service K M → Option Error × Service K M
  applied_config deps (err e) s = (some e, s)
  applied_config deps (ok cfg) s = apply_config deps cfg s

  unfoldable pub reload_activity : Deps M → Service K M → Option Error × Service K M
  unfolding apply_config
  reload_activity deps s = applied_config deps deps.load_config s

  -- NewActivityService: an error of the first load is logged only.
  unfoldable pub new_activity_service : Deps M → Service K M
  unfolding reload_activity
  new_activity_service deps =
      let s : Service K M = record {
        interval = default_flush_interval;
        model_name = "";
        enabled = false;
        model = none;
        buffers = [];
        timers = [];
      } in
      (reload_activity deps s).1

  -- SaveConfig: the model that is checked is the present one, too.
  unfoldable pub save_activity_config : Deps M → ActivityConfig → Service K M → Option Error
  save_activity_config deps cfg s = checked_save deps cfg (deps.get_model s.model_name)
