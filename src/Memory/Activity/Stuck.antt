-- ===== src/Memory/Activity/Stuck.antt =====
-- A timer of internal/memory/activity_reporter.go that fires while the service is disabled.
use arch_agent.Base.Keys.{Eq, ◌==◌, ==_iff, ==_self}
use arch_agent.Base.Dict.{lookup, lookup-insert, lookup-delete}
use arch_agent.Memory.Activity.{
  Service, Deps, ActivityConfig, commit, get_buffer, append_to, timer_fires, flush, release_buffer,
  reload_activity, apply_config, use_model, drop_timer, applied_config,
}
use arch_agent.Agent.Message.{Message}
use arch_agent.Base.{
  Bool, Bool-cases, List, Option, [], arith, false, inl, inr, is_some, none, not, refl, some, true,
  ℕ, ◌&&◌, ◌++◌, ◌||◌, ◌∷◌, ◌≡◌,
}
use arch_agent.Base.Keys.{string_eq}
use arch_agent.Errors.{Result, err, ok}
use arch_agent.Memory.Activity.{is_zero_config, or_empty}
use arch_agent.Base.{subst, sym}
use arch_agent.Memory.Activity.{commit_if, released, timer_if}

module _ {K : Type 0} ⦃e : Eq K⦄ where
  abbrev pub has_timer : K → List (K × ℕ) → Bool
  has_timer key [] = false
  has_timer key (t ∷ ts) = (t.0 == key) || has_timer key ts

  has_timer-drop_timer :
      (key k : K) (ts : List (K × ℕ))
      → has_timer k (drop_timer key ts) ≡ (has_timer k ts && not (key == k))
  has_timer-drop_timer key k [] = refl
  has_timer-drop_timer key k (t ∷ ts) =
      ground (arith, has_timer-drop_timer key k ts, ==_iff t.0 key, ==_iff t.0 k, ==_iff key k)

module _ {K M : Type 0} ⦃e : Eq K⦄ where
  -- What happens to the service. Only a timer that runs can fire. Commit is one step, or two with
  -- others between them: then it may append to a buffer that was released in between, which the
  -- service does not see.
  pub data Step (s : Service K M) : Service K M → Type 0 where
    commits : (now : ℕ) (key : K) (msgs : List Message) → Step s (commit now key msgs s)
    gets : (now : ℕ) (key : K) → Step s (get_buffer now key (lookup key s.buffers) s)
    appends :
        (key : K) (msgs : List Message)
        → is_some (lookup key s.buffers) ≡ true
        → Step s (append_to key msgs s)
    fires :
        (deps : Deps M) (key : K)
        → has_timer key s.timers ≡ true
        → Step s (timer_fires deps key s).1
    reloads : (deps : Deps M) → Step s (reload_activity deps s).1

  pub data Steps (s : Service K M) : Service K M → Type 0 where
    no_step : Steps s s
    one_more : {t u : Service K M} → Steps s t → Step t u → Steps s u

  -- There are messages, and no timer that would log them.
  abbrev pub is_stuck : K → Service K M → Bool
  is_stuck key s = is_some (lookup key s.buffers) && not (has_timer key s.timers)

  append_to-is_stuck :
      (key k : K) (msgs : List Message) (s : Service K M)
      → is_stuck key s ≡ true
      → is_stuck key (append_to k msgs s) ≡ true
  unfolding append_to
  append_to-is_stuck key k msgs s h =
      ground (arith, lookup-insert k key (or_empty (lookup k s.buffers) ++ msgs) s.buffers)

  get_buffer-is_stuck :
      (now : ℕ) (key k : K) (o : Option (List Message)) (s : Service K M)
      → lookup k s.buffers ≡ o
      → is_stuck key s ≡ true
      → is_stuck key (get_buffer now k o s) ≡ true
  unfolding get_buffer
  get_buffer-is_stuck now key k (some buf) s q h = h
  get_buffer-is_stuck now key k none s q h =
      ground (arith, lookup-insert k key [] s.buffers, ==_iff k key)

  commit-is_stuck :
      (b : Bool) (now : ℕ) (key k : K) (msgs : List Message) (s : Service K M)
      → is_stuck key s ≡ true
      → is_stuck key (commit_if b now k msgs s) ≡ true
  unfolding commit_if
  commit-is_stuck false now key k msgs s h = h
  commit-is_stuck true now key k msgs s h =
      append_to-is_stuck key k msgs (get_buffer now k (lookup k s.buffers) s)
        (get_buffer-is_stuck now key k (lookup k s.buffers) s refl h)

  released-is_stuck :
      (key k : K) (o : Option (List Message)) (s : Service K M)
      → (k == key) ≡ false
      → is_stuck key s ≡ true
      → is_stuck key (released k o s).1 ≡ true
  released-is_stuck key k none s other h = h
  released-is_stuck key k (some buf) s other h =
      ground (arith, lookup-delete k key s.buffers, has_timer-drop_timer k key s.timers)

  timer_if-is_stuck :
      (b : Bool) (deps : Deps M) (key k : K) (s : Service K M)
      → (k == key) ≡ false
      → is_stuck key s ≡ true
      → is_stuck key (timer_if b deps k s).1 ≡ true
  unfolding timer_if flush release_buffer
  timer_if-is_stuck false deps key k s other h = h
  timer_if-is_stuck true deps key k s other h =
      released-is_stuck key k (lookup k s.buffers) s other h

  other_timer :
      (key k : K) (s : Service K M)
      → has_timer k s.timers ≡ true
      → is_stuck key s ≡ true
      → (k == key) ≡ false
  other_timer key k s runs h = elim (Bool-cases (k == key)) [
    | inl same ↦
        let r : has_timer key s.timers ≡ true =
          subst (λ x. has_timer x s.timers ≡ true) ((==_iff k key).0 same) runs in
        absurd (ground arith)
    | inr other ↦ other
  ]

  timer_fires-is_stuck :
      (deps : Deps M) (key k : K) (s : Service K M)
      → has_timer k s.timers ≡ true
      → is_stuck key s ≡ true
      → is_stuck key (timer_fires deps k s).1 ≡ true
  unfolding timer_fires
  timer_fires-is_stuck deps key k s runs h =
      timer_if-is_stuck s.enabled deps key k _ (other_timer key k s runs h)
        (ground (arith, has_timer-drop_timer k key s.timers))

  use_model-is_stuck :
      (key : K) (cfg : ActivityConfig) (r : Result M) (s : Service K M)
      → is_stuck key s ≡ true
      → is_stuck key (use_model cfg r s).1 ≡ true
  unfolding use_model
  use_model-is_stuck key cfg (err x) s h = h
  use_model-is_stuck key cfg (ok m) s h = h

  apply_config-is_stuck :
      (deps : Deps M) (key : K) (cfg : ActivityConfig) (s : Service K M)
      → is_stuck key s ≡ true
      → is_stuck key (apply_config deps cfg s).1 ≡ true
  unfolding apply_config
  apply_config-is_stuck deps key cfg s h = elim (Bool-cases (is_zero_config cfg)) [
    | inl z ↦ rw z h
    | inr z ↦ rw z (use_model-is_stuck key cfg (deps.get_model s.model_name) s h)
  ]

  applied_config-is_stuck :
      (deps : Deps M) (key : K) (r : Result ActivityConfig) (s : Service K M)
      → is_stuck key s ≡ true
      → is_stuck key (applied_config deps r s).1 ≡ true
  applied_config-is_stuck deps key (err x) s h = h
  applied_config-is_stuck deps key (ok cfg) s h = apply_config-is_stuck deps key cfg s h

  Step-is_stuck :
      {s t : Service K M} (key : K) → Step s t → is_stuck key s ≡ true → is_stuck key t ≡ true
  unfolding reload_activity commit
  Step-is_stuck {s} key (commits now k msgs) h = commit-is_stuck s.enabled now key k msgs s h
  Step-is_stuck {s} key (gets now k) h = get_buffer-is_stuck now key k (lookup k s.buffers) s refl h
  Step-is_stuck {s} key (appends k msgs there) h = append_to-is_stuck key k msgs s h
  Step-is_stuck {s} key (fires deps k runs) h = timer_fires-is_stuck deps key k s runs h
  Step-is_stuck {s} key (reloads deps) h = applied_config-is_stuck deps key deps.load_config s h

  -- Once a session has messages and no timer that runs, it stays so, whatever is committed, reloaded
  -- or logged for others: its messages are never logged.
  Steps-is_stuck :
      {s t : Service K M} (key : K) → Steps s t → is_stuck key s ≡ true → is_stuck key t ≡ true
  Steps-is_stuck key no_step h = h
  Steps-is_stuck key (one_more steps step) h = Step-is_stuck key step (Steps-is_stuck key steps h)

  -- The timer of a session with messages fires while the service is disabled: whatever is committed,
  -- reloaded, enabled again or logged for others from then on, the session has messages and no timer
  -- that would log them.
  pub timer_fires-stuck :
      {t : Service K M} (deps : Deps M) (key : K) (s : Service K M)
      → s.enabled ≡ false
      → is_some (lookup key s.buffers) ≡ true
      → Steps (timer_fires deps key s).1 t
      → is_stuck key t ≡ true
  unfolding timer_fires timer_if
  timer_fires-stuck {t} deps key s disabled buffered steps =
      let spent : Service K M = record s { timers = drop_timer key s.timers } in
      Steps-is_stuck key steps (
        subst (λ b. is_stuck key (timer_if b deps key spent).1 ≡ true) (sym disabled)
          (ground (arith, has_timer-drop_timer key key s.timers, ==_self key)))
