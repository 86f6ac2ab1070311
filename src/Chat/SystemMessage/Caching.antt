-- ===== src/Chat/SystemMessage/Caching.antt =====
-- How long a system message of internal/chat/context_assembler.go lasts.
use arch_agent.Base.Keys.{string_eq, pair_eq, ==_self}
use arch_agent.Agent.{Agent}
use arch_agent.Base.{arith, Option, List, String, if◌then◌else◌, ltb, refl, some, ℕ, ◌+◌, ◌∙◌, ◌≡◌}
use arch_agent.Base.Dict.{insert, delete, lookup, lookup-insert}
use arch_agent.Chat.{err, Result, ToolServer}
use arch_agent.Chat.Dispatcher.{SessionKey}
use arch_agent.Chat.SystemMessage.{
  touched, built, Cache, Sources, alive, assemble_message, build_system_message, cache_life_time,
  cached, get_cached, put,
}
use arch_agent.Errors.{ok}
use arch_agent.Session.{Session}
use arch_agent.Base.{ap, none}

lookup-put :
    (now : ℕ) (key : SessionKey) (t : String) (c : Cache)
    → lookup key (put now key t c) ≡ some (t, now + cache_life_time)
unfolding put
lookup-put now key t c =
    lookup-insert key key (t, now + cache_life_time) (delete key c) ∙ rw (==_self key) refl

lookup-touched :
    (now : ℕ) (key : SessionKey) (t : String) (c : Cache)
    → lookup key (insert key (t, now + cache_life_time) c) ≡ some (t, now + cache_life_time)
lookup-touched now key t c =
    lookup-insert key key (t, now + cache_life_time) c ∙ rw (==_self key) refl

-- What a build leaves in the cache.
built-entry :
    (now : ℕ) (key : SessionKey) (c : Cache) (hit : Option String) (r : Result String) (t : String)
    → (built now key (touched now key c hit) r).0 ≡ ok t
    → lookup key (built now key (touched now key c hit) r).1 ≡ some (t, now + cache_life_time)
built-entry now key c (some t') r t h = ground (arith, lookup-touched now key t' c)
built-entry now key c none (err e) t h = absurd (ground arith)
built-entry now key c none (ok t') t h = ground (arith, lookup-put now key t' c)

-- What a build finds there.
built-found :
    (now now' : ℕ) (key : SessionKey) (c : Cache) (t : String) (r : Result String)
    → lookup key c ≡ some (t, now + cache_life_time)
    → (built now' key (get_cached now' key c) r).0
      ≡ (if ltb now' (now + cache_life_time) then ok t else r)
unfolding get_cached cached alive
built-found now now' key c t (ok t') h = rw h (ground arith)
built-found now now' key c t (err e) h = rw h (ground arith)

module _ {W : Type 0} where
  -- Once a system message was built, the same text is given to the same agent and session for the
  -- next half an hour, whatever has become of the agent, its memories, skills and tools, and of the
  -- session's instruction; from then on it is assembled anew.
  pub build_system_message-twice :
      (src src' : Sources) (now now' : ℕ) (agt agt' : Agent)
      (servers servers' : List (ToolServer W)) (sess sess' : Session) (c : Cache) (t : String)
      → (build_system_message src now agt servers sess c).0 ≡ ok t
      → agt'.id ≡ agt.id
      → sess'.header.id ≡ sess.header.id
      → (build_system_message src' now' agt' servers' sess'
          (build_system_message src now agt servers sess c).1).0
        ≡ (if ltb now' (now + cache_life_time)
            then ok t
            else assemble_message src' agt' servers' sess')
  unfolding build_system_message get_cached
  build_system_message-twice src src' now now' agt agt' servers servers' sess sess' c t h ha hs =
      let key : SessionKey = (agt.id, sess.header.id) in
      let c' = (build_system_message src now agt servers sess c).1 in
      let left =
        built-entry now key c (cached now key c) (assemble_message src agt servers sess) t h in
      let same : (agt'.id, sess'.header.id) ≡ key = λ i. (ha i, hs i) in
      built-found now now' (agt'.id, sess'.header.id) c' t
        (assemble_message src' agt' servers' sess') (ap (λ k. lookup k c') same ∙ left)
