-- ===== src/Optimizer/Janitor.antt =====
-- internal/optimizer/janitor/janitor.go. The state is the tables of Postgres and the Redis `R`. Redis is
-- asked for its logs and deletes variants; `taken` is whether Postgres runs an insert.
pub mod Laws
pub mod Evicted
use prompt_graft.Base.{
  ℕ, ◌+◌, Bool, true, false, ◌&&◌, Option, none, some, List, [], ◌∷◌, ◌++◌, is_empty, if◌then◌else◌,
  Bytes,
}
use prompt_graft.Store.Types.{SessionRef, ConversationLog}
use prompt_graft.Store.LogKeys.{scan_log_keys}
use prompt_graft.Store.Pg.{Tables, insert_conversation_log}
use prompt_graft.Store.Pg.Sessions.{UnusedSession, find_unused_variant_sessions}

-- What the janitor calls of Redis.
pub record JanitorRedis (R : Type 0) : Type 0 where
  pub scan : R → List (Option (List Bytes))
  pub read_conversation_logs : R → SessionRef → ℕ → List ConversationLog
  pub delete_variants : R → SessionRef → Bool × R

abbrev pub is_blank : ConversationLog → Bool
is_blank entry = is_empty entry.prompt && is_empty entry.response_text

module _ {F : Type 0} (now : ℕ) (taken : ConversationLog → Bool) where
  abbrev pub counted : Bool × Tables F → ℕ → Tables F × ℕ
  counted (ok, t) inserted = (t, if ok then inserted + 1 else inserted)

  unfoldable pub copy_entries : List ConversationLog → Tables F × ℕ → Tables F × ℕ
  copy_entries [] st = st
  copy_entries (entry ∷ logs) (t, inserted) = copy_entries logs (
      if is_blank entry
      then (t, inserted)
      else counted (insert_conversation_log (taken entry) now t entry) inserted)

-- What the loop of `Run` receives.
pub data Signal : Type 0 where
  tick : ℕ → (ConversationLog → Bool) → Bool → Signal
  stop : Signal

module _ {R : Type 0} (redis : JanitorRedis R) where
  -- The call of `RetireVariants` is commented out; an error of Redis is logged.
  unfoldable pub evict : List UnusedSession → R → R
  evict [] r = r
  evict (unused ∷ sessions) r = evict sessions (redis.delete_variants r unused.ref).1

  abbrev pub evict_found : Option (List UnusedSession) → R → R
  evict_found none r = r
  evict_found (some sessions) r = evict sessions r

module _ {F R : Type 0} (redis : JanitorRedis R) where
  -- The tables, and the number of rows written.
  unfoldable pub copy_sessions :
      ℕ → (ConversationLog → Bool) → R → List SessionRef → Tables F × ℕ → Tables F × ℕ
  copy_sessions now taken r [] st = st
  copy_sessions now taken r (ref ∷ sessions) st =
      copy_sessions now taken r sessions
        (copy_entries now taken (redis.read_conversation_logs r ref 200) st)

  unfoldable pub copy_logs : ℕ → (ConversationLog → Bool) → R → Tables F → Tables F × ℕ
  copy_logs now taken r t = copy_sessions now taken r (scan_log_keys (redis.scan r)) (t, 0)

  unfoldable pub retire_unused : ℕ → Bool → ℕ → Tables F → R → R
  retire_unused now answered ttl t r =
      evict_found redis (find_unused_variant_sessions now answered t.variants t.feedback_events ttl)
        r

  unfoldable pub run : ℕ → List Signal → Tables F × R → Tables F × R
  run ttl [] st = st
  run ttl (stop ∷ signals) st = st
  run ttl (tick now taken answered ∷ signals) (t, r) =
      let next = (copy_logs now taken r t).0 in
      run ttl signals (next, retire_unused now answered ttl next r)
