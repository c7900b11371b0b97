-- ===== src/Optimizer/JanitorTests.antt =====
-- The janitor (internal/optimizer/janitor/janitor.go) on concrete tables.
use prompt_graft.Base.{
  ℕ, not, is_empty, Bool, true, none, some, [], ◌∷◌, ◌≡◌, refl, Bytes, codes, Memᴰ,
}
use prompt_graft.Store.Types.{SessionRef, ConversationLog}
use prompt_graft.Store.Variants
use prompt_graft.Store.Variants.{SetCodec}
use prompt_graft.Store.MiniKv.{Cells, forever, mini_kv, mini_kv-IsKv}
use prompt_graft.Store.Pg.{Tables}
use prompt_graft.Store.Pg.Rows.{find_log, first}
use prompt_graft.Optimizer.Janitor.{JanitorRedis, copy_logs, retire_unused}
use prompt_graft.Optimizer.Janitor.Laws.{first_copied, logged, with_logs, copy_logs_lem}
use prompt_graft.Optimizer.Janitor.Evicted.{retire_unused_lem}

abbrev ref : SessionRef
ref = record { key_hash = codes "k"; session_id = codes "s" }

abbrev codec : SetCodec ℕ
codec = record {
  encode = λ vs. codes "set";
  decode = λ s. some (record { variants = []; active_until = 65 });
}

abbrev talk : ConversationLog
talk = record {
  key_hash = codes "k";
  session_id = codes "s";
  conversation_id = codes "c";
  variant_id = codes "v";
  prompt = codes "why";
  response_text = codes "so";
}

abbrev redis : JanitorRedis Cells
redis = record {
  scan = λ s. some (codes "pg:log:k:s" ∷ []) ∷ [];
  read_conversation_logs = λ s r n. talk ∷ [];
  delete_variants = λ s r. Variants.delete_variants mini_kv codec s r;
}

abbrev tables : Tables ℕ
tables = record {
  feedback_events = [];
  session_prompts = [];
  best_prompts = [];
  prompt_history = [];
  conversation_logs = [];
  session_metadata = [];
  variants =
      record {
        ref = ref;
        id = codes "v";
        system_prompt = codes "be kind";
        weight = 1;
        active_until = 60;
        retired_at = none;
      }
      ∷ [];
}

abbrev takes_all : ConversationLog → Bool
takes_all e = true

abbrev full : Cells
full k = forever (codes "set")

-- Postgres then refuses the entries without a conversation's name.
abbrev takes_named : ConversationLog → Bool
takes_named e = not (is_empty e.conversation_id)

copy_logs_lem_example :
    ((r : SessionRef) (id : Bytes)
      → find_log r id (copy_logs redis 9 takes_all full tables).0.conversation_logs
        ≡ first (find_log r id []) (first_copied takes_all r id (logged redis full)))
    × ((copy_logs redis 20 takes_named full (copy_logs redis 9 takes_all full tables).0).0
        ≡ (copy_logs redis 9 takes_all full tables).0)
    × ((copy_logs redis 9 takes_all full tables).0
        ≡ with_logs 9 takes_all tables
            (copy_logs redis 9 takes_all full tables).0.conversation_logs)
copy_logs_lem_example = copy_logs_lem 9 20 takes_all takes_named redis full tables (λ e q. refl)

retire_unused_lem_example :
    Variants.get_variant mini_kv codec 50 (retire_unused redis 40 true 10 tables full) ref ≡ none
retire_unused_lem_example =
    retire_unused_lem mini_kv codec redis mini_kv-IsKv (λ s r. refl) (λ s k. refl) 40 10 50 tables
      full ref (_, Memᴰ.head refl, refl, refl) (λ e m own. elim m [ ])
