-- ===== src/Store/RedisTests.antt =====
-- The keys, the log and the variants of Redis on concrete states.
use prompt_graft.Base.{
  zero, suc, ◌≤◌, ◌<◌, true, Option, none, some, List, [], ◌∷◌, ◌≡◌, refl, take, arith, Bytes,
  codes,
}
use prompt_graft.Base.Int.{pos, negsuc}
use prompt_graft.Base.Float.{Value, num}
use prompt_graft.Store.Types.{Variant, SessionRef}
use prompt_graft.Store.Log.{
  ListCommands, LogCodec, LogEntry, Role, Partial, collect, log_request, log_response,
  request_entry, response_entry,
}
use prompt_graft.Store.Log.Laws.{find, gathered, find-collect}
use prompt_graft.Store.Log.Exchange.{HasTexts, collect-log_response}
use prompt_graft.Store.Variants
use prompt_graft.Store.Variants.{SetCodec, delete_variants}
use prompt_graft.Store.MiniKv.{Cells, no_values, mini_kv, mini_kv-IsKv}
use prompt_graft.Store.Variants.Laws.{set_until, get_variant-set_variants_until}

abbrev ref : SessionRef
ref = record { key_hash = codes "k"; session_id = codes "s" }

abbrev one_variant : List (Variant Value)
one_variant = record { id = codes "v"; system_prompt = codes "be kind"; weight = num 1 } ∷ []

abbrev lists : ListCommands
lists = record {
  lpush = λ e log. e ∷ log;
  ltrim = λ stop log. take (suc stop) log;
  lrange = λ stop log. elim stop [ pos n ↦ some (take (suc n) log) | negsuc n ↦ some log ];
  lpush-front = λ e log. refl;
  ltrim-take = λ stop log. refl;
}

abbrev question : LogEntry
question = request_entry 1 (codes "s") (codes "v") (codes "c") [] [] [] (codes "p")

abbrev reply : LogEntry
reply = response_entry 2 (codes "s") (codes "v") (codes "c") [] (codes "hi") []

abbrev mark_of : Role → Bytes
mark_of Role.request = 1 ∷ []
mark_of Role.response = 2 ∷ []

-- Reads the entry of each role, and nothing else.
abbrev entry_of : Bytes → Option LogEntry
entry_of (suc zero ∷ []) = some question
entry_of (suc (suc zero) ∷ []) = some reply
entry_of _ = none

abbrev json : LogCodec
json = record { encode = λ e. mark_of e.role; decode = entry_of }

abbrev older : List Bytes
older = (7 ∷ []) ∷ (1 ∷ []) ∷ []

find-collect_example :
    find (collect json [] older) (codes "c") ≡ gathered json (codes "c") none older
find-collect_example = find-collect json older [] (codes "c") (λ e. cc)

collect-log_response_example :
    (q : Partial) × (find
        (collect json [] (
          log_response lists json 2 (codes "s") (codes "v") (codes "c") [] (codes "hi") [] (
            log_request lists json 1
              (codes "s")
              (codes "v")
              (codes "c")
              []
              []
              []
              (codes "p")
              older)))
        (codes "c")
      ≡ some q)
    × HasTexts (codes "p") (codes "hi") (codes "v") q
unfolding response_entry
collect-log_response_example =
    collect-log_response (codes "p") (codes "hi") (codes "v") (λ e. cc) (λ e. cc) (λ e. cc) lists
      json older (codes "c") (codes "s") [] [] [] [] [] 1 2 (λ e. cc) refl refl

abbrev codec : SetCodec Value
codec = record {
  encode = λ vs. codes "set";
  decode = λ s. some (record { variants = one_variant; active_until = 65 });
}

abbrev taken : Cells
taken = (Variants.set_variants mini_kv codec 5 no_values ref one_variant 60).1

get_variant-set_variants_until_example :
    (30 < 65
      → Variants.get_variant mini_kv codec 30 taken ref
        ≡ some (some (set_until mini_kv codec one_variant 65)))
    × (0 < 60 → 65 ≤ 30 → Variants.get_variant mini_kv codec 30 taken ref ≡ none)
    × (Variants.get_variant mini_kv codec 5 taken ref
        ≡ some (some (set_until mini_kv codec one_variant 65)))
    × (0 < 65 → 65 < 30 → Variants.get_variant mini_kv codec 30 taken ref ≡ none)
    × ((t : Cells)
        → (delete_variants mini_kv codec t ref).0 ≡ true
        → Variants.get_variant mini_kv codec 30 (delete_variants mini_kv codec t ref).1 ref ≡ none)
unfolding Variants.set_variants
get_variant-set_variants_until_example =
    get_variant-set_variants_until mini_kv codec 5 30 no_values ref one_variant 60 mini_kv-IsKv refl
      (omega arith) refl
