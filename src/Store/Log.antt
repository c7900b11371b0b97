-- ===== src/Store/Log.antt =====
-- internal/store/redis/log.go. A log is the list of texts under its key, newest first; encoding/json is
-- an interface. The expiry of the key is left out. The time of an entry is an argument.
pub mod Laws
pub mod Exchange
use prompt_graft.Base.Int.{ℤ, pos, negsuc}
use prompt_graft.Base.{
  zero, suc, ◌≡◌, ℕ, ◌-◌, Bool, true, false, not, ◌&&◌, Option, none, some, List, [], ◌∷◌, map,
  is_empty, length, take, leb, eqb, if◌then◌else◌, Bytes, codes, ◌==◌,
}
use prompt_graft.Store.Types.{ConversationLog}

pub data Role : Type 0 where
  request : Role
  response : Role

pub record LogEntry : Type 0 where
  pub ts : ℕ
  pub role : Role
  pub content_type : Bytes
  pub prompt_snippet : Bytes
  pub prompt : Bytes
  pub prompt_original : Bytes
  pub variant_id : Bytes
  pub conversation_id : Bytes
  pub response_text : Bytes
  pub response_snippet : Bytes
  pub session_id : Bytes

unfoldable pub snippet_bytes : Bytes → ℕ → Bytes
snippet_bytes body max =
    if is_empty body then [] else if leb (length body) max then body else take max body

-- json.Marshal and json.Unmarshal of an entry; what does not decode is `none`.
pub record LogCodec : Type 0 where
  pub encode : LogEntry → Bytes
  pub decode : Bytes → Option LogEntry

-- The commands of Redis on the list under a key, with what the log relies on: LPUSH puts a text in
-- front, and LTRIM from 0 to `stop` keeps the places up to `stop`. LRANGE starts at 0, and is
-- none on an error.
pub record ListCommands : Type 0 where
  pub lpush : Bytes → List Bytes → List Bytes
  pub ltrim : ℕ → List Bytes → List Bytes
  pub lrange : ℤ → List Bytes → Option (List Bytes)
  pub lpush-front : (raw : Bytes) (log : List Bytes) → lpush raw log ≡ raw ∷ log
  pub ltrim-take : (stop : ℕ) (log : List Bytes) → ltrim stop log ≡ take (suc stop) log

-- LPush, and LTrim to the places 0 to 99
unfoldable pub push : ListCommands → Bytes → List Bytes → List Bytes
push redis raw log = redis.ltrim 99 (redis.lpush raw log)

abbrev pub request_entry : ℕ → Bytes → Bytes → Bytes → Bytes → Bytes → Bytes → Bytes → LogEntry
request_entry now session variant conversation content_type snippet prompt original = record {
  ts = now;
  role = request;
  content_type = content_type;
  prompt_snippet = snippet;
  prompt = prompt;
  prompt_original = original;
  variant_id = variant;
  conversation_id = conversation;
  response_text = [];
  response_snippet = [];
  session_id = session;
}

unfoldable pub log_request :
    ListCommands
    → LogCodec
    → ℕ
    → Bytes
    → Bytes
    → Bytes
    → Bytes
    → Bytes
    → Bytes
    → Bytes
    → List Bytes
    → List Bytes
log_request redis json now session variant conversation content_type snippet prompt original log =
    push redis
      (json.encode
        (request_entry now session variant conversation content_type snippet prompt original))
      log

unfoldable pub response_entry : ℕ → Bytes → Bytes → Bytes → Bytes → Bytes → Bytes → LogEntry
response_entry now session variant conversation content_type text body = record {
  ts = now;
  role = response;
  content_type = content_type;
  prompt_snippet = [];
  prompt = [];
  prompt_original = [];
  variant_id = variant;
  conversation_id = conversation;
  response_text = text;
  response_snippet = snippet_bytes body 400;
  session_id = session;
}

unfoldable pub log_response :
    ListCommands
    → LogCodec
    → ℕ
    → Bytes
    → Bytes
    → Bytes
    → Bytes
    → Bytes
    → Bytes
    → List Bytes
    → List Bytes
log_response redis json now session variant conversation content_type text body log =
    push redis
      (json.encode (response_entry now session variant conversation content_type text body)) log

pub record Partial : Type 0 where
  pub prompt : Bytes
  pub response_text : Bytes
  pub variant_id : Bytes

-- The first text that is not empty, or else the last.
abbrev pub first_text₃ : Bytes → Bytes → Bytes → Bytes
first_text₃ [] [] c = c
first_text₃ [] (x ∷ b) c = x ∷ b
first_text₃ (x ∷ a) b c = x ∷ a

abbrev pub first_text₂ : Bytes → Bytes → Bytes
first_text₂ [] b = b
first_text₂ (x ∷ a) b = x ∷ a

abbrev pub fresh : LogEntry → Partial
fresh e = record { prompt = []; response_text = []; variant_id = e.variant_id }

-- What an entry adds to its conversation: only fields that are still empty are filled.
abbrev pub prompt_in : Role → LogEntry → Bytes → Bytes
prompt_in request e old = first_text₂ old (first_text₃ e.prompt_original e.prompt e.prompt_snippet)
prompt_in response e old = old

abbrev pub response_in : Role → LogEntry → Bytes → Bytes
response_in request e old = old
response_in response e old = first_text₂ old (first_text₂ e.response_text e.response_snippet)

unfoldable pub absorb : LogEntry → Partial → Partial
absorb e p = record {
  prompt = prompt_in e.role e p.prompt;
  response_text = response_in e.role e p.response_text;
  variant_id = first_text₂ p.variant_id e.variant_id;
}

abbrev pub Conversations : Type 0
Conversations = List (Bytes × Partial)

-- m[entry.ConversationID]
unfoldable pub put : Conversations → LogEntry → Conversations
put [] e = (e.conversation_id, absorb e (fresh e)) ∷ []
put ((c, p) ∷ m) e =
    let rest = put m e in if c == e.conversation_id then (c, absorb e p) ∷ m else (c, p) ∷ rest

-- An entry that does not decode, or without a conversation, is skipped.
unfoldable pub collect_one : Conversations → Option LogEntry → Conversations
unfolding put
collect_one m none = m
collect_one m (some e) = if is_empty e.conversation_id then m else put m e

unfoldable pub collect : LogCodec → Conversations → List Bytes → Conversations
collect json m [] = m
collect json m (raw ∷ log) = collect json (collect_one m (json.decode raw)) log

-- int64(maxEntries-1), the last place of the range
abbrev pub last_place : ℕ → ℤ
last_place zero = negsuc 0
last_place (suc n) = pos n

abbrev pub conversation_of : Bytes → Bytes → Bytes × Partial → ConversationLog
conversation_of key_hash session entry = record {
  key_hash = key_hash;
  session_id = session;
  conversation_id = entry.0;
  variant_id = entry.1.variant_id;
  prompt = entry.1.prompt;
  response_text = entry.1.response_text;
}

-- The conversations come in the order in which a map is iterated, which Go leaves open.
unfoldable pub read_conversation_logs :
    ListCommands → LogCodec → Bytes → Bytes → ℕ → List Bytes → List ConversationLog
unfolding collect
read_conversation_logs redis json key_hash session max log =
    elim (redis.lrange (last_place max) log) [
      | none ↦ []
      | some raws ↦ map (conversation_of key_hash session) (collect json [] raws)
    ]
