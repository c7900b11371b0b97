-- ===== src/Proxy/Output.antt =====
-- The text of a response: `extractTextOutput`, `extractTextFromValue`, `truncateString` and
-- `snippetString` of internal/proxy/handler.go. `parse` is json.Unmarshal into an `any`.
pub mod Laws
use prompt_graft.Base.{
  ℕ, ◌*◌, Bool, true, false, Option, none, some, List, [], ◌∷◌, is_empty, if◌then◌else◌, Bytes,
  codes, length, take, leb, ltb, eqb, ◌==◌, ◌||◌, not,
}
use prompt_graft.Text.{has_prefix, contains, join}
use prompt_graft.Json.{
  Json, null, boolean, number, string, array, object, Items, nil, cons, Fields, end, field,
}

abbrev pub max_response_text_chars : ℕ
max_response_text_chars = 8000

abbrev pub max_response_parse_bytes : ℕ
max_response_parse_bytes = 2 * 1024 * 1024

unfoldable pub truncate_string : Bytes → ℕ → Bytes
truncate_string s max = if eqb max 0 || leb (length s) max then s else take max s

unfoldable pub snippet_string : Bytes → ℕ → Bytes
snippet_string s max = if leb (length s) max then s else take max s

-- The keys of an object that are looked at, in order.
abbrev pub text_keys : List Bytes
text_keys =
    codes "output"
    ∷ codes "choices"
    ∷ codes "text"
    ∷ codes "message"
    ∷ codes "content"
    ∷ codes "data"
    ∷ []

unfoldable pub text_at : List (Bytes × Bytes) → Bytes → Option Bytes
text_at [] k = none
text_at ((j, s) ∷ texts) k = if j == k then some s else text_at texts k

abbrev pub or_next : Option Bytes → Bytes → Bytes
or_next none next = next
or_next (some s) next = s

-- `if val, ok := t[k]; ok { return … }` for each key in turn
unfoldable pub first_text : List Bytes → List (Bytes × Bytes) → Bytes
unfolding text_at
first_text [] texts = []
first_text (k ∷ ks) texts = or_next (text_at texts k) (first_text ks texts)

-- The texts of an object's values are computed field by field, and the one that is wanted is taken.
unfoldable mutual
  unfolding first_text join

  pub extract_text_from_value : Json → Bytes
  extract_text_from_value null = []
  extract_text_from_value (boolean b) = []
  extract_text_from_value (number n) = []
  extract_text_from_value (string s) = s
  extract_text_from_value (array xs) = join (texts_of_items xs) []
  extract_text_from_value (object fs) = first_text text_keys (texts_of_fields fs)

  -- The items whose text is not empty
  pub texts_of_items : Items → List Bytes
  texts_of_items nil = []
  texts_of_items (cons v xs) =
      let s = extract_text_from_value v in
      let rest = texts_of_items xs in if is_empty s then rest else s ∷ rest

  pub texts_of_fields : Fields → List (Bytes × Bytes)
  texts_of_fields end = []
  texts_of_fields (field k v fs) = (k, extract_text_from_value v) ∷ texts_of_fields fs

abbrev pub text_or_nothing : Option Json → Bytes
text_or_nothing none = []
text_or_nothing (some v) = extract_text_from_value v

unfoldable pub extract_text_output : (Bytes → Option Json) → Bytes → Bytes → Bytes
extract_text_output parse content_type body =
    if is_empty body
    then []
    else if has_prefix content_type (codes "text/")
    then truncate_string body max_response_text_chars
    else if not (contains content_type (codes "application/json"))
    then []
    else if ltb max_response_parse_bytes (length body)
    then []
    else truncate_string (text_or_nothing (parse body)) max_response_text_chars
