-- ===== src/Proxy/Output/Laws.antt =====
-- Bounds on the extracted text, and what is extracted from an object.
use prompt_graft.Base.{
  ℕ, ◌≤◌, ◌<◌, Option, none, some, List, [], ◌∷◌, ◌≡◌, refl, Bytes, length, arith, inl, inr,
  length-take, Option-cases,
}
use mathlib.Core.Option
use prompt_graft.Json.{Json, object, Fields, end, field, get_field}
use prompt_graft.Proxy.Output.{
  truncate_string, max_response_text_chars, text_keys, text_at, first_text, extract_text_from_value,
  texts_of_fields, extract_text_output, text_or_nothing,
}

length-truncate_string : (s : Bytes) (max : ℕ) → 0 < max → length (truncate_string s max) ≤ max
unfolding truncate_string
length-truncate_string s max h = ground (arith, length-take max s)

-- No text that is kept for the optimizer is longer than 8000 bytes.
pub length-extract_text_output :
    (parse : Bytes → Option Json) (content_type body : Bytes)
    → length (extract_text_output parse content_type body) ≤ max_response_text_chars
unfolding extract_text_output
length-extract_text_output parse content_type body = ground (
  arith,
  length-truncate_string body 8000 (omega arith),
  length-truncate_string (text_or_nothing (parse body)) 8000 (omega arith),
)

abbrev pub or_later {ℓ} : {A : Type ℓ} → Option A → Option A → Option A
or_later none o = o
or_later (some a) o = some a

text_at-texts_of_fields :
    (fs : Fields) (k : Bytes)
    → text_at (texts_of_fields fs) k ≡ Option.map extract_text_from_value (get_field fs k)
unfolding text_at texts_of_fields get_field
text_at-texts_of_fields end k = refl
text_at-texts_of_fields (field j v fs) k = ground (arith, text_at-texts_of_fields fs k)

-- The value at the first of some keys that an object has.
abbrev pub first_value : List Bytes → Fields → Option Json
first_value [] fs = none
first_value (k ∷ ks) fs = or_later (get_field fs k) (first_value ks fs)

first_text-first_value :
    (ks : List Bytes) (fs : Fields)
    → first_text ks (texts_of_fields fs) ≡ text_or_nothing (first_value ks fs)
unfolding first_text
first_text-first_value [] fs = refl
first_text-first_value (k ∷ ks) fs = elim (Option-cases (get_field fs k)) [
  | inl e ↦ rw (text_at-texts_of_fields fs k, e) (first_text-first_value ks fs)
  | inr (v, e) ↦ rw (text_at-texts_of_fields fs k, e)
]

-- The text of an object is that of its value at the first of `output`, `choices`, `text`, `message`,
-- `content` and `data` that is there, and is empty when none is.
pub extract_object :
    (fs : Fields) → extract_text_from_value (object fs) ≡ text_or_nothing (first_value text_keys fs)
unfolding extract_text_from_value
extract_object fs = first_text-first_value text_keys fs
