-- ===== src/Provider/Replicate.antt =====
-- internal/provider/replicate/adapter.go: the prompt is the string at input.prompt.
use prompt_graft.Base.{Option, none, some, List, [], ◌∷◌, is_empty, if◌then◌else◌, Bytes, codes}
use prompt_graft.Text.{join}
use prompt_graft.Json.{
  Json, string, array, object, Items, nil, cons, Fields, end, get_field, set_field, as_string,
  as_object, Payload, nil_map, map_of, fields_of, Codec,
}
use prompt_graft.Provider.{Answer, answer, failing, text_or_empty, Provider}

abbrev pub input_key : Bytes
input_key = codes "input"

abbrev pub prompt_key : Bytes
prompt_key = codes "prompt"

abbrev pub output_key : Bytes
output_key = codes "output"

-- The strings of an array, joined with nothing between them; items of other types are passed over.
unfoldable pub strings_of : Items → List Bytes
strings_of nil = []
strings_of (cons (string s) xs) = s ∷ strings_of xs
strings_of (cons _ xs) = strings_of xs

module _ (codec : Codec) where
  abbrev prompt_of : Option Fields → Answer
  prompt_of none = answer []
  prompt_of (some input) = text_or_empty (as_string (get_field input prompt_key))

  extract_from : Option Payload → Answer
  extract_from none = failing []
  extract_from (some payload) = prompt_of (as_object (get_field (fields_of payload) input_key))

  unfoldable pub extract_system_prompt : Bytes → Answer
  unfolding extract_from
  extract_system_prompt body = if is_empty body then answer [] else extract_from (codec.decode body)

  -- A missing `input` is made anew, which panics when the map is nil.
  inject_into : Payload → Option Fields → Bytes → Option Answer
  inject_into nil_map none new_prompt = none
  inject_into (map_of fs) none new_prompt = some (
      answer (
        codec.encode
          (set_field fs input_key (object (set_field end prompt_key (string new_prompt))))))
  inject_into payload (some input) new_prompt = some (
      answer (
        codec.encode (
          set_field (fields_of payload) input_key
            (object (set_field input prompt_key (string new_prompt))))))

  inject_from : Bytes → Option Payload → Bytes → Option Answer
  unfolding inject_into
  inject_from body none new_prompt = some (failing body)
  inject_from body (some payload) new_prompt =
      inject_into payload (as_object (get_field (fields_of payload) input_key)) new_prompt

  unfoldable pub inject_system_prompt : Bytes → Bytes → Option Answer
  unfolding inject_from
  inject_system_prompt body new_prompt =
      if is_empty body then some (answer body) else inject_from body (codec.decode body) new_prompt

  output_of : Option Json → Answer
  unfolding strings_of join
  output_of (some (string s)) = answer s
  output_of (some (array xs)) = answer (join (strings_of xs) [])
  output_of _ = answer []

  output_from : Option Payload → Answer
  unfolding output_of
  output_from none = failing []
  output_from (some payload) = output_of (get_field (fields_of payload) output_key)

  unfoldable pub extract_output_text : Bytes → Answer
  unfolding output_from
  extract_output_text body = if is_empty body then answer [] else output_from (codec.decode body)

  abbrev pub replicate : Provider
  replicate = record {
    name = codes "replicate";
    hosts = codes "api.replicate.com" ∷ [];
    extract_system_prompt = λ content_type body. extract_system_prompt body;
    inject_system_prompt = λ content_type body new_prompt. inject_system_prompt body new_prompt;
    extract_output_text = λ content_type body. extract_output_text body;
  }
