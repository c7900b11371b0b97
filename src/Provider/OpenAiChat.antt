-- ===== src/Provider/OpenAiChat.antt =====
-- internal/provider/openaichat/adapter.go: the prompt is the string at messages[0].content.
use prompt_graft.Base.{Option, none, some, List, [], ◌∷◌, is_empty, if◌then◌else◌, Bytes, codes}
use prompt_graft.Text.{join}
use prompt_graft.Json.{
  string, array, object, Items, nil, cons, Fields, get_field, set_field, as_string, as_object,
  as_array, Payload, fields_of, Codec,
}
use prompt_graft.Provider.{Answer, answer, failing, text_or_empty, Provider}

abbrev pub messages_key : Bytes
messages_key = codes "messages"

abbrev pub content_key : Bytes
content_key = codes "content"

-- The first message, if there is one and it is an object, and the messages behind it.
abbrev pub first_message : Option Items → Option (Fields × Items)
first_message (some (cons (object first) rest)) = some (first, rest)
first_message _ = none

-- The text of a choice: message.content, or else text, where these are strings.
unfoldable pub text_of_choice : Fields → Option Bytes
text_of_choice choice = elim (as_object (get_field choice (codes "message"))) [
  | none ↦ as_string (get_field choice (codes "text"))
  | some msg ↦ elim (as_string (get_field msg content_key)) [
    | none ↦ as_string (get_field choice (codes "text"))
    | some content ↦ some content
  ]
]

abbrev cons_some : Option Bytes → List Bytes → List Bytes
cons_some none ss = ss
cons_some (some s) ss = s ∷ ss

unfoldable pub texts_of_choices : Items → List Bytes
unfolding text_of_choice
texts_of_choices nil = []
texts_of_choices (cons (object choice) xs) = cons_some (text_of_choice choice) (texts_of_choices xs)
texts_of_choices (cons _ xs) = texts_of_choices xs

module _ (codec : Codec) where
  abbrev text_of_message : Option (Fields × Items) → Answer
  text_of_message none = answer []
  text_of_message (some (first, rest)) = text_or_empty (as_string (get_field first content_key))

  extract_from : Option Payload → Answer
  extract_from none = failing []
  extract_from (some payload) =
      text_of_message (first_message (as_array (get_field (fields_of payload) messages_key)))

  unfoldable pub extract_system_prompt : Bytes → Answer
  unfolding extract_from
  extract_system_prompt body = if is_empty body then answer [] else extract_from (codec.decode body)

  inject_into : Bytes → Fields → Option (Fields × Items) → Bytes → Answer
  inject_into body payload none new_prompt = answer body
  inject_into body payload (some (first, rest)) new_prompt = answer (
      codec.encode (
        set_field payload messages_key
          (array (cons (object (set_field first content_key (string new_prompt))) rest))))

  inject_from : Bytes → Option Payload → Bytes → Answer
  unfolding inject_into
  inject_from body none new_prompt = failing body
  inject_from body (some payload) new_prompt =
      inject_into body (fields_of payload)
        (first_message (as_array (get_field (fields_of payload) messages_key))) new_prompt

  unfoldable pub inject_system_prompt : Bytes → Bytes → Answer
  unfolding inject_from
  inject_system_prompt body new_prompt =
      if is_empty body then answer body else inject_from body (codec.decode body) new_prompt

  choices_of : Option Items → Answer
  unfolding texts_of_choices join
  choices_of none = answer []
  choices_of (some xs) = answer (join (texts_of_choices xs) [])

  output_from : Option Payload → Answer
  unfolding choices_of
  output_from none = failing []
  output_from (some payload) =
      choices_of (as_array (get_field (fields_of payload) (codes "choices")))

  unfoldable pub extract_output_text : Bytes → Answer
  unfolding output_from
  extract_output_text body = if is_empty body then answer [] else output_from (codec.decode body)

  abbrev pub openai_chat : Provider
  openai_chat = record {
    name = codes "openai-chat";
    hosts = [];
    extract_system_prompt = λ content_type body. extract_system_prompt body;
    inject_system_prompt =
        λ content_type body new_prompt. some (inject_system_prompt body new_prompt);
    extract_output_text = λ content_type body. extract_output_text body;
  }
