-- ===== src/Provider/Tests.antt =====
-- The providers' adapters on concrete bodies.
use prompt_graft.Base.{some, ◌≡◌, refl, if◌then◌else◌, codes, ◌==◌}
use prompt_graft.Json.{
  string, array, object, nil, cons, Fields, end, field, get_field, map_of, Codec,
}
use prompt_graft.Provider.{Answer}
use prompt_graft.Provider.Replicate
use prompt_graft.Provider.Replicate.{input_key, prompt_key}
use prompt_graft.Provider.OpenAiChat
use prompt_graft.Provider.OpenAiChat.{messages_key, content_key}
use prompt_graft.Provider.RoundTrip.{
  IsInjected, replicate_payload, openai_payload, replicate-IsInjected, openai-IsInjected,
}

-- A codec that knows one body and what is made of it.
abbrev known : Fields → Fields → Codec
known old new = record {
  decode = λ s. if s == codes "old" then some (map_of old) else some (map_of new);
  encode = λ fs. codes "new";
}

abbrev input : Fields
input =
    field (codes "version") (string (codes "1"))
      (field input_key (object (field prompt_key (string (codes "a")) end)) end)

abbrev replicate_codec : Codec
replicate_codec = known input (replicate_payload input (codes "b"))

replicate-IsInjected_example :
    (result : Answer) × (Replicate.inject_system_prompt replicate_codec (codes "old") (codes "b")
      ≡ some result)
    × IsInjected replicate_codec
        (Replicate.extract_system_prompt replicate_codec)
        input_key
        input
        (codes "b")
        result
unfolding ◌==◌
replicate-IsInjected_example =
    replicate-IsInjected replicate_codec (codes "old") input (codes "b") refl refl refl refl

abbrev first : Fields
first = field (codes "role") (string (codes "system")) (field content_key (string (codes "a")) end)

abbrev chat : Fields
chat = field messages_key (array (cons (object first) nil)) end

abbrev chat_codec : Codec
chat_codec = known chat (openai_payload chat first nil (codes "b"))

openai-IsInjected_example :
    IsInjected chat_codec
      (OpenAiChat.extract_system_prompt chat_codec)
      messages_key
      chat
      (codes "b")
      (OpenAiChat.inject_system_prompt chat_codec (codes "old") (codes "b"))
unfolding ◌==◌ get_field
openai-IsInjected_example =
    openai-IsInjected chat_codec (codes "old") chat (codes "b") first nil refl refl refl refl refl
