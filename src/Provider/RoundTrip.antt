-- ===== src/Provider/RoundTrip.antt =====
-- A prompt that is injected into a body is the prompt that is extracted from it.
use prompt_graft.Base.{
  false, Option, none, some, ◌≡◌, refl, ap, is_empty, Bytes, ◌==◌, ==_refl, inl, inr, Option-cases,
}
use prompt_graft.Json.{
  Json, string, array, object, cons, Items, Fields, end, get_field, set_field, get_field-set_field,
  as_string, as_object, as_array, map_of, Codec,
}
use prompt_graft.Provider.{Answer, answer, text_or_empty}
use prompt_graft.Provider.Replicate
use prompt_graft.Provider.Replicate.{input_key, prompt_key}
use prompt_graft.Provider.OpenAiChat
use prompt_graft.Provider.OpenAiChat.{messages_key, content_key, first_message}

-- A body that was made holds the new prompt and all that the old one held elsewhere.
pub record IsInjected (codec : Codec) (extract : Bytes → Answer) (key : Bytes) (old : Fields)
    (new_prompt : Bytes) (result : Answer) : Type 0 where
  pub fields : Fields
  pub decodes : codec.decode result.text ≡ some (map_of fields)
  pub succeeded : result.failed ≡ false
  pub kept : (k : Bytes) → (key == k) ≡ false → get_field fields k ≡ get_field old k
  pub extracted : extract result.text ≡ answer new_prompt

abbrev or_end : Option Fields → Fields
or_end none = end
or_end (some fs) = fs

-- The payload that the Replicate adapter encodes.
abbrev pub replicate_payload : Fields → Bytes → Fields
replicate_payload fs p =
    set_field fs input_key
      (object (set_field (or_end (as_object (get_field fs input_key))) prompt_key (string p)))

-- The payload that the OpenAI adapter encodes for a first message and those behind it.
abbrev pub openai_payload : Fields → Fields → Items → Bytes → Fields
openai_payload fs first rest p =
    set_field fs messages_key (array (cons (object (set_field first content_key (string p))) rest))

get_set_self : (fs : Fields) (k : Bytes) (v : Json) → get_field (set_field fs k v) k ≡ some v
get_set_self fs k v = rw (get_field-set_field fs k v k, ==_refl k)

get_set_other :
    (fs : Fields) (k : Bytes) (v : Json) (j : Bytes)
    → (k == j) ≡ false
    → get_field (set_field fs k v) j ≡ get_field fs j
get_set_other fs k v j ne = rw (get_field-set_field fs k v j, ne)

module _ (codec : Codec) (body : Bytes) (fs : Fields) (p : Bytes) where
  replicate_body :
      is_empty body ≡ false
      → codec.decode body ≡ some (map_of fs)
      → Replicate.inject_system_prompt codec body p
        ≡ some (answer (codec.encode (replicate_payload fs p)))
  unfolding Replicate.inject_system_prompt
  replicate_body full old = elim (Option-cases (as_object (get_field fs input_key))) [
    | inl e ↦ rw (full, old, e)
    | inr (input, e) ↦ rw (full, old, e)
  ]

  replicate_prompt :
      is_empty (codec.encode (replicate_payload fs p)) ≡ false
      → codec.decode (codec.encode (replicate_payload fs p))
        ≡ some (map_of (replicate_payload fs p))
      → Replicate.extract_system_prompt codec (codec.encode (replicate_payload fs p)) ≡ answer p
  unfolding Replicate.extract_system_prompt
  replicate_prompt some_text back =
      rw (some_text, back)
        (rw (get_set_self fs input_key)
          (rw (get_set_self (or_end (as_object (get_field fs input_key))) prompt_key)))

  -- A Replicate body that is an object takes the new prompt: the result decodes to the same fields
  -- but for `input`, and the adapter reads the new prompt from it. The codec must give back the
  -- payload that it was given, as a text that is not empty.
  pub replicate-IsInjected :
      is_empty body ≡ false
      → codec.decode body ≡ some (map_of fs)
      → is_empty (codec.encode (replicate_payload fs p)) ≡ false
      → codec.decode (codec.encode (replicate_payload fs p))
        ≡ some (map_of (replicate_payload fs p))
      → (result : Answer) × (Replicate.inject_system_prompt codec body p ≡ some result)
        × IsInjected codec (Replicate.extract_system_prompt codec) input_key fs p result
  replicate-IsInjected full old some_text back = (
    answer (codec.encode (replicate_payload fs p)),
    replicate_body full old,
    record {
      fields = replicate_payload fs p;
      decodes = back;
      succeeded = refl;
      kept = λ k ne. get_set_other fs input_key _ k ne;
      extracted = replicate_prompt some_text back;
    },
  )

  module _ (first : Fields) (rest : Items) where
    openai_body :
        is_empty body ≡ false
        → codec.decode body ≡ some (map_of fs)
        → first_message (as_array (get_field fs messages_key)) ≡ some (first, rest)
        → OpenAiChat.inject_system_prompt codec body p
          ≡ answer (codec.encode (openai_payload fs first rest p))
    unfolding OpenAiChat.inject_system_prompt
    openai_body full old has = rw (full, old, has)

    openai_prompt :
        is_empty (codec.encode (openai_payload fs first rest p)) ≡ false
        → codec.decode (codec.encode (openai_payload fs first rest p))
          ≡ some (map_of (openai_payload fs first rest p))
        → OpenAiChat.extract_system_prompt codec (codec.encode (openai_payload fs first rest p))
          ≡ answer p
    unfolding OpenAiChat.extract_system_prompt
    openai_prompt some_text back =
        rw (some_text, back)
          (rw (get_set_self fs messages_key)
            (ap text_or_empty (ap as_string (get_set_self first content_key (string p)))))

    -- An OpenAI body whose first message is an object takes the new prompt: the result decodes to the
    -- same fields but for `messages`, and the adapter reads the new prompt from it. The codec must
    -- give back the payload that it was given, as a text that is not empty.
    pub openai-IsInjected :
        is_empty body ≡ false
        → codec.decode body ≡ some (map_of fs)
        → first_message (as_array (get_field fs messages_key)) ≡ some (first, rest)
        → is_empty (codec.encode (openai_payload fs first rest p)) ≡ false
        → codec.decode (codec.encode (openai_payload fs first rest p))
          ≡ some (map_of (openai_payload fs first rest p))
        → IsInjected codec
            (OpenAiChat.extract_system_prompt codec)
            messages_key
            fs
            p
            (OpenAiChat.inject_system_prompt codec body p)
    openai-IsInjected full old has some_text back = rw (openai_body full old has) (record {
      fields = openai_payload fs first rest p;
      decodes = back;
      succeeded = refl;
      kept = λ k ne. get_set_other fs messages_key _ k ne;
      extracted = openai_prompt some_text back;
    })
