-- ===== src/Proxy/PartTests.antt =====
-- The parts of internal/proxy on concrete inputs.
use prompt_graft.Base.{
  ℕ, true, false, Option, none, some, [], ◌∷◌, ◌≡◌, ◌⊎◌, refl, Bytes, codes, arith, Memᴰ, length,
}
use prompt_graft.Base.Float.{Value, num, whole}
use prompt_graft.Text.{contains, replace_first, trim_space, fields, join, to_upper, equal_fold}
use prompt_graft.Store.Types.{Variant, VariantSet}
use prompt_graft.Provider.{answer, Provider}
use prompt_graft.Proxy.Headers.{authorization}
use prompt_graft.Base.{◌≤◌, take}
use prompt_graft.Json.{Fields, null, string, end, field}
use prompt_graft.Proxy.Http.{Reader, Request, Outgoing, Net}
use prompt_graft.Proxy.Headers.Laws.{HasDistinctKeys}
use prompt_graft.Proxy.Segment.Laws.{words_of}
use prompt_graft.Proxy.Forwarder.{Forwarder, build_request}
use prompt_graft.Proxy.Segment.{find_replacement_segment}
use prompt_graft.Proxy.Choice.{pick_weighted_random}
use prompt_graft.Proxy.Inject.{
  Injection, Variants, baseline, accept, inject_variant, inject_chosen, with_variants, inject,
}
use prompt_graft.Proxy.Output.{snippet_string}
use prompt_graft.Proxy.Segment.{blank}
use prompt_graft.Proxy.Segment.Longest.{segment-longest}
use prompt_graft.Proxy.Choice.{total_of, range_of, pick-mem}
use prompt_graft.Proxy.Inject.Laws.{IsInjection, inject_outcome}

-- A provider whose body is the prompt.
abbrev verbatim : Provider
verbatim = record {
  name = codes "verbatim";
  hosts = [];
  extract_system_prompt = λ type body. answer body;
  inject_system_prompt = λ type body prompt. some (answer prompt);
  extract_output_text = λ type body. answer body;
}

abbrev polite : VariantSet Value
polite = record {
  variants = record { id = codes "v1"; system_prompt = codes "be kind"; weight = num 1 } ∷ [];
  active_until = 0;
}

abbrev polite_store : Variants Value
polite_store = record {
  get_variant = λ key session. some (some polite);
  get_session_prompt = λ key session. codes "you are brief";
}

abbrev text : Bytes
text = codes "Hi you are brief now"

abbrev polite_injection : Injection
polite_injection = record {
  variant_id = codes "v1";
  body = codes "Hi be kind now";
  snippet = codes "Hi be kind now";
  prompt = codes "Hi be kind now";
  original = text;
}

inject_polite :
    inject whole 7 (some polite_store) verbatim (codes "k") (codes "s") [] text
    ≡ some polite_injection
unfolding inject with_variants baseline inject_chosen pick_weighted_random inject_variant
    find_replacement_segment trim_space fields contains join accept replace_first snippet_string
inject_polite = refl

inject_outcome_example :
    (polite_injection ≡ baseline verbatim [] text)
    ⊎ ((set : VariantSet Value) × (◌≡◌ {A = Option (Option (VariantSet Value))}
          (some (some polite))
          (some (some set)))
        × IsInjection whole verbatim []
            (codes "you are brief")
            set.variants
            (baseline verbatim [] text)
            polite_injection)
inject_outcome_example =
    inject_outcome whole 7 polite_store verbatim (codes "k") (codes "s") [] text polite_injection
      inject_polite

abbrev network : Net
network = record { parse_url = λ s. none; accepts = λ method url. true; perform = λ o. none }

abbrev https : Forwarder
https = record { default_host = codes "a.io"; default_scheme = codes "https" }

abbrev get_it : Request
get_it = record {
  method = codes "GET";
  path = codes "/v1";
  raw_query = codes "q=1";
  host = codes "proxy";
  header =
      (authorization, codes "Bearer t" ∷ [])
      ∷ (codes "X-PG-Auth", codes "Bearer u" ∷ [])
      ∷ (codes "Accept", codes "*" ∷ codes "text" ∷ [])
      ∷ [];
  body = record { content = []; fails = false };
}

abbrev or_outgoing : Option Outgoing → Outgoing
or_outgoing none = record {
  method = [];
  url = record { scheme = []; host = []; path = []; raw_query = [] };
  header = [];
  host = [];
  body = [];
}
or_outgoing (some o) = o

abbrev got : Outgoing
got = or_outgoing (build_request network https get_it (codes "x"))

built_got : build_request network https get_it (codes "x") ≡ some got
unfolding build_request trim_space equal_fold
built_got = refl

get_it-HasDistinctKeys : HasDistinctKeys get_it.header
unfolding equal_fold to_upper
get_it-HasDistinctKeys = (refl, (refl, (refl, tt)))

abbrev template : Bytes
template = codes "you are brief"

segment_found : find_replacement_segment text template ≡ template
unfolding find_replacement_segment trim_space fields contains join
segment_found = refl

segment-longest_example :
    (m : ℕ) × (3 ≤ m)
    × (m ≤ length (words_of template))
    × (find_replacement_segment text template ≡ join (take m (words_of template)) blank)
unfolding contains trim_space fields join
segment-longest_example = segment-longest text template 3 (ground arith) (ground arith) refl

abbrev half : Variant Value
half = record { id = codes "v2"; system_prompt = []; weight = num 2 }

pick-mem_example :
    ((chosen : Variant Value) × (pick_weighted_random whole 9 (half ∷ half ∷ []) ≡ some chosen)
      × Memᴰ chosen (half ∷ half ∷ []))
    ⊎ ((pick_weighted_random whole 9 (half ∷ half ∷ []) ≡ none)
        × (whole.le (total_of whole (half ∷ half ∷ [])) (num 0) ≡ false)
        × (range_of whole (half ∷ half ∷ []) ≡ 0))
pick-mem_example = pick-mem whole 9 half (half ∷ [])

abbrev three : Reader
three = record { content = codes "abc"; fails = true }

abbrev reply : Fields
reply = field (codes "id") null (field (codes "text") (string (codes "hi")) end)
