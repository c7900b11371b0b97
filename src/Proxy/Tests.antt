-- ===== src/Proxy/Tests.antt =====
-- The handler of internal/proxy/handler.go on a concrete request.
use prompt_graft.Base.{true, false, Option, none, some, [], ◌∷◌, ◌≡◌, ◌⊎◌, refl, codes, ◌==◌}
use prompt_graft.Base.Float.{Value, num, whole}
use prompt_graft.Text.{
  has_prefix, contains, index, replace_first, is_space, trim_left, trim_space, fields, join,
  to_lower, to_upper, equal_fold,
}
use prompt_graft.Store.Types.{Variant, VariantSet}
use prompt_graft.Provider.{answer, Provider, new_registry, find, lookup}
use prompt_graft.Proxy.Headers.{values, get, authorization}
use prompt_graft.Proxy.Http.{Request, Outgoing, Response, Net}
use prompt_graft.Proxy.Headers.Laws.{HasDistinctKeys}
use prompt_graft.Proxy.Handler.Laws.{own_or_token, sent_authorized, sent-IsClean, sent_verbatim}
use prompt_graft.Proxy.Handler.Answers.{Announces, served-Announces}
use prompt_graft.Proxy.Forwarder.{Forwarder, upstream_auth, build_request}
use prompt_graft.Proxy.Forwarder.Laws.{IsClean}
use prompt_graft.Proxy.Auth.{valid_bearer_token}
use prompt_graft.Proxy.Body.{is_streamed, stream_or_buffer}
use prompt_graft.Proxy.Segment.{longest_prefix, any_window, search_words, find_replacement_segment}
use prompt_graft.Proxy.Choice.{total_weight, reach, pick_weighted_random}
use prompt_graft.Proxy.Inject.{
  Injection, Variants, baseline, accept, inject_variant, inject_chosen, with_variants, inject,
}
use prompt_graft.Proxy.Records.{Settings, Env, Served}
use prompt_graft.Proxy.Handler.{
  conversation_id, api_style, choose_adapter, with_upstream_auth, respond, forwarded, serve_http,
  own_answer, injected, session_of,
}

-- A provider whose body is the prompt.
abbrev plain : Provider
plain = record {
  name = codes "plain";
  hosts = [];
  extract_system_prompt = λ type body. answer body;
  inject_system_prompt = λ type body prompt. some (answer prompt);
  extract_output_text = λ type body. answer body;
}

abbrev kind : Variant Value
kind = record { id = codes "v1"; system_prompt = codes "be kind"; weight = num 1 }

abbrev kind_set : VariantSet Value
kind_set = record { variants = kind ∷ []; active_until = 0 }

abbrev kind_store : Variants Value
kind_store = record {
  get_variant = λ key session. some (some kind_set);
  get_session_prompt = λ key session. codes "you are brief";
}

abbrev echo : Net
echo = record {
  parse_url = λ s. none;
  accepts = λ method url. true;
  perform = λ o. some (record { status = 200; header = []; body = o.body });
}

abbrev to_default : Forwarder
to_default = record { default_host = codes "a.io"; default_scheme = codes "https" }

abbrev settings : Settings
settings = record {
  auth_token = codes "t";
  default_upstream_host = codes "a.io";
  api_key_salt = [];
  max_buffer_bytes = 64;
  replicate_api_token = codes "r";
}

abbrev env_of : Option (Variants Value) → Env Value
env_of store = record {
  cfg = settings;
  store = store;
  registry = new_registry plain;
  styles = none;
  forwarder = to_default;
  net = echo;
  now = 7;
  new_session_id = codes "s1";
  digest = λ s. codes "d";
  parse = λ s. none;
}

abbrev post : Request
post = record {
  method = codes "POST";
  path = codes "/v1";
  raw_query = [];
  host = codes "proxy";
  header = (authorization, codes "Bearer t" ∷ []) ∷ (codes "Accept", codes "*" ∷ []) ∷ [];
  body = record { content = codes "Hi you are brief now"; fails = false };
}

abbrev served : Option Served → Served
served none = own_answer [] 0 [] []
served (some out) = out

abbrev sent_by : Served → Option Outgoing → Outgoing
sent_by out none = record {
  method = [];
  url = record { scheme = []; host = []; path = []; raw_query = [] };
  header = [];
  host = [];
  body = [];
}
sent_by out (some o) = o

abbrev run_of : Option (Variants Value) → Served
run_of store = served (serve_http whole (env_of store) [] post)

abbrev sent_of : Option (Variants Value) → Outgoing
sent_of store = sent_by (run_of store) (run_of store).sent

served_kind : serve_http whole (env_of (some kind_store)) [] post ≡ some (run_of (some kind_store))
unfolding serve_http forwarded respond inject with_variants inject_chosen inject_variant accept
    pick_weighted_random total_weight reach baseline stream_or_buffer is_streamed valid_bearer_token
    find_replacement_segment search_words longest_prefix any_window replace_first index contains
    has_prefix to_lower to_upper trim_space trim_left is_space fields join get values ◌==◌
    equal_fold choose_adapter api_style lookup find new_registry
served_kind = refl

sent_kind : (run_of (some kind_store)).sent ≡ some (sent_of (some kind_store))
unfolding serve_http forwarded respond inject with_variants inject_chosen inject_variant accept
    pick_weighted_random total_weight reach baseline stream_or_buffer is_streamed valid_bearer_token
    find_replacement_segment search_words longest_prefix any_window replace_first index contains
    has_prefix to_lower to_upper trim_space trim_left is_space fields join get values ◌==◌
    equal_fold choose_adapter api_style lookup find new_registry build_request with_upstream_auth
sent_kind = refl

body_kind : (sent_of (some kind_store)).body ≡ codes "Hi be kind now"
unfolding serve_http forwarded respond inject with_variants inject_chosen inject_variant accept
    pick_weighted_random total_weight reach baseline stream_or_buffer is_streamed valid_bearer_token
    find_replacement_segment search_words longest_prefix any_window replace_first index contains
    has_prefix to_lower to_upper trim_space trim_left is_space fields join get values ◌==◌
    equal_fold choose_adapter api_style lookup find new_registry build_request with_upstream_auth
body_kind = refl

served_none : serve_http whole (env_of none) [] post ≡ some (run_of none)
unfolding serve_http forwarded respond inject with_variants inject_chosen inject_variant accept
    pick_weighted_random total_weight reach baseline stream_or_buffer is_streamed valid_bearer_token
    find_replacement_segment search_words longest_prefix any_window replace_first index contains
    has_prefix to_lower to_upper trim_space trim_left is_space fields join get values ◌==◌
    equal_fold choose_adapter api_style lookup find new_registry
served_none = refl

sent_none : (run_of none).sent ≡ some (sent_of none)
unfolding serve_http forwarded respond inject with_variants inject_chosen inject_variant accept
    pick_weighted_random total_weight reach baseline stream_or_buffer is_streamed valid_bearer_token
    find_replacement_segment search_words longest_prefix any_window replace_first index contains
    has_prefix to_lower to_upper trim_space trim_left is_space fields join get values ◌==◌
    equal_fold choose_adapter api_style lookup find new_registry build_request with_upstream_auth
sent_none = refl

post-HasDistinctKeys : HasDistinctKeys post.header
unfolding equal_fold to_upper
post-HasDistinctKeys = (refl, (refl, tt))

sent_authorized_example :
    (settings.auth_token ≡ [])
    ⊎ (valid_bearer_token (get post.header authorization) settings.auth_token ≡ true)
sent_authorized_example =
    sent_authorized whole (env_of (some kind_store)) [] post (run_of (some kind_store))
      (sent_of (some kind_store)) served_kind sent_kind

sent-IsClean_example :
    IsClean post.header
      (own_or_token (get post.header upstream_auth) settings.replicate_api_token)
      (sent_of (some kind_store)).header
    × ((sent_of (some kind_store)).method ≡ codes "POST")
sent-IsClean_example =
    sent-IsClean whole (env_of (some kind_store)) [] post (run_of (some kind_store))
      (sent_of (some kind_store)) post-HasDistinctKeys served_kind sent_kind

sent_verbatim_example : (sent_of none).body ≡ codes "Hi you are brief now"
unfolding stream_or_buffer is_streamed has_prefix to_lower trim_space trim_left is_space get values
    equal_fold to_upper
sent_verbatim_example =
    sent_verbatim whole (env_of none) [] post (run_of none) (sent_of none) post-HasDistinctKeys
      (λ st e. cc) refl served_none sent_none

abbrev kind_response : Response
kind_response = record { status = 200; header = []; body = (sent_of (some kind_store)).body }

served-Announces_example :
    (inj : Injection) × (injected whole (env_of (some kind_store)) post ≡ some inj)
    × ((run_of (some kind_store)).status ≡ 200)
    × ((run_of (some kind_store)).body ≡ kind_response.body)
    × Announces []
        (run_of (some kind_store)).header
        (session_of whole (env_of (some kind_store)) post)
        (conversation_id (λ s. codes "d") inj.prompt)
        inj.variant_id
served-Announces_example =
    served-Announces whole (env_of (some kind_store)) [] post (run_of (some kind_store))
      (sent_of (some kind_store)) kind_response served_kind sent_kind refl
