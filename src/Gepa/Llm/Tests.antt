-- ===== src/Gepa/Llm/Tests.antt =====
-- A service whose responses are written down, and exchanges with it.
use prompt_graft.Base.{
  ℕ, ◌+◌, true, false, Option, none, some, List, [], ◌∷◌, ◌≡◌, refl, Bytes, codes, arith,
}
use prompt_graft.Base.Int.{ℤ, pos}
use prompt_graft.Json.{null, number, string, array, nil, cons}
use prompt_graft.Proxy.Http.{Reader}
use prompt_graft.Gepa.Llm.{
  Prediction, Service, Replicate, timed_out, failed, replied, refused, status_string,
  normalize_output, decode_prediction, send, settle, poll, complete,
}
use prompt_graft.Gepa.Llm.Laws.{IsSteady, Ends, complete-Ends}
use prompt_graft.Gepa.Llm.Choice.{LlmSettings, anthropic_client, new_llm_client, complete_with}

-- The time, and the bodies of the responses to come.
record World : Type 0 where
  time : ℕ
  bodies : List Bytes

abbrev next_body : List Bytes → Option Reader
next_body [] = none
next_body (b ∷ bodies) = some (record { content = b; fails = false })

abbrev bodies_left : List Bytes → List Bytes
bodies_left [] = []
bodies_left (b ∷ bodies) = bodies

-- A body holds the number of the status.
abbrev prediction_of : Bytes → Option Prediction
prediction_of [] = none
prediction_of (c ∷ s) = some (record {
  id = codes "p1";
  status = number (c ∷ []);
  output = array (cons (string (codes "Be ")) (cons null (cons (string (codes "brief.")) nil)));
  error = string (codes "out of memory");
})

abbrev number_of : Bytes → ℤ
number_of [] = pos 0
number_of (c ∷ s) = pos c

abbrev scripted : Service ℕ World
scripted = record {
  now = λ w. (w.time, w);
  sleep = λ n w. record { time = w.time + n; bodies = w.bodies };
  accepts = λ method url. true;
  perform = λ call w. (next_body w.bodies, record { time = w.time; bodies = bodies_left w.bodies });
  marshal = λ fs. [];
  marshal_any = λ v. codes "null";
  float = λ x. null;
  unmarshal = prediction_of;
  truncate = number_of;
  show = λ v. [];
}

scripted-IsSteady : IsSteady scripted (λ w. w.time)
scripted-IsSteady = record {
  reads = λ w. refl;
  now_later = λ w. omega arith;
  perform_later = λ call w. omega arith;
  sleep_later = λ n w. omega arith;
}

-- It waits five seconds.
abbrev client : Replicate ℕ
client = record {
  base_url = codes "https://api.replicate.com/";
  api_token = codes "r8";
  model = codes "m";
  reasoning_effort = [];
  verbosity = [];
  max_completion_tokens = pos 4096;
  temperature = 1;
  top_p = 1;
  presence_penalty = 0;
  frequency_penalty = 0;
  timeout = 5000000000;
}

abbrev world : List Bytes → World
world bodies = record { time = 7; bodies = bodies }

-- Starting, processing, succeeded: two pauses.
served_third :
    complete scripted client [] [] (world ((1 ∷ []) ∷ (2 ∷ []) ∷ (3 ∷ []) ∷ []))
    ≡ some (replied (codes "Be brief."), record { time = 2000000007; bodies = [] })
unfolding complete poll send settle status_string normalize_output decode_prediction
served_third = refl

-- A prediction that was canceled is asked for until the time is over.
canceled_waits :
    complete scripted client [] []
      (world ((5 ∷ []) ∷ (5 ∷ []) ∷ (5 ∷ []) ∷ (5 ∷ []) ∷ (5 ∷ []) ∷ []))
    ≡ some (refused timed_out, record { time = 6000000007; bodies = (5 ∷ []) ∷ [] })
unfolding complete poll send settle status_string normalize_output decode_prediction
canceled_waits = refl

failed_at_once :
    complete scripted client [] [] (world ((4 ∷ []) ∷ []))
    ≡ some (refused (failed (string (codes "out of memory"))), world [])
unfolding complete poll send settle status_string normalize_output decode_prediction
failed_at_once = refl

abbrev settings : Bytes → Bytes → LlmSettings ℕ
settings provider key = record {
  optimizer_llm_provider = provider;
  optimizer_llm_model = codes "m";
  optimizer_llm_api_key = key;
  replicate = client;
}

no_key_is_noop :
    complete_with scripted (new_llm_client (settings (codes "openai") [])) [] [] (world [])
    ≡ some (replied [], world [])
unfolding complete_with new_llm_client
no_key_is_noop = refl

picks_anthropic :
    new_llm_client (settings (codes "anthropic") (codes "k"))
    ≡ anthropic_client (codes "k") (codes "m")
unfolding new_llm_client
picks_anthropic = refl

complete-Ends_example :
    Ends scripted
      (λ w. w.time)
      client
      (world ((1 ∷ []) ∷ (3 ∷ []) ∷ []))
      (complete scripted client (codes "sys") (codes "user") (world ((1 ∷ []) ∷ (3 ∷ []) ∷ [])))
complete-Ends_example =
    complete-Ends scripted (λ w. w.time) scripted-IsSteady client (codes "sys") (codes "user")
      (world ((1 ∷ []) ∷ (3 ∷ []) ∷ []))
