-- ===== src/Gepa/Llm.antt =====
-- The clients of the language model: internal/optimizer/gepa/llm.go. `Service` stands for the clock, the
-- HTTP client, encoding/json and fmt, on a state `W`; `F` are the floating-point numbers of the
-- settings. Times are in nanoseconds. The numbered lines of the debug output are left out.
pub mod Choice
pub mod Number
pub mod Status
pub mod Laws
mod Tests
use prompt_graft.Base.{
  ℕ, ◌+◌, ◌*◌, ◌/◌, zero, suc, Bool, true, false, ◌&&◌, Option, none, some, List, [], ◌∷◌, ◌++◌,
  is_empty, if◌then◌else◌, Bytes, codes, ◌==◌, eqb, ltb, length, take,
}
use prompt_graft.Base.Int.{ℤ, pos, eqb_ℤ}
use prompt_graft.Base.Decimal.{int_to_string}
use prompt_graft.Text.{join}
use prompt_graft.Json.{
  Json, null, boolean, number, string, array, object, Items, nil, cons, Fields, end, field,
}
use prompt_graft.Proxy.Headers.{Header, set, authorization}
use prompt_graft.Proxy.Http.{Reader}

-- replicatePredictionResponse; an `any` that is missing is nil, which is `null`.
pub record Prediction : Type 0 where
  pub id : Bytes
  pub status : Json
  pub output : Json
  pub error : Json

-- A request as it is handed to the HTTP client
pub record Call : Type 0 where
  pub method : Bytes
  pub url : Bytes
  pub header : Header
  pub body : Bytes

pub record Service (F W : Type 0) : Type 0 where
  -- time.Now, time.Sleep
  pub now : W → ℕ × W
  pub sleep : ℕ → W → W
  -- http.NewRequestWithContext takes the method and the URL
  pub accepts : Bytes → Bytes → Bool
  -- client.Do, and the body of its response
  pub perform : Call → W → Option Reader × W
  -- json.Marshal of an object and of an `any`, and of a float64; json.Unmarshal of a prediction
  pub marshal : Fields → Bytes
  pub marshal_any : Json → Bytes
  pub float : F → Json
  pub unmarshal : Bytes → Option Prediction
  -- int(v) of a JSON number, and %v of an `any`
  pub truncate : Bytes → ℤ
  pub show : Json → Bytes

-- ReplicateClient
pub record Replicate (F : Type 0) : Type 0 where
  pub base_url : Bytes
  pub api_token : Bytes
  pub model : Bytes
  pub reasoning_effort : Bytes
  pub verbosity : Bytes
  pub max_completion_tokens : ℤ
  pub temperature : F
  pub top_p : F
  pub presence_penalty : F
  pub frequency_penalty : F
  pub timeout : ℕ

-- The errors of the clients. One that does not decode holds the start of the body.
pub data Failure : Type 0 where
  no_token : Failure
  no_model : Failure
  bad_request : Failure
  no_response : Failure
  unreadable : Failure
  undecoded : Bytes → Failure
  failed : Json → Failure
  timed_out : Failure
  not_implemented : Failure

pub data Answer (A : Type 0) : Type 0 where
  replied : A → Answer A
  refused : Failure → Answer A

-- strings.TrimRight(s, "/")
unfoldable pub trim_right_slash : Bytes → Bytes
trim_right_slash [] = []
trim_right_slash (c ∷ s) =
    let rest = trim_right_slash s in if is_empty rest && eqb c 47 then [] else c ∷ rest

-- The strings among the items of an array.
unfoldable pub item_texts : Items → List Bytes
item_texts nil = []
item_texts (cons (string s) items) = s ∷ item_texts items
item_texts (cons item items) = item_texts items

-- The first of some texts that is not empty, or else the empty one.
unfoldable pub first_non_empty : List Bytes → Bytes
first_non_empty [] = []
first_non_empty (v ∷ values) = let rest = first_non_empty values in if is_empty v then rest else v

unfoldable pub snippet : Bytes → Bytes
snippet raw = if ltb 500 (length raw) then take 500 raw else raw

abbrev pub succeeded : Bytes
succeeded = codes "succeeded"

abbrev pub failed_status : Bytes
failed_status = codes "failed"

-- The name of a status that is given as a number.
unfoldable pub number_status : ℤ → Bytes
number_status n =
    if eqb_ℤ n (pos 1)
    then codes "starting"
    else (if eqb_ℤ n (pos 2)
        then codes "processing"
        else (if eqb_ℤ n (pos 3)
            then succeeded
            else (if eqb_ℤ n (pos 4)
                then failed_status
                else (if eqb_ℤ n (pos 5)
                    then codes "canceled"
                    else codes "unknown_" ++ int_to_string n))))

-- time.Sleep(2 * time.Second)
abbrev pub pause : ℕ
pause = 2000000000

-- The rounds that a poll can take.
abbrev pub rounds : ℕ → ℕ
rounds timeout = suc (suc (timeout / pause))

module _ {F W : Type 0} (service : Service F W) where
  unfoldable pub status_string : Json → Bytes
  unfolding number_status
  status_string (string s) = s
  status_string (number v) = number_status (service.truncate v)
  status_string s = codes "unknown_" ++ service.show s

  unfoldable pub normalize_output : Json → Bytes
  unfolding item_texts join
  normalize_output (string s) = s
  normalize_output (array items) = join (item_texts items) []
  normalize_output out = service.marshal_any out

  abbrev pub decoded_prediction : Bytes → Option Prediction → Answer Prediction
  decoded_prediction raw none = refused (undecoded (snippet raw))
  decoded_prediction raw (some p) = replied p

  unfoldable pub decode_prediction : Reader → Answer Prediction
  decode_prediction reader =
      if reader.fails
      then refused unreadable
      else decoded_prediction reader.content (service.unmarshal reader.content)

  abbrev pub received : Option Reader × W → Answer Prediction × W
  received (none, w) = (refused no_response, w)
  received (some reader, w) = (decode_prediction reader, w)

  -- What becomes of a request, up to the prediction.
  unfoldable pub send : Call → W → Answer Prediction × W
  send call w =
      if service.accepts call.method call.url
      then received (service.perform call w)
      else (refused bad_request, w)

  -- What a prediction says of the end of the work, if it has ended.
  unfoldable pub settle : Prediction → Option (Answer Bytes)
  unfolding ◌==◌
  settle p =
      if status_string p.status == succeeded
      then some (replied (normalize_output p.output))
      else (if status_string p.status == failed_status
          then some (refused (failed p.error))
          else none)

  abbrev pub predictions_url : Replicate F → Bytes
  predictions_url r = trim_right_slash r.base_url ++ codes "/v1/predictions"

  abbrev pub with_token : Replicate F → Header
  with_token r = set [] authorization (codes "Bearer " ++ r.api_token)

  abbrev pub input_of : Replicate F → Bytes → Bytes → Fields
  input_of r system_prompt user_prompt = field (codes "system_prompt") (string system_prompt) (
      field (codes "prompt") (string user_prompt) (
        field (codes "max_completion_tokens") (number (int_to_string r.max_completion_tokens)) (
          field (codes "temperature") (service.float r.temperature) (
            field (codes "top_p") (service.float r.top_p) (
              field (codes "presence_penalty") (service.float r.presence_penalty) (
                field (codes "frequency_penalty") (service.float r.frequency_penalty) (
                  field (codes "reasoning_effort") (string r.reasoning_effort)
                    (field (codes "verbosity") (string r.verbosity) end))))))))

  unfoldable pub create_call : Replicate F → Bytes → Bytes → Call
  create_call r system_prompt user_prompt = record {
    method = codes "POST";
    url = predictions_url r;
    header =
        set (set (with_token r) (codes "Content-Type") (codes "application/json")) (codes "Prefer")
          (codes "wait=60");
    body = service.marshal (
        field (codes "version") (string r.model)
          (field (codes "input") (object (input_of r system_prompt user_prompt)) end));
  }

  unfoldable pub poll_call : Replicate F → Bytes → Call
  poll_call r id = record {
    method = codes "GET";
    url = predictions_url r ++ codes "/" ++ id;
    header = with_token r;
    body = [];
  }

  -- One prediction that was received: an answer, or the rest of the work.
  abbrev pub ended :
      Answer Prediction × W
      → (Prediction → W → Option (Answer Bytes × W))
      → Option (Answer Bytes × W)
  ended (refused e, w) rest = some (refused e, w)
  ended (replied p, w) rest = elim (settle p) [ none ↦ rest p w | some a ↦ some (a, w) ]

  unfoldable pub poll : ℕ → Replicate F → Bytes → ℕ → W → Option (Answer Bytes × W)
  poll zero r id deadline w = none
  poll (suc n) r id deadline w =
      let (time, next) = service.now w in
      if ltb deadline time
      then some (refused timed_out, next)
      else ended (send (poll_call r id) next)
          (λ p after. poll n r id deadline (service.sleep pause after))

  unfoldable pub complete : Replicate F → Bytes → Bytes → W → Option (Answer Bytes × W)
  complete r system_prompt user_prompt w =
      if is_empty r.api_token
      then some (refused no_token, w)
      else (if is_empty r.model
          then some (refused no_model, w)
          else ended (send (create_call r system_prompt user_prompt) w) (λ p after.
            let (time, next) = service.now after in
            poll (rounds r.timeout) r p.id (time + r.timeout) next))
