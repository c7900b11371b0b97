-- ===== src/Gepa/Llm/Status.antt =====
-- What the status of a prediction says, and the requests of the Replicate client
-- (internal/optimizer/gepa/llm.go).
use prompt_graft.Base.{ℕ, true, ◌++◌, ◌≡◌, ◌⊎◌, inl, inr, refl, ap, Bytes, codes, ◌==◌, ==_iff}
use prompt_graft.Base.Int.{pos}
use prompt_graft.Text.{equal_fold, to_lower, lower}
use prompt_graft.Json.{Json, null, boolean, number, string, array, object}
use prompt_graft.Proxy.Headers.{get, values, set, del, authorization}
use prompt_graft.Gepa.Llm.{
  Prediction, Call, Service, Replicate, Answer, succeeded, failed_status, status_string, send,
  create_call, poll_call,
}
use prompt_graft.Gepa.Llm.Number.{number_status-succeeded, number_status-failed}

module _ {F W : Type 0} (service : Service F W) where
  -- The status of a prediction, as a text or as a number.
  abbrev pub Says : ℕ → Bytes → Json → Type 0
  Says n name s = (s ≡ string name) ⊎ ((v : Bytes) × (s ≡ number v) × (service.truncate v ≡ pos n))

  pub status_succeeded :
      (s : Json) → (status_string service s == succeeded) ≡ true → Says 3 succeeded s
  unfolding status_string ◌==◌
  status_succeeded (string t) e = inl (ap string ((==_iff t succeeded).0 e))
  status_succeeded (number v) e = inr (v, refl, number_status-succeeded (service.truncate v) e)
  status_succeeded null e = cc
  status_succeeded (boolean b) e = cc
  status_succeeded (array xs) e = cc
  status_succeeded (object fs) e = cc

  pub status_failed :
      (s : Json) → (status_string service s == failed_status) ≡ true → Says 4 failed_status s
  unfolding status_string ◌==◌
  status_failed (string t) e = inl (ap string ((==_iff t failed_status).0 e))
  status_failed (number v) e = inr (v, refl, number_status-failed (service.truncate v) e)
  status_failed null e = cc
  status_failed (boolean b) e = cc
  status_failed (array xs) e = cc
  status_failed (object fs) e = cc

  -- A call that holds the token of the client.
  abbrev pub IsOwn : Replicate F → Call → Type 0
  IsOwn r call = get call.header authorization ≡ codes "Bearer " ++ r.api_token

  pub create_call-IsOwn :
      (r : Replicate F) (system_prompt user_prompt : Bytes)
      → IsOwn r (create_call service r system_prompt user_prompt)
  unfolding create_call get values set del equal_fold to_lower lower ◌==◌
  create_call-IsOwn r system_prompt user_prompt = refl

  pub poll_call-IsOwn : (r : Replicate F) (id : Bytes) → IsOwn r (poll_call service r id)
  unfolding poll_call get values set del equal_fold to_lower lower ◌==◌
  poll_call-IsOwn r id = refl

  -- The client sent a call and got this of it.
  abbrev pub Got : Replicate F → Answer Prediction → Type 0
  Got r x = (call : Call) × (w : W) × IsOwn r call × ((send service call w).0 ≡ x)
