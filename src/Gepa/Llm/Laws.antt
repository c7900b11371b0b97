-- ===== src/Gepa/Llm/Laws.antt =====
-- The ends of `Complete` of the Replicate client (internal/optimizer/gepa/llm.go).
use prompt_graft.Base.{
  ℕ, ◌+◌, ◌*◌, ◌/◌, ◌<◌, ◌≤◌, zero, suc, Bool, true, false, Option, none, some, [], ◌∷◌, ◌≡◌, inl,
  inr, refl, ap, subst, is_empty, if◌then◌else◌, Bytes, ◌==◌, ltb, arith, Bool-cases,
}
use prompt_graft.Proxy.Http.{Reader}
use prompt_graft.Gepa.Llm.{
  Prediction, Call, Service, Replicate, Failure, no_token, no_model, bad_request, no_response,
  unreadable, undecoded, failed, timed_out, not_implemented, Answer, replied, refused, succeeded,
  failed_status, status_string, normalize_output, decoded_prediction, decode_prediction, received,
  send, settle, create_call, poll_call, pause, ended, poll, complete,
}
use prompt_graft.Gepa.Llm.Status.{
  Says, status_succeeded, status_failed, IsOwn, create_call-IsOwn, poll_call-IsOwn, Got,
}

nil_of_empty : (s : Bytes) → is_empty s ≡ true → s ≡ []
nil_of_empty [] e = refl
nil_of_empty (c ∷ s) e = cc

some-inj {ℓ} : {A : Type ℓ} {x y : A} → some x ≡ some y → x ≡ y
some-inj e = cc

module _ {F W : Type 0} (service : Service F W) (clock : W → ℕ) where
  -- The clock is never set back, and a pause takes its time.
  pub record IsSteady : Type 0 where
    pub reads : (w : W) → (service.now w).0 ≡ clock w
    pub now_later : (w : W) → clock w ≤ clock (service.now w).1
    pub perform_later : (call : Call) (w : W) → clock w ≤ clock (service.perform call w).1
    pub sleep_later : (n : ℕ) (w : W) → clock w + n ≤ clock (service.sleep n w)

  -- What an answer says of the exchange that began in one state and ended in another.
  abbrev pub Accounts : Replicate F → W → W → Answer Bytes → Type 0
  Accounts r start end (replied t) =
      (p : Prediction) × Got service r (replied p)
      × Says service 3 succeeded p.status
      × (t ≡ normalize_output service p.output)
  Accounts r start end (refused (failed e)) =
      (p : Prediction) × Got service r (replied p)
      × Says service 4 failed_status p.status
      × (e ≡ p.error)
  Accounts r start end (refused no_token) = r.api_token ≡ []
  Accounts r start end (refused no_model) = r.model ≡ []
  Accounts r start end (refused timed_out) = clock start + r.timeout < clock end
  Accounts r start end (refused not_implemented) = ⊥
  Accounts r start end (refused e) = Got service r (refused e)

  abbrev pub Ends : Replicate F → W → Option (Answer Bytes × W) → Type 0
  Ends r start o =
      (answer : Answer Bytes) × (end : W) × (o ≡ some (answer, end)) × Accounts r start end answer

  abbrev IsLost : Failure → Type 0
  IsLost bad_request = Unit
  IsLost no_response = Unit
  IsLost unreadable = Unit
  IsLost (undecoded raw) = Unit
  IsLost e = ⊥

  abbrev LostIn : Answer Prediction → Type 0
  LostIn (refused e) = IsLost e
  LostIn (replied p) = Unit

  lost_if : (b : Bool) (x y : Answer Prediction) → LostIn x → LostIn y → LostIn (if b then x else y)
  lost_if true x y h k = h
  lost_if false x y h k = k

  decoded-LostIn : (raw : Bytes) (o : Option Prediction) → LostIn (decoded_prediction service raw o)
  decoded-LostIn raw none = tt
  decoded-LostIn raw (some p) = tt

  decode-LostIn : (reader : Reader) → LostIn (decode_prediction service reader)
  unfolding decode_prediction
  decode-LostIn reader =
      lost_if reader.fails (refused unreadable)
        (decoded_prediction service reader.content (service.unmarshal reader.content)) tt
        (decoded-LostIn reader.content (service.unmarshal reader.content))

  received-LostIn : (x : Option Reader × W) → LostIn (received service x).0
  received-LostIn (none, w) = tt
  received-LostIn (some reader, w) = decode-LostIn reader

  send-LostIn : (call : Call) (w : W) → LostIn (send service call w).0
  unfolding send
  send-LostIn call w = elim (Bool-cases (service.accepts call.method call.url)) [
    | inl e ↦ rw e (received-LostIn (service.perform call w))
    | inr e ↦ rw e tt
  ]

  received_end : (x : Option Reader × W) → (received service x).1 ≡ x.1
  received_end (none, w) = refl
  received_end (some reader, w) = refl

  send_later : IsSteady → (call : Call) (w : W) → clock w ≤ clock (send service call w).1
  unfolding send
  send_later steady call w = elim (Bool-cases (service.accepts call.method call.url)) [
    | inl e ↦ rw (e, received_end (service.perform call w)) (steady.perform_later call w)
    | inr e ↦ rw e (omega arith)
  ]

  refused-Accounts :
      (r : Replicate F) (start end : W) (e : Failure)
      → IsLost e
      → Got service r (refused e)
      → Accounts r start end (refused e)
  refused-Accounts r start end bad_request h got = got
  refused-Accounts r start end no_response h got = got
  refused-Accounts r start end unreadable h got = got
  refused-Accounts r start end (undecoded raw) h got = got
  refused-Accounts r start end no_token h got = absurd h
  refused-Accounts r start end no_model h got = absurd h
  refused-Accounts r start end (failed e) h got = absurd h
  refused-Accounts r start end timed_out h got = absurd h
  refused-Accounts r start end not_implemented h got = absurd h

  settle_lem :
      (r : Replicate F) (start end : W) (p : Prediction) (answer : Answer Bytes)
      → Got service r (replied p)
      → settle service p ≡ some answer
      → Accounts r start end answer
  unfolding settle
  settle_lem r start end p answer got e =
      elim (Bool-cases (status_string service p.status == succeeded)) [
        | inl holds ↦
            let same : replied (normalize_output service p.output) ≡ answer =
              some-inj (rw holds at e) in
            subst (Accounts r start end) same
              (p, got, status_succeeded service p.status holds, refl)
        | inr differs ↦ elim (Bool-cases (status_string service p.status == failed_status)) [
          | inl holds ↦
              let same : refused (failed p.error) ≡ answer = some-inj (rw (differs, holds) at e) in
              subst (Accounts r start end) same (p, got, status_failed service p.status holds, refl)
          | inr other ↦ let bad : none ≡ some answer = rw (differs, other) at e in cc
        ]
      ]

  -- A request ends the exchange, or what comes after it does.
  module _ (steady : IsSteady) (r : Replicate F) (start : W) (call : Call)
      (own : IsOwn service r call) (w : W) (rest : Prediction → W → Option (Answer Bytes × W))
      (after : (p : Prediction) (next : W)
        → clock w ≤ clock next
        → Ends r start (rest p next)) where
    settled_Ends :
        (p : Prediction) (next : W) (o : Option (Answer Bytes))
        → clock w ≤ clock next
        → Got service r (replied p)
        → settle service p ≡ o
        → Ends r start (elim o [ none ↦ rest p next | some a ↦ some (a, next) ])
    settled_Ends p next none h got e = after p next h
    settled_Ends p next (some a) h got e = (a, next, refl, settle_lem r start next p a got e)

    ended_by :
        (x : Answer Prediction × W) → send service call w ≡ x → Ends r start (ended service x rest)
    ended_by (refused e, next) q =
        let sent : (send service call w).0 ≡ refused e =
          ap (λ (y : Answer Prediction × W). y.0) q in
        let lost : IsLost e = subst LostIn sent (send-LostIn call w) in
        (refused e, next, refl, refused-Accounts r start next e lost (call, w, own, sent))
    ended_by (replied p, next) q =
        let sent : (send service call w).0 ≡ replied p =
          ap (λ (y : Answer Prediction × W). y.0) q in
        let end : (send service call w).1 ≡ next = ap (λ (y : Answer Prediction × W). y.1) q in
        settled_Ends p next (settle service p) (rw end at (send_later steady call w))
          (call, w, own, sent) refl

    ended-Ends : Ends r start (ended service (send service call w) rest)
    ended-Ends = ended_by (send service call w) refl

  poll_round :
      IsSteady
      → (n : ℕ) (r : Replicate F) (id : Bytes) (deadline : ℕ) (start w : W)
      → clock start + r.timeout ≤ deadline
      → (ltb deadline (service.now w).0 ≡ false
          → (p : Prediction) (next : W) → clock (service.now w).1 ≤ clock next
          → Ends r start (poll service n r id deadline (service.sleep pause next)))
      → Ends r start (poll service (suc n) r id deadline w)
  unfolding poll
  poll_round steady n r id deadline start w k more =
      elim (Bool-cases (ltb deadline (service.now w).0)) [
        | inl late ↦ rw late (
          refused timed_out,
          (service.now w).1,
          refl,
          ground (arith, steady.reads w, steady.now_later w),
        )
        | inr early ↦ rw early (
            ended-Ends steady r start (poll_call service r id) (poll_call-IsOwn service r id)
              (service.now w).1 (λ p next. poll service n r id deadline (service.sleep pause next))
              (more early))
      ]

  poll-Ends :
      IsSteady
      → (n : ℕ) (r : Replicate F) (id : Bytes) (deadline : ℕ) (start w : W)
      → deadline < clock w + n * pause
      → clock start + r.timeout ≤ deadline
      → Ends r start (poll service (suc n) r id deadline w)
  poll-Ends steady zero r id deadline start w h k =
      poll_round steady zero r id deadline start w k
        (λ early p next later. absurd (ground (arith, steady.reads w)))
  poll-Ends steady (suc m) r id deadline start w h k =
      poll_round steady (suc m) r id deadline start w k (λ early p next later.
        poll-Ends steady m r id deadline start (service.sleep pause next)
          (omega (arith, steady.now_later w, steady.sleep_later pause next)) k)

-- `Complete` comes to an end within the rounds that its timeout allows, and its answer is accounted
-- for: a text is the output of a prediction that the service gave to a request with the client's token,
-- and whose status is `succeeded` or the number 3; a failure has the error of one whose status is
-- `failed` or the number 4; an error for want of a token or a model means that there is none; a timeout
-- is told after the timeout; and any other error is that of a request with the client's token. The
-- clock is never set back, and a pause takes at least its time.
pub complete-Ends :
    {F W : Type 0} (service : Service F W) (clock : W → ℕ)
    → IsSteady service clock
    → (r : Replicate F) (system_prompt user_prompt : Bytes) (w : W)
    → Ends service clock r w (complete service r system_prompt user_prompt w)
unfolding complete
complete-Ends service clock steady r system_prompt user_prompt w =
    elim (Bool-cases (is_empty r.api_token)) [
      | inl none_set ↦ rw none_set (refused no_token, w, refl, nil_of_empty r.api_token none_set)
      | inr token ↦ elim (Bool-cases (is_empty r.model)) [
        | inl none_set ↦
            rw (token, none_set) (refused no_model, w, refl, nil_of_empty r.model none_set)
        | inr model ↦
            rw (token, model)
              (ended-Ends service clock steady r w (create_call service r system_prompt user_prompt)
                (create_call-IsOwn service r system_prompt user_prompt) w _
                (λ p next later.
                  poll-Ends service clock steady (suc (r.timeout / pause)) r p.id
                    ((service.now next).0 + r.timeout) w (service.now next).1
                    (omega (arith, steady.reads next, steady.now_later next))
                    (omega (arith, steady.reads next))))
      ]
    ]
