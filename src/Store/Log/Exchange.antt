-- ===== src/Store/Log/Exchange.antt =====
-- A request and its response, read back of a log.
use prompt_graft.Base.{
  ℕ, true, Option, none, some, List, [], ◌∷◌, ◌≡◌, ◌≢◌, refl, sym, ap, ◌∙◌, inl, inr, take, Bytes,
  ◌==◌, ==_refl, Bool-cases,
}
use prompt_graft.Store.Log.{
  Role, LogEntry, Partial, push, log_request, log_response, first_text₂, first_text₃, fresh,
  prompt_in, response_in, request_entry, response_entry, ListCommands, LogCodec, absorb, collect,
}
use prompt_graft.Store.Log.Laws.{push_lem, gathered_one, gathered, find, find-collect}

-- A part keeps what it has.
abbrev Keeps : Partial → Partial → Type 0
Keeps p q =
    ((p.prompt ≢ []) → q.prompt ≡ p.prompt)
    × ((p.response_text ≢ []) → q.response_text ≡ p.response_text)
    × ((p.variant_id ≢ []) → q.variant_id ≡ p.variant_id)

first_kept : (a b : Bytes) → a ≢ [] → first_text₂ a b ≡ a
first_kept [] b n = absurd (n refl)
first_kept (x ∷ a) b n = refl

absorb-Keeps : (e : LogEntry) (p : Partial) → Keeps p (absorb e p)
unfolding absorb
absorb-Keeps e p = by_role e.role
  where
    by_role :
        (r : Role)
        → ((p.prompt ≢ []) → prompt_in r e p.prompt ≡ p.prompt)
          × ((p.response_text ≢ []) → response_in r e p.response_text ≡ p.response_text)
          × ((p.variant_id ≢ []) → first_text₂ p.variant_id e.variant_id ≡ p.variant_id)
    by_role Role.request = (first_kept p.prompt _, λ n. refl, first_kept p.variant_id _)
    by_role Role.response = (λ n. refl, first_kept p.response_text _, first_kept p.variant_id _)

first_kept₃ : (a b c : Bytes) → a ≢ [] → first_text₃ a b c ≡ a
first_kept₃ [] b c n = absurd (n refl)
first_kept₃ (x ∷ a) b c n = refl

gathered-two :
    (json : LogCodec) (a b : LogEntry) (log : List Bytes) (c : Bytes)
    → json.decode (json.encode a) ≡ some a
    → json.decode (json.encode b) ≡ some b
    → (a.conversation_id == c) ≡ true
    → (b.conversation_id == c) ≡ true
    → gathered json c none (json.encode a ∷ json.encode b ∷ log)
      ≡ gathered json c (some (absorb b (absorb a (fresh a)))) log
gathered-two json a b log c p q e f = rw (p, q, e, f) refl

-- A part with these three texts.
abbrev pub HasTexts : Bytes → Bytes → Bytes → Partial → Type 0
HasTexts prompt text variant p =
    (p.prompt ≡ prompt) × (p.response_text ≡ text) × (p.variant_id ≡ variant)

module _ (prompt text variant : Bytes) (n₁ : prompt ≢ []) (n₂ : text ≢ []) (n₃ : variant ≢ []) where
  absorb-HasTexts :
      (e : LogEntry) (p : Partial)
      → HasTexts prompt text variant p
      → HasTexts prompt text variant (absorb e p)
  absorb-HasTexts e p (a, b, c) =
      let (x, y, z) = absorb-Keeps e p in
      (x (λ h. n₁ (sym a ∙ h)) ∙ a, y (λ h. n₂ (sym b ∙ h)) ∙ b, z (λ h. n₃ (sym c ∙ h)) ∙ c)

  gathered_one-HasTexts :
      (c : Bytes) (p : Partial) (o : Option LogEntry)
      → HasTexts prompt text variant p
      → (q : Partial) × (gathered_one c (some p) o ≡ some q) × HasTexts prompt text variant q
  gathered_one-HasTexts c p none h = (p, refl, h)
  gathered_one-HasTexts c p (some e) h = elim (Bool-cases (e.conversation_id == c)) [
    | inl same ↦ rw same (absorb e p, refl, absorb-HasTexts e p h)
    | inr other ↦ rw other (p, refl, h)
  ]

  gathered-HasTexts :
      (json : LogCodec) (log : List Bytes) (c : Bytes) (p : Partial)
      → HasTexts prompt text variant p
      → (q : Partial) × (gathered json c (some p) log ≡ some q) × HasTexts prompt text variant q
  gathered-HasTexts json [] c p h = (p, refl, h)
  gathered-HasTexts json (raw ∷ log) c p h =
      let (next, one, texts) = gathered_one-HasTexts c p (json.decode raw) h in
      let (q, found, last) = gathered-HasTexts json log c next texts in
      (q, ap (λ o. gathered json c o log) one ∙ found, last)

  -- A response to a request, taken in before it, since the newest entry is read first.
  exchange-HasTexts :
      (answer question : LogEntry)
      → answer.role ≡ Role.response
      → answer.response_text ≡ text
      → answer.variant_id ≡ variant
      → question.role ≡ Role.request
      → question.prompt_original ≡ prompt
      → question.variant_id ≡ variant
      → HasTexts prompt text variant (absorb question (absorb answer (fresh answer)))
  unfolding absorb
  exchange-HasTexts answer question a b c d e f =
      rw (a, d)
        (
          first_kept₃ question.prompt_original _ _ (λ h. n₁ (sym e ∙ h)) ∙ e,
          first_kept answer.response_text _ (λ h. n₂ (sym b ∙ h)) ∙ b,
          ap (λ x. first_text₂ x question.variant_id)
                (first_kept answer.variant_id _ (λ h. n₃ (sym c ∙ h)))
              ∙ first_kept answer.variant_id _ (λ h. n₃ (sym c ∙ h))
              ∙ c,
        )

  -- A request and the response behind it, logged under a conversation's name, are read back as one
  -- conversation with the original prompt, the response's text and the variant, whatever older entries
  -- the log has, be they decoded or not. The name and the three texts are not empty, and the codec gives
  -- back the two entries.
  pub collect-log_response :
      (redis : ListCommands) (json : LogCodec) (log : List Bytes)
      (c session request_type snippet injected response_type body : Bytes) (now later : ℕ)
      → c ≢ []
      → json.decode
          (json.encode (request_entry now session variant c request_type snippet injected prompt))
        ≡ some (request_entry now session variant c request_type snippet injected prompt)
      → json.decode (json.encode (response_entry later session variant c response_type text body))
        ≡ some (response_entry later session variant c response_type text body)
      → (q : Partial) × (find
            (collect json [] (
              log_response redis json later session variant c response_type text body (
                log_request redis json now session variant c request_type snippet injected prompt
                  log)))
            c
          ≡ some q)
        × HasTexts prompt text variant q
  unfolding log_response log_request response_entry
  collect-log_response redis json log c session request_type snippet injected response_type body now
        later n asked answered =
      let rest = take 98 (take 99 log) in
      let answer : LogEntry = response_entry later session variant c response_type text body in
      let question : LogEntry =
        request_entry now session variant c request_type snippet injected prompt in
      let two = gathered-two json answer question rest c answered asked (==_refl c) (==_refl c) in
      let (q, found, texts) =
        gathered-HasTexts json rest c (absorb question (absorb answer (fresh answer)))
          (exchange-HasTexts answer question refl refl refl refl refl refl) in
      let whole : push redis (json.encode answer) (push redis (json.encode question) log)
          ≡ json.encode answer ∷ json.encode question ∷ rest =
        push_lem redis (json.encode answer) _
        ∙ ap (λ l. json.encode answer ∷ take 99 l) (push_lem redis (json.encode question) log) in
      (
        q,
        ap (λ l. find (collect json [] l) c) whole
            ∙ find-collect json (json.encode answer ∷ json.encode question ∷ rest) [] c n
            ∙ two
            ∙ found,
        texts,
      )
