-- ===== src/Optimizer/Janitor/Laws.antt =====
-- What the janitor (internal/optimizer/janitor/janitor.go) copies, and what it leaves alone.
use prompt_graft.Base.{
  ℕ, Bool, true, false, not, ◌&&◌, Option, none, some, List, [], ◌∷◌, ◌++◌, ◌≡◌, ◌≢◌, refl, ◌∙◌,
  sym, ap, inl, inr, if◌then◌else◌, Bytes, All, Memᴰ, Bool-cases,
}
use prompt_graft.Store.Types.{SessionRef, ConversationLog}
use prompt_graft.Store.LogKeys.{scan_log_keys}
use prompt_graft.Store.Pg.{
  Tables, execute, LogRow, is_row, row_of, insert_new, insert_conversation_log,
}
use prompt_graft.Store.Pg.Rows.{find_log, first, find_log-insert_new, is_row_iff}
use prompt_graft.Optimizer.Janitor.{
  JanitorRedis, is_blank, counted, copy_entries, copy_sessions, copy_logs,
}

-- An entry with a text, whose insert Postgres runs.
abbrev pub is_copied : (ConversationLog → Bool) → ConversationLog → Bool
is_copied taken e = not (is_blank e) && taken e

-- The first row that the entries give to a conversation.
abbrev pub first_copied :
    (ConversationLog → Bool) → SessionRef → Bytes → List ConversationLog → Option LogRow
first_copied taken ref id [] = none
first_copied taken ref id (e ∷ logs) =
    if is_copied taken e && is_row ref id (row_of e)
    then some (row_of e)
    else first_copied taken ref id logs

first-none {ℓ} : {A : Type ℓ} (o : Option A) → first o none ≡ o
first-none none = refl
first-none (some x) = refl

first-first {ℓ} :
    {A : Type ℓ} (o : Option A) (b : Bool) (x : A) (p : Option A)
    → first (first o (if b then some x else none)) p ≡ first o (if b then some x else p)
first-first none true x p = refl
first-first none false x p = refl
first-first (some y) b x p = refl

first-ne-none_right {ℓ} : {A : Type ℓ} (o p : Option A) → p ≢ none → first o p ≢ none
first-ne-none_right none p h = h
first-ne-none_right (some x) p h = λ e. cc

module _ (taken : ConversationLog → Bool) where
  unfoldable pub rows_after : List ConversationLog → List LogRow → List LogRow
  rows_after [] rows = rows
  rows_after (e ∷ logs) rows =
      rows_after logs (if is_copied taken e then insert_new (row_of e) rows else rows)

  find_log-rows_after :
      (logs : List ConversationLog) (rows : List LogRow) (ref : SessionRef) (id : Bytes)
      → find_log ref id (rows_after logs rows)
        ≡ first (find_log ref id rows) (first_copied taken ref id logs)
  unfolding rows_after
  find_log-rows_after [] rows ref id = sym (first-none (find_log ref id rows))
  find_log-rows_after (e ∷ logs) rows ref id = elim (Bool-cases (is_copied taken e)) [
    | inl q ↦ rw q (
        find_log-rows_after logs (insert_new (row_of e) rows) ref id
        ∙ ap (λ o. first o (first_copied taken ref id logs))
            (find_log-insert_new (row_of e) rows ref id)
        ∙ first-first (find_log ref id rows) (is_row ref id (row_of e)) (row_of e)
            (first_copied taken ref id logs))
    | inr q ↦ rw q (find_log-rows_after logs rows ref id)
  ]

  -- A conversation that has a row gets no other.
  insert_new_found :
      (new : LogRow) (rows : List LogRow)
      → find_log new.ref new.conversation_id rows ≢ none
      → insert_new new rows ≡ rows
  unfolding insert_new find_log
  insert_new_found new [] h = absurd (h refl)
  insert_new_found new (row ∷ rows) h = elim (Bool-cases (is_row new.ref new.conversation_id row)) [
    | inl e ↦ rw e refl
    | inr e ↦ rw e (ap (λ r. row ∷ r) (insert_new_found new rows (rw e at h)))
  ]

  -- The conversation of an entry that is copied has a row.
  abbrev Has : List LogRow → ConversationLog → Type 0
  Has rows e =
      is_copied taken e ≡ true → find_log (row_of e).ref (row_of e).conversation_id rows ≢ none

  first_copied_mem :
      (e : ConversationLog) (logs : List ConversationLog)
      → Memᴰ e logs
      → is_copied taken e ≡ true
      → first_copied taken (row_of e).ref (row_of e).conversation_id logs ≢ none
  first_copied_mem e [] m q = elim m [ ]
  first_copied_mem e (x ∷ logs) (Memᴰ.head same) q = λ n.
      let own : is_row (row_of e).ref (row_of e).conversation_id (row_of x) ≡ true =
        rw (← same)
          ((is_row_iff (row_of e).ref (row_of e).conversation_id (row_of e)).1 (refl, refl)) in
      let copied : is_copied taken x ≡ true = rw (← same) q in
      let found : some (row_of x) ≡ none = rw (copied, own) at n in cc
  first_copied_mem e (x ∷ logs) (Memᴰ.tail m) q = λ n. first_copied_mem e logs m q (
      in_tail (is_copied taken x && is_row (row_of e).ref (row_of e).conversation_id (row_of x))
        (row_of x) n)
    where
      in_tail :
          {o : Option LogRow} (b : Bool) (row : LogRow)
          → (if b then some row else o) ≡ none
          → o ≡ none
      in_tail true row n = cc
      in_tail false row n = n

  All-Has :
      (all logs : List ConversationLog) (rows : List LogRow)
      → ((e : ConversationLog) → Memᴰ e logs → Memᴰ e all)
      → All (Has (rows_after all rows)) logs
  All-Has all [] rows sub = tt
  All-Has all (e ∷ logs) rows sub = (
    λ q n.
        first-ne-none_right (find_log (row_of e).ref (row_of e).conversation_id rows) _
          (first_copied_mem e all (sub e (Memᴰ.head refl)) q)
          (sym (find_log-rows_after all rows (row_of e).ref (row_of e).conversation_id) ∙ n),
    All-Has all logs rows (λ x m. sub x (Memᴰ.tail m)),
  )

  rows_after-append :
      (logs more : List ConversationLog) (rows : List LogRow)
      → rows_after (logs ++ more) rows ≡ rows_after more (rows_after logs rows)
  unfolding rows_after
  rows_after-append [] more rows = refl
  rows_after-append (e ∷ logs) more rows =
      rows_after-append logs more (if is_copied taken e then insert_new (row_of e) rows else rows)

-- A second pass that takes no entry which the first one refused.
module _ (taken again : ConversationLog → Bool)
    (fewer : (e : ConversationLog) → again e ≡ true → taken e ≡ true) where
  is_copied_fewer : (e : ConversationLog) → is_copied again e ≡ true → is_copied taken e ≡ true
  is_copied_fewer e q = by_blank (is_blank e) (again e) (fewer e) q
    where
      by_blank :
          (b c : Bool)
          → (c ≡ true → taken e ≡ true)
          → (not b && c) ≡ true
          → (not b && taken e) ≡ true
      by_blank true c h q = q
      by_blank false true h q = h refl
      by_blank false false h q = cc

  copied_again :
      (logs : List ConversationLog) (rows : List LogRow)
      → All (Has taken rows) logs
      → rows_after again logs rows ≡ rows
  unfolding rows_after
  copied_again [] rows h = refl
  copied_again (e ∷ logs) rows h = elim (Bool-cases (is_copied again e)) [
    | inl q ↦
        rw (q, insert_new_found taken (row_of e) rows (h.0 (is_copied_fewer e q)))
          (copied_again logs rows h.1)
    | inr q ↦ rw q (copied_again logs rows h.1)
  ]

  rows_after-rows_after :
      (logs : List ConversationLog) (rows : List LogRow)
      → rows_after again logs (rows_after taken logs rows) ≡ rows_after taken logs rows
  rows_after-rows_after logs rows =
      copied_again logs (rows_after taken logs rows) (All-Has taken logs logs rows (λ e m. m))

module _ {R : Type 0} (redis : JanitorRedis R) (r : R) where
  abbrev pub entries_of : List SessionRef → List ConversationLog
  entries_of [] = []
  entries_of (ref ∷ sessions) = redis.read_conversation_logs r ref 200 ++ entries_of sessions

  -- All that Redis has in its logs.
  abbrev pub logged : List ConversationLog
  logged = entries_of (scan_log_keys (redis.scan r))

module _ {F : Type 0} (now : ℕ) (taken : ConversationLog → Bool) where
  abbrev pub with_logs : Tables F → List LogRow → Tables F
  with_logs t rows = record t { conversation_logs = rows }

  copy_one :
      (e : ConversationLog) (t : Tables F) (n : ℕ)
      → (if is_blank e
          then (t, n)
          else counted now taken (insert_conversation_log (taken e) now t e) n).0
        ≡ with_logs t (
            if is_copied taken e
            then insert_new (row_of e) t.conversation_logs
            else t.conversation_logs)
  unfolding insert_conversation_log
  copy_one e t n = by_tests (is_blank e) (taken e)
    where
      by_tests :
          (b c : Bool)
          → (if b
              then (t, n)
              else counted now taken
                  (execute c t (with_logs t (insert_new (row_of e) t.conversation_logs)))
                  n).0
            ≡ with_logs t (
                if not b && c
                then insert_new (row_of e) t.conversation_logs
                else t.conversation_logs)
      by_tests true c = refl
      by_tests false true = refl
      by_tests false false = refl

  copy_entries_lem :
      (logs : List ConversationLog) (st : Tables F × ℕ)
      → (copy_entries now taken logs st).0
        ≡ with_logs st.0 (rows_after taken logs st.0.conversation_logs)
  unfolding copy_entries rows_after
  copy_entries_lem [] st = refl
  copy_entries_lem (e ∷ logs) (t, n) =
      copy_entries_lem logs (
        if is_blank e
        then (t, n)
        else counted now taken (insert_conversation_log (taken e) now t e) n)
      ∙ ap (λ (u : Tables F). with_logs u (rows_after taken logs u.conversation_logs))
          (copy_one e t n)

  module _ {R : Type 0} (redis : JanitorRedis R) (r : R) where
    copy_sessions_lem :
        (sessions : List SessionRef) (st : Tables F × ℕ)
        → (copy_sessions redis now taken r sessions st).0
          ≡ with_logs st.0 (rows_after taken (entries_of redis r sessions) st.0.conversation_logs)
    unfolding copy_sessions rows_after
    copy_sessions_lem [] st = refl
    copy_sessions_lem (ref ∷ sessions) st =
        let logs : List ConversationLog = redis.read_conversation_logs r ref 200 in
        copy_sessions_lem sessions (copy_entries now taken logs st)
        ∙ ap
            (λ (u : Tables F).
              with_logs u (rows_after taken (entries_of redis r sessions) u.conversation_logs))
            (copy_entries_lem logs st)
        ∙ ap (with_logs st.0) (
            sym (rows_after-append taken logs (entries_of redis r sessions) st.0.conversation_logs))

    copy_logs_rows :
        (t : Tables F)
        → (copy_logs redis now taken r t).0
          ≡ with_logs t (rows_after taken (logged redis r) t.conversation_logs)
    unfolding copy_logs
    copy_logs_rows t = copy_sessions_lem (scan_log_keys (redis.scan r)) (t, 0)

-- A pass over the logs changes no other table; it gives a conversation the first row that has a text
-- and that Postgres takes, unless it has a row already, which stays; and a later pass over the same
-- logs, in which Postgres takes no entry that it refused in the first, changes nothing.
pub copy_logs_lem :
    {F R : Type 0} (now later : ℕ) (taken again : ConversationLog → Bool) (redis : JanitorRedis R)
    (r : R) (t : Tables F)
    → ((e : ConversationLog) → again e ≡ true → taken e ≡ true)
    → ((ref : SessionRef) (id : Bytes)
        → find_log ref id (copy_logs redis now taken r t).0.conversation_logs
          ≡ first
              (find_log ref id t.conversation_logs)
              (first_copied taken ref id (logged redis r)))
      × ((copy_logs redis later again r (copy_logs redis now taken r t).0).0
          ≡ (copy_logs redis now taken r t).0)
      × ((copy_logs redis now taken r t).0
          ≡ with_logs now taken t (copy_logs redis now taken r t).0.conversation_logs)
copy_logs_lem {F = F} now later taken again redis r t fewer =
    let once = copy_logs_rows now taken redis r t in
    (
      λ ref id.
          ap (λ (u : Tables F). find_log ref id u.conversation_logs) once
          ∙ find_log-rows_after taken (logged redis r) t.conversation_logs ref id,
      ap (λ (u : Tables F). (copy_logs redis later again r u).0) once
          ∙ copy_logs_rows later again redis r
              (with_logs now taken t (rows_after taken (logged redis r) t.conversation_logs))
          ∙ ap (with_logs now taken t)
              (rows_after-rows_after taken again fewer (logged redis r) t.conversation_logs)
          ∙ sym once,
      once ∙ ap (λ (u : Tables F). with_logs now taken t u.conversation_logs) (sym once),
    )
