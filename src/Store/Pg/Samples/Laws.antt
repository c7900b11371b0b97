-- ===== src/Store/Pg/Samples/Laws.antt =====
-- Which samples `LoadConversationSamples` of internal/store/pg/store.go gives, before and after
-- `MarkFeedbackUsed`.
use prompt_graft.Base.{
  ℕ, ◌≤◌, Bool, true, false, ◌&&◌, Option, none, some, List, [], ◌∷◌, map, ◌≡◌, refl, ◌∙◌, sym, ap,
  subst, inl, inr, keep, mem-keep, Memᴰ, All, All-append, and-eq-true, eqb, eqb_iff, Bytes, arith,
  Bool-cases,
}
use prompt_graft.Store.Types.{SessionRef, ConversationFeedback}
use prompt_graft.Store.Pg.{
  Tables, same_ref, Event, LogRow, is_row, order_by, is_any, use_event, mark_feedback_used,
}
use prompt_graft.Store.Pg.Keys.{same_ref_iff}
use prompt_graft.Store.Pg.Rows.{is_row_iff}
use prompt_graft.Store.Pg.Groups.{of_mem_map, order_by-All}
use prompt_graft.Store.Pg.Samples.{
  is_unused_event, distinct_comments, sample_of, samples_of_texts, samples_of, all_samples,
  buckets_of, load_conversation_samples,
}
use prompt_graft.Store.Feedback.Samples.{Buckets, select_all}
use prompt_graft.Store.Feedback.Samples.Laws.{
  IsPartition, add_to_bucket-IsPartition, add_to_bucket-All, select_all-All, variant_count,
  variant_count-select_all,
}

-- An event of the conversation that has not been used.
abbrev pub HasUnused : List Event → SessionRef → Bytes → Type 0
HasUnused events ref id =
    (e : Event) × Memᴰ e events × (e.ref ≡ ref) × (e.conversation_id ≡ id) × (e.times_used ≡ 0)

module _ (events : List Event) (ref : SessionRef) where
  abbrev IsUnused : ConversationFeedback → Type 0
  IsUnused x = HasUnused events ref x.conversation_id

  samples_of_comments :
      (row : LogRow) (prompt response : Bytes) (es : List Event) (comments : List (Option Bytes))
      → HasUnused events ref row.conversation_id
      → All IsUnused (map (sample_of row prompt response es) comments)
  samples_of_comments row prompt response es [] h = tt
  samples_of_comments row prompt response es (c ∷ comments) h =
      (h, samples_of_comments row prompt response es comments h)

  samples_of_texts-All :
      (row : LogRow) (es : List Event) (prompt response : Option Bytes)
      → ((e : Event) → Memᴰ e es → HasUnused events ref row.conversation_id)
      → All IsUnused (samples_of_texts row es prompt response)
  unfolding distinct_comments
  samples_of_texts-All row [] (some prompt) (some response) h = tt
  samples_of_texts-All row (e ∷ es) (some prompt) (some response) h =
      samples_of_comments row prompt response (e ∷ es)
        (distinct_comments (map (λ (x : Event). x.comment) (e ∷ es))) (h e (Memᴰ.head refl))
  samples_of_texts-All row es none response h = tt
  samples_of_texts-All row es (some prompt) none h = tt

  unused_of_row :
      (row : LogRow) (e : Event)
      → row.ref ≡ ref
      → Memᴰ e (keep (is_unused_event row) events)
      → HasUnused events ref row.conversation_id
  unused_of_row row e own m =
      let (there, test) = mem-keep (is_unused_event row) events e m in
      let both = and-eq-true (is_row e.ref e.conversation_id row) (eqb e.times_used 0) test in
      let same = (is_row_iff e.ref e.conversation_id row).0 both.0 in
      (e, there, sym same.0 ∙ own, sym same.1, (eqb_iff e.times_used 0).0 both.1)

  all_samples-All :
      (rows : List LogRow)
      → All (λ (row : LogRow). row.ref ≡ ref) rows
      → All IsUnused (all_samples events rows)
  unfolding all_samples samples_of
  all_samples-All [] h = tt
  all_samples-All (row ∷ rows) h =
      All-append IsUnused (samples_of events row) (all_samples events rows)
        (samples_of_texts-All row (keep (is_unused_event row) events) row.prompt row.response_text
          (λ e m. unused_of_row row e h.0 m))
        (all_samples-All rows h.1)

own_rows :
    (ref : SessionRef) (rows : List LogRow)
    → All (λ (row : LogRow). row.ref ≡ ref) (keep (λ (row : LogRow). same_ref row.ref ref) rows)
unfolding keep
own_rows ref [] = tt
own_rows ref (row ∷ rows) = elim (Bool-cases (same_ref row.ref ref)) [
  | inl e ↦ rw e ((same_ref_iff row.ref ref).0 e, own_rows ref rows)
  | inr e ↦ rw e (own_rows ref rows)
]

abbrev Filled : (ConversationFeedback → Type 0) → Buckets → Type 0
Filled P buckets = All (λ (b : Bytes × List ConversationFeedback). All P b.1) buckets

buckets_of-All :
    (P : ConversationFeedback → Type 0) (samples : List ConversationFeedback) (buckets : Buckets)
    → All P samples
    → Filled P buckets × IsPartition buckets
    → Filled P (buckets_of buckets samples) × IsPartition (buckets_of buckets samples)
unfolding buckets_of
buckets_of-All P [] buckets h k = k
buckets_of-All P (cf ∷ samples) buckets h k =
    buckets_of-All P samples _ h.1
      (add_to_bucket-All P cf buckets h.0 k.0, add_to_bucket-IsPartition cf buckets k.1)

-- Each sample loaded is of a conversation of the session with an event that was not used, and of each variant
-- there are at most as many as asked for.
pub load_conversation_samples-unused :
    (before : Bytes → Bytes → Bool) (logs : List LogRow) (events : List Event) (ref : SessionRef)
    (per_variant : ℕ) (xs : List ConversationFeedback)
    → load_conversation_samples before true logs events ref per_variant ≡ some xs
    → All (λ (x : ConversationFeedback). HasUnused events ref x.conversation_id) xs
      × ((v : Bytes) → variant_count v xs ≤ per_variant)
unfolding load_conversation_samples
load_conversation_samples-unused before logs events ref n xs e =
    let samples : List ConversationFeedback =
      order_by (λ a b. before a.conversation_id b.conversation_id)
        (all_samples events (keep (λ (row : LogRow). same_ref row.ref ref) logs)) in
    let same : select_all n (buckets_of [] samples) ≡ xs = cc in
    let (filled, parted) =
      buckets_of-All (IsUnused events ref) samples []
        (order_by-All (IsUnused events ref) (λ a b. before a.conversation_id b.conversation_id)
          (all_samples events (keep (λ (row : LogRow). same_ref row.ref ref) logs))
          (all_samples-All events ref _ (own_rows ref logs)))
        (tt, tt) in
    subst (λ ys. All (IsUnused events ref) ys × ((v : Bytes) → variant_count v ys ≤ n)) same
      (
        select_all-All (IsUnused events ref) n (buckets_of [] samples) filled,
        λ v. variant_count-select_all v n (buckets_of [] samples) parted,
      )

abbrev Stale : SessionRef → List Bytes → Bytes → Event → Type 0
Stale ref ids id e = e.ref ≡ ref → e.conversation_id ≡ id → e.times_used ≡ 0 → is_any ids id ≡ false

use_event-Stale :
    (ref : SessionRef) (ids : List Bytes) (id : Bytes) (e : Event)
    → Stale ref ids id (use_event ref ids e)
use_event-Stale ref ids id e =
    elim (Bool-cases (same_ref e.ref ref && is_any ids e.conversation_id)) [
      | inl q ↦ rw q (λ own same unused. absurd (omega arith))
      | inr q ↦ rw q (λ own same unused.
          ap (is_any ids) (sym same)
          ∙ second (same_ref e.ref ref) (is_any ids e.conversation_id)
              ((same_ref_iff e.ref ref).1 own) q)
    ]
  where
    second : (a b : Bool) → a ≡ true → (a && b) ≡ false → b ≡ false
    second a b h k = ground arith

-- After the feedback of some conversations is marked as used, no event of them is unused.
used_events :
    (ref : SessionRef) (ids : List Bytes) (events : List Event) (id : Bytes)
    → HasUnused (map (use_event ref ids) events) ref id
    → is_any ids id ≡ false
used_events ref ids events id (e, there, own, same, unused) =
    let (old, known, q) = of_mem_map (use_event ref ids) events there in
    subst (Stale ref ids id) q (use_event-Stale ref ids id old) own same unused

each_unused :
    (ref : SessionRef) (ids : List Bytes) (events : List Event) (xs : List ConversationFeedback)
    → All
        (λ (x : ConversationFeedback).
          HasUnused (map (use_event ref ids) events) ref x.conversation_id)
        xs
    → All (λ (x : ConversationFeedback). is_any ids x.conversation_id ≡ false) xs
each_unused ref ids events [] h = tt
each_unused ref ids events (x ∷ xs) h =
    (used_events ref ids events x.conversation_id h.0, each_unused ref ids events xs h.1)

marked_events :
    {F : Type 0} (now : ℕ) (t : Tables F) (ref : SessionRef) (id : Bytes) (ids : List Bytes)
    → (mark_feedback_used true now t ref (id ∷ ids)).1.feedback_events
      ≡ map (use_event ref (id ∷ ids)) t.feedback_events
unfolding mark_feedback_used
marked_events now t ref id ids = refl

-- Once the feedback of some conversations is marked as used, none of them is among the samples that are
-- loaded of the session.
pub load_conversation_samples-mark_feedback_used :
    {F : Type 0} (before : Bytes → Bytes → Bool) (now : ℕ) (t : Tables F) (ref : SessionRef)
    (id : Bytes) (ids : List Bytes) (per_variant : ℕ) (xs : List ConversationFeedback)
    → load_conversation_samples before true
        (mark_feedback_used true now t ref (id ∷ ids)).1.conversation_logs
        (mark_feedback_used true now t ref (id ∷ ids)).1.feedback_events
        ref
        per_variant
      ≡ some xs
    → All (λ (x : ConversationFeedback). is_any (id ∷ ids) x.conversation_id ≡ false) xs
load_conversation_samples-mark_feedback_used {F} before now t ref id ids n xs e =
    let after : Tables F = (mark_feedback_used true now t ref (id ∷ ids)).1 in
    each_unused ref (id ∷ ids) t.feedback_events xs (
      subst
        (λ events. All (λ (x : ConversationFeedback). HasUnused events ref x.conversation_id) xs)
        (marked_events now t ref id ids)
        (load_conversation_samples-unused before after.conversation_logs after.feedback_events ref n
          xs e).0)
