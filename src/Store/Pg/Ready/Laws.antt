-- ===== src/Store/Pg/Ready/Laws.antt =====
-- When `ReadySessions` of internal/store/pg/store.go gives a session again after it was optimized.
use prompt_graft.Base.{
  ℕ, ◌+◌, ◌*◌, ◌<◌, true, ◌&&◌, some, List, map, ◌≡◌, ◌↔◌, refl, ◌∙◌, sym, ap, subst, keep,
  mem-keep, mem-keep_of_mem, Memᴰ, and-eq-true, arith,
}
use prompt_graft.Base.Int.{ℤ}
use prompt_graft.Store.Types.{SessionRef}
use prompt_graft.Store.Pg.{Tables, Event, LogRow, upsert, select, mark_session_optimized}
use prompt_graft.Store.Pg.Keys.{same_ref_iff}
use prompt_graft.Store.Pg.Rows.{select-upsert}
use prompt_graft.Store.Pg.Groups.{mem_map, of_mem_map, mem-distinct_refs}
use prompt_graft.Store.Pg.Sessions.{distinct_refs}
use prompt_graft.Store.Pg.Ready.{has_log, is_due, joined_events, has_enough, ready_sessions}

-- An event of the session whose conversation has both texts.
abbrev pub HasLogged : List LogRow → List Event → SessionRef → Type 0
HasLogged logs events ref = (e : Event) × Memᴰ e events × (has_log logs e ≡ true) × (e.ref ≡ ref)

module _ (now every : ℕ) (metadata : List (SessionRef × ℕ)) (logs : List LogRow)
    (events : List Event) where
  abbrev joined : List Event
  joined = joined_events now every metadata logs events

  mem_joined :
      (ref : SessionRef)
      → Memᴰ ref (distinct_refs (map (λ (e : Event). e.ref) joined))
        ↔ (HasLogged logs events ref × (is_due now every (select ref metadata) ≡ true))
  unfolding joined_events
  mem_joined ref = (
    λ m.
        let (e, there, own) =
          of_mem_map (λ (e : Event). e.ref) joined
            ((mem-distinct_refs ref (map (λ (e : Event). e.ref) joined)).0 m) in
        let (known, test) =
          mem-keep (λ (e : Event). has_log logs e && is_due now every (select e.ref metadata))
            events e there in
        let both = and-eq-true (has_log logs e) (is_due now every (select e.ref metadata)) test in
        (
          (e, known, both.0, own),
          subst (λ r. is_due now every (select r metadata) ≡ true) own both.1,
        ),
    λ h.
        let (e, known, has, own) = h.0 in
        let due : is_due now every (select e.ref metadata) ≡ true =
          subst (λ r. is_due now every (select r metadata) ≡ true) (sym own) h.1 in
        (mem-distinct_refs ref (map (λ (e : Event). e.ref) joined)).1 (
          subst (λ r. Memᴰ r (map (λ (e : Event). e.ref) joined)) own
            (mem_map (λ (e : Event). e.ref) joined
              (mem-keep_of_mem
                (λ (e : Event). has_log logs e && is_due now every (select e.ref metadata)) events e
                known (rw (has, due) refl)))),
  )

  -- A session is ready exactly if some rated conversation of it has both texts, if it is due, and if the
  -- distinct conversations of its joined events are enough.
  ready_iff :
      (min_samples : ℤ) (xs : List SessionRef) (ref : SessionRef)
      → ready_sessions now true metadata logs events min_samples every ≡ some xs
      → Memᴰ ref xs ↔ (
          (HasLogged logs events ref × (is_due now every (select ref metadata) ≡ true))
          × (has_enough min_samples joined ref ≡ true))
  unfolding ready_sessions
  ready_iff min_samples xs ref e =
      let same : keep (has_enough min_samples joined)
            (distinct_refs (map (λ (e : Event). e.ref) joined))
          ≡ xs =
        cc in
      subst
        (λ ys. Memᴰ ref ys ↔ (
          (HasLogged logs events ref × (is_due now every (select ref metadata) ≡ true))
          × (has_enough min_samples joined ref ≡ true)))
        same
        (
          λ m.
              let (there, enough) =
                mem-keep (has_enough min_samples joined)
                  (distinct_refs (map (λ (e : Event). e.ref) joined)) ref m in
              ((mem_joined ref).0 there, enough),
          λ h.
              mem-keep_of_mem (has_enough min_samples joined)
                (distinct_refs (map (λ (e : Event). e.ref) joined)) ref ((mem_joined ref).1 h.0)
                h.1,
        )

marked_metadata :
    {F : Type 0} (now : ℕ) (t : Tables F) (ref : SessionRef)
    → (mark_session_optimized true now t ref).1.session_metadata ≡ upsert ref now t.session_metadata
unfolding mark_session_optimized
marked_metadata now t ref = refl

-- A session that was marked as optimized is not ready until ten times the interval has gone by.
pub ready_sessions-mark :
    {F : Type 0} (now later every : ℕ) (t : Tables F) (ref : SessionRef) (min_samples : ℤ)
    (xs : List SessionRef)
    → ready_sessions later true
        (mark_session_optimized true now t ref).1.session_metadata
        t.conversation_logs
        t.feedback_events
        min_samples
        every
      ≡ some xs
    → Memᴰ ref xs
    → now + every * 10 < later
ready_sessions-mark now later every t ref min_samples xs e m =
    let due =
      ((ready_iff later every (mark_session_optimized true now t ref).1.session_metadata
          t.conversation_logs t.feedback_events min_samples xs ref e).0
        m).0.1 in
    let last : select ref (mark_session_optimized true now t ref).1.session_metadata ≡ some now =
      ap (select ref) (marked_metadata now t ref)
      ∙ (select-upsert ref now t.session_metadata ref ∙ rw ((same_ref_iff ref ref).1 refl) refl) in
    due_time (subst (λ o. is_due later every o ≡ true) last due)
  where
    due_time : is_due later every (some now) ≡ true → now + every * 10 < later
    due_time h = ground arith
