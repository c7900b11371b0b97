-- ===== src/Store/Pg/Sessions/Laws.antt =====
-- Which sessions `FindUnusedVariantSessions` (internal/store/pg/store.go) finds.
use prompt_graft.Base.{
  ℕ, Bool, true, some, List, [], ◌∷◌, map, ◌≡◌, ◌↔◌, refl, ◌∙◌, sym, ap, subst, keep, mem-keep,
  mem-keep_of_mem, Memᴰ,
}
use prompt_graft.Store.Types.{SessionRef}
use prompt_graft.Store.Pg.{VariantRow, Event}
use prompt_graft.Store.Pg.Groups.{mem_map, of_mem_map, mem-distinct_refs}
use prompt_graft.Store.Pg.Variants.{is_active}
use prompt_graft.Store.Pg.Sessions.{
  UnusedSession, distinct_refs, is_unused, Joined, left_join, last_feedback, unused_session,
  find_unused_variant_sessions,
}
use prompt_graft.Store.Pg.Sessions.Join.{left_join_row, row_joined, last_feedback_iff, HasActive}
use prompt_graft.Store.Pg.Sessions.Times.{AllOld}

module _ {F : Type 0} where
  refs_of_sessions :
      (joined : List (Joined F)) (refs : List SessionRef)
      → map (λ (u : UnusedSession). u.ref) (map (unused_session joined) refs) ≡ refs
  refs_of_sessions joined [] = refl
  refs_of_sessions joined (ref ∷ refs) = ap (λ r. ref ∷ r) (refs_of_sessions joined refs)

  mem_joined_refs :
      (variants : List (VariantRow F)) (events : List Event) (ref : SessionRef)
      → Memᴰ ref (
          distinct_refs
            (map (λ (j : Joined F). j.0.ref) (left_join (keep is_active variants) events)))
        ↔ HasActive variants ref
  mem_joined_refs variants events ref = (
    λ m.
        let (j, there, q) =
          of_mem_map (λ (j : Joined F). j.0.ref) (left_join (keep is_active variants) events)
            ((mem-distinct_refs ref _).0 m) in
        let (kept, fits) = left_join_row (keep is_active variants) events j there in
        let (row, active) = mem-keep is_active variants j.0 kept in (j.0, row, active, q),
    λ h.
        let (row, there, active, q) = h in
        let (o, joined) =
          row_joined (keep is_active variants) events row
            (mem-keep_of_mem is_active variants row there active) in
        (mem-distinct_refs ref _).1 (
          subst
            (λ r.
              Memᴰ r (map (λ (j : Joined F). j.0.ref) (left_join (keep is_active variants) events)))
            q
            (mem_map (λ (j : Joined F). j.0.ref) (left_join (keep is_active variants) events)
              joined)),
  )

  found_iff :
      (now ttl : ℕ) (variants : List (VariantRow F)) (events : List Event) (ref : SessionRef)
      → Memᴰ ref (
          keep
            (λ r. is_unused now ttl (last_feedback r (left_join (keep is_active variants) events)))
            (distinct_refs
              (map (λ (j : Joined F). j.0.ref) (left_join (keep is_active variants) events))))
        ↔ (HasActive variants ref × AllOld now ttl ref events)
  found_iff now ttl variants events ref =
      let joined : List (Joined F) = left_join (keep is_active variants) events in
      let test : SessionRef → Bool = λ r. is_unused now ttl (last_feedback r joined) in
      let refs : List SessionRef = distinct_refs (map (λ (j : Joined F). j.0.ref) joined) in
      (
        λ m.
            let (there, unused) = mem-keep test refs ref m in
            let has = (mem_joined_refs variants events ref).0 there in (has, old_of has unused),
        λ h.
            mem-keep_of_mem test refs ref ((mem_joined_refs variants events ref).1 h.0)
              (unused_of h.0 h.1),
      )
    where
      at_ref :
          (row : VariantRow F)
          → Memᴰ row variants
          → is_active row ≡ true
          → (is_unused now ttl (last_feedback row.ref (left_join (keep is_active variants) events))
              ≡ true)
            ↔ AllOld now ttl row.ref events
      at_ref row m a =
          last_feedback_iff now ttl (keep is_active variants) events row
            (mem-keep_of_mem is_active variants row m a)

      old_of :
          HasActive variants ref
          → is_unused now ttl (last_feedback ref (left_join (keep is_active variants) events))
            ≡ true
          → AllOld now ttl ref events
      old_of (row, m, a, q) h = subst (λ r. AllOld now ttl r events) q ((at_ref row m a).0 (rw q h))

      unused_of :
          HasActive variants ref
          → AllOld now ttl ref events
          → is_unused now ttl (last_feedback ref (left_join (keep is_active variants) events))
            ≡ true
      unused_of (row, m, a, q) h =
          let old : AllOld now ttl row.ref events = rw q h in rw (← q) ((at_ref row m a).1 old)

  -- A session is found exactly if it has an active variant and every event of it is older than the window:
  -- one without events counts.
  pub find_unused_variant_sessions_iff :
      (now ttl : ℕ) (variants : List (VariantRow F)) (events : List Event) (us : List UnusedSession)
      → find_unused_variant_sessions now true variants events ttl ≡ some us
      → (ref : SessionRef)
      → Memᴰ ref (map (λ (u : UnusedSession). u.ref) us)
        ↔ (HasActive variants ref × AllOld now ttl ref events)
  unfolding find_unused_variant_sessions
  find_unused_variant_sessions_iff now ttl variants events us e ref =
      let joined : List (Joined F) = left_join (keep is_active variants) events in
      let refs : List SessionRef =
        keep (λ r. is_unused now ttl (last_feedback r joined))
          (distinct_refs (map (λ (j : Joined F). j.0.ref) joined)) in
      let found : map (unused_session joined) refs ≡ us = cc in
      let same : map (λ (u : UnusedSession). u.ref) us ≡ refs =
        ap (map (λ (u : UnusedSession). u.ref)) (sym found) ∙ refs_of_sessions joined refs in
      subst (λ rs. Memᴰ ref rs ↔ (HasActive variants ref × AllOld now ttl ref events)) (sym same)
        (found_iff now ttl variants events ref)
