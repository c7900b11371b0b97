-- ===== src/Store/Pg/Sessions/Join.antt =====
-- What the join of variants with feedback events in `FindUnusedVariantSessions`
-- (internal/store/pg/store.go) holds.
use prompt_graft.Base.{
  ℕ, true, Option, none, some, List, [], ◌∷◌, map, ◌≡◌, ◌↔◌, inl, inr, refl, ◌∙◌, sym, ap, subst,
  keep, mem-keep, mem-keep_of_mem, Memᴰ,
}
use prompt_graft.Store.Types.{SessionRef}
use prompt_graft.Store.Pg.{same_ref, VariantRow, Event}
use prompt_graft.Store.Pg.Keys.{same_ref_iff}
use prompt_graft.Store.Pg.Groups.{
  mem_map, of_mem_map, mem_append_left, mem_append_right, of_mem_append,
}
use prompt_graft.Store.Pg.Variants.{is_active}
use prompt_graft.Store.Pg.Sessions.{is_unused, Joined, with_events, left_join, group, last_feedback}
use prompt_graft.Store.Pg.Sessions.Times.{AllOld, max_time_iff}

module _ {F : Type 0} where
  abbrev pub Fits : List Event → Joined F → Type 0
  Fits events j = (e : Event) → j.1 ≡ some e → Memᴰ e events × (e.ref ≡ j.0.ref)

  with_events_mem :
      (row : VariantRow F) (es : List Event) (j : Joined F)
      → Memᴰ j (with_events row es)
      → (j.0 ≡ row) × ((e : Event) → j.1 ≡ some e → Memᴰ e es)
  with_events_mem row [] j (Memᴰ.head q) = (ap (λ (x : Joined F). x.0) q, λ e k. cc)
  with_events_mem row [] j (Memᴰ.tail m) = elim m [ ]
  with_events_mem row (x ∷ es) j m =
      let (e, there, q) = of_mem_map (λ e. (row, some e)) (x ∷ es) m in
      (
        ap (λ (x : Joined F). x.0) (sym q),
        λ f k. let same : e ≡ f = cc in subst (λ y. Memᴰ y (x ∷ es)) same there,
      )

  pub left_join_row :
      (rows : List (VariantRow F)) (events : List Event) (j : Joined F)
      → Memᴰ j (left_join rows events)
      → Memᴰ j.0 rows × Fits events j
  unfolding left_join
  left_join_row [] events j m = elim m [ ]
  left_join_row (row ∷ rows) events j m =
      elim (of_mem_append (with_events row (keep (λ e. same_ref e.ref row.ref) events)) _ m) [
        | inl k ↦
            let (q, f) = with_events_mem row (keep (λ e. same_ref e.ref row.ref) events) j k in
            (
              Memᴰ.head q,
              λ e s.
                  let (there, mine) = mem-keep (λ e. same_ref e.ref row.ref) events e (f e s) in
                  (
                    there,
                    (same_ref_iff e.ref row.ref).0 mine ∙ ap (λ (r : VariantRow F). r.ref) (sym q),
                  ),
            )
        | inr k ↦ let (there, fits) = left_join_row rows events j k in (Memᴰ.tail there, fits)
      ]

  some_join :
      (row : VariantRow F) (es : List Event)
      → (o : Option Event) × Memᴰ (row, o) (with_events row es)
  some_join row [] = (none, Memᴰ.head refl)
  some_join row (e ∷ es) = (some e, Memᴰ.head refl)

  pub row_joined :
      (rows : List (VariantRow F)) (events : List Event) (row : VariantRow F)
      → Memᴰ row rows
      → (o : Option Event) × Memᴰ (row, o) (left_join rows events)
  unfolding left_join
  row_joined [] events row m = elim m [ ]
  row_joined (x ∷ rows) events row (Memᴰ.head q) =
      let (o, there) = some_join x (keep (λ e. same_ref e.ref x.ref) events) in
      (
        o,
        mem_append_left _ _ (
            subst (λ r. Memᴰ (r, o) (with_events x (keep (λ e. same_ref e.ref x.ref) events)))
              (sym q) there),
      )
  row_joined (x ∷ rows) events row (Memᴰ.tail m) =
      let (o, there) = row_joined rows events row m in (o, mem_append_right _ _ there)

  event_with :
      (row : VariantRow F) (es : List Event) (e : Event)
      → Memᴰ e es
      → Memᴰ (row, some e) (with_events row es)
  event_with row [] e m = elim m [ ]
  event_with row (x ∷ es) e m = mem_map (λ y. (row, some y)) (x ∷ es) m

  event_joined :
      (rows : List (VariantRow F)) (events : List Event) (row : VariantRow F) (e : Event)
      → Memᴰ row rows
      → Memᴰ e events
      → e.ref ≡ row.ref
      → (r : VariantRow F) × (r ≡ row) × Memᴰ (r, some e) (left_join rows events)
  unfolding left_join
  event_joined [] events row e m k q = elim m [ ]
  event_joined (x ∷ rows) events row e (Memᴰ.head s) k q = (
    x,
    sym s,
    mem_append_left _ _ (
        event_with x _ e (
          mem-keep_of_mem (λ e. same_ref e.ref x.ref) events e k
            ((same_ref_iff e.ref x.ref).1 (q ∙ ap (λ (r : VariantRow F). r.ref) s)))),
  )
  event_joined (x ∷ rows) events row e (Memᴰ.tail m) k q =
      let (r, s, there) = event_joined rows events row e m k q in (r, s, mem_append_right _ _ there)

  pub last_feedback_iff :
      (now ttl : ℕ) (rows : List (VariantRow F)) (events : List Event) (row : VariantRow F)
      → Memᴰ row rows
      → (is_unused now ttl (last_feedback row.ref (left_join rows events)) ≡ true)
        ↔ AllOld now ttl row.ref events
  unfolding last_feedback
  last_feedback_iff now ttl rows events row m = (
    λ h e there mine.
        let (r, same, joined) = event_joined rows events row e m there mine in
        ((max_time_iff now ttl (map (λ (j : Joined F). j.1) (group row.ref (left_join rows events)))
              none).0
            h).1
          e
          (mem_map (λ (j : Joined F). j.1) (group row.ref (left_join rows events))
            (mem-keep_of_mem (λ (j : Joined F). same_ref j.0.ref row.ref) (left_join rows events)
              (r, some e) joined
              ((same_ref_iff r.ref row.ref).1 (ap (λ (x : VariantRow F). x.ref) same)))),
    λ old.
        (max_time_iff now ttl (map (λ (j : Joined F). j.1) (group row.ref (left_join rows events)))
            none).1
          (
            refl,
            λ e there.
                let (j, grouped, q) =
                  of_mem_map (λ (j : Joined F). j.1) (group row.ref (left_join rows events))
                    there in
                let (joined, mine) =
                  mem-keep (λ (j : Joined F). same_ref j.0.ref row.ref) (left_join rows events) j
                    grouped in
                let (x, fits) = left_join_row rows events j joined in
                let (event, same) = fits e q in
                old e event (same ∙ (same_ref_iff j.0.ref row.ref).0 mine),
          ),
  )

  -- A session with an active variant.
  abbrev pub HasActive : List (VariantRow F) → SessionRef → Type 0
  HasActive variants ref =
      (row : VariantRow F) × Memᴰ row variants × (is_active row ≡ true) × (row.ref ≡ ref)
