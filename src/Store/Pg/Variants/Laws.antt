-- ===== src/Store/Pg/Variants/Laws.antt =====
-- What is read of the variants of a session after they were set (internal/store/pg/store.go).
use prompt_graft.Base.{
  ℕ, Bool, true, false, Option, none, some, List, [], ◌∷◌, map, ◌≡◌, ◌≢◌, refl, ◌∙◌, sym, ap, subst,
  inl, inr, if◌then◌else◌, Bytes, ◌==◌, ==_refl, arith, All, Bool-cases,
}
use prompt_graft.Store.Types.{Variant, VariantSet, SessionRef}
use prompt_graft.Store.Pg.{same_ref, VariantRow}
use prompt_graft.Store.Pg.Keys.{same_ref_iff}
use prompt_graft.Store.Pg.Variants.{
  retire, new_row, has_key, set_variants, variant_of, latest, set_of, get_active_variants,
  retire_variants,
}
use prompt_graft.Store.Pg.Variants.Table.{
  IsKeyed, active, inserted, upsert_all, active-upsert_all, upsert_all-IsKeyed, upsert_all-IsUntil,
  retire-IsUntil, retire-IsKeyed,
}
use prompt_graft.Store.Pg.Variants.Order.{find_id, read, find_id-read, read-All, latest_same}
use prompt_graft.Store.Pg.Variants.Transaction.{set_variants_ok, set_variants_failed, active-retire}

same_ref_comm : (a b : SessionRef) → same_ref a b ≡ false → same_ref b a ≡ false
same_ref_comm a b e = elim (Bool-cases (same_ref b a)) [
  | inl q ↦
      let same : same_ref a b ≡ true = (same_ref_iff a b).1 (sym ((same_ref_iff b a).0 q)) in cc
  | inr q ↦ q
]

module _ {F : Type 0} where
  -- The variant with an id in what is read, and the last one of those that were set.
  abbrev pub find_variant : Bytes → List (Variant F) → Option (Variant F)
  find_variant id [] = none
  find_variant id (v ∷ variants) = if v.id == id then some v else find_variant id variants

  abbrev pub last_with : Bytes → Option (Variant F) → List (Variant F) → Option (Variant F)
  last_with id old [] = old
  last_with id old (v ∷ variants) = last_with id (if v.id == id then some v else old) variants

  abbrev as_variant : Option (VariantRow F) → Option (Variant F)
  as_variant none = none
  as_variant (some row) = some (variant_of row)

  has_key-new_row :
      (ref : SessionRef) (until : ℕ) (v : Variant F) (id : Bytes)
      → has_key ref id (new_row ref until v) ≡ (v.id == id)
  unfolding has_key
  has_key-new_row ref until v id = rw ((same_ref_iff ref ref).1 refl) refl

  has_key_other :
      (by ref : SessionRef) (until : ℕ) (v : Variant F) (id : Bytes)
      → same_ref by ref ≡ false
      → has_key ref id (new_row by until v) ≡ false
  unfolding has_key
  has_key_other by ref until v id e = rw e refl

  as_variant_if :
      (b : Bool) (ref : SessionRef) (until : ℕ) (v : Variant F) (old : Option (VariantRow F))
      → as_variant (if b then some (new_row ref until v) else old)
        ≡ (if b then some v else as_variant old)
  as_variant_if true ref until v old = refl
  as_variant_if false ref until v old = refl

  as_variant-inserted :
      (ref : SessionRef) (until : ℕ) (variants : List (Variant F)) (id : Bytes)
      (old : Option (VariantRow F))
      → as_variant (inserted ref until variants ref id old) ≡ last_with id (as_variant old) variants
  as_variant-inserted ref until [] id old = refl
  as_variant-inserted ref until (v ∷ variants) id old =
      as_variant-inserted ref until variants id
        (if has_key ref id (new_row ref until v) then some (new_row ref until v) else old)
      ∙ ap (λ o. last_with id o variants)
          (as_variant_if (has_key ref id (new_row ref until v)) ref until v old
            ∙ ap (λ b. if b then some v else as_variant old) (has_key-new_row ref until v id))

  inserted_other :
      (by ref : SessionRef) (until : ℕ) (variants : List (Variant F)) (id : Bytes)
      (old : Option (VariantRow F))
      → same_ref by ref ≡ false
      → inserted by until variants ref id old ≡ old
  inserted_other by ref until [] id old e = refl
  inserted_other by ref until (v ∷ variants) id old e =
      rw (has_key_other by ref until v id e) (inserted_other by ref until variants id old e)

  find_variant-map :
      (id : Bytes) (rows : List (VariantRow F))
      → find_variant id (map variant_of rows) ≡ as_variant (find_id id rows)
  unfolding find_id
  find_variant-map id [] = refl
  find_variant-map id (row ∷ rows) = ground (arith, find_variant-map id rows)

  -- What is read of a table in which the active rows of a session have one time.
  read_set :
      (before : Bytes → Bytes → Bool) (rows : List (VariantRow F)) (ref : SessionRef) (until : ℕ)
      → All (λ row. row.active_until ≡ until) rows
      → rows ≢ []
      → (vs : VariantSet F) × (set_of rows ≡ some vs)
        × (vs.variants ≡ map variant_of rows)
        × (vs.active_until ≡ until)
  read_set before [] ref until h n = absurd (n refl)
  read_set before (row ∷ rows) ref until h n = (
    record { variants = map variant_of (row ∷ rows); active_until = latest 0 (row ∷ rows) },
    refl,
    refl,
    latest_same until 0 (row ∷ rows) h (inr (refl, n)),
  )

  last_with-some :
      (id : Bytes) (v : Variant F) (variants : List (Variant F))
      → last_with id (some v) variants ≢ none
  last_with-some id v [] e = cc
  last_with-some id v (w ∷ variants) e = elim (Bool-cases (w.id == id)) [
    | inl q ↦ last_with-some id w variants (rw q at e)
    | inr q ↦ last_with-some id v variants (rw q at e)
  ]

  find_variant-read :
      (before : Bytes → Bytes → Bool) (now : ℕ) (rows : List (VariantRow F)) (ref : SessionRef)
      (variants : List (Variant F)) (until : ℕ) (id : Bytes)
      → IsKeyed rows
      → find_variant id
          (map variant_of (read before ref (upsert_all ref until variants (retire now ref rows))))
        ≡ last_with id none variants
  find_variant-read before now rows ref variants until id keyed =
      let next : List (VariantRow F) = upsert_all ref until variants (retire now ref rows) in
      let none_left : active ref id (retire now ref rows) ≡ none =
        active-retire now ref ref id rows ∙ rw ((same_ref_iff ref ref).1 refl) refl in
      find_variant-map id (read before ref next)
      ∙ ap as_variant (
          find_id-read before ref next id (
            upsert_all-IsKeyed ref until variants (retire now ref rows)
              (retire-IsKeyed now ref rows keyed))
          ∙ active-upsert_all ref until variants (retire now ref rows) ref id)
      ∙ as_variant-inserted ref until variants id (active ref id (retire now ref rows))
      ∙ ap (λ o. last_with id (as_variant o) variants) none_left

  get_active_variants_lem :
      (before : Bytes → Bytes → Bool) (rows : List (VariantRow F)) (ref : SessionRef)
      → get_active_variants before true rows ref ≡ some (set_of (read before ref rows))
  unfolding get_active_variants
  get_active_variants_lem before rows ref = refl

  abbrev pub ReadsAs :
      (Bytes → Bytes → Bool) → List (VariantRow F) → SessionRef → List (Variant F) → ℕ → Type 0
  ReadsAs before rows ref variants until =
      (vs : VariantSet F) × (get_active_variants before true rows ref ≡ some (some vs))
      × ((id : Bytes) → find_variant id vs.variants ≡ last_with id none variants)
      × (vs.active_until ≡ until)

  ReadsAs-upsert_all :
      (before : Bytes → Bytes → Bool) (now : ℕ) (rows : List (VariantRow F)) (ref : SessionRef)
      (v : Variant F) (variants : List (Variant F)) (until : ℕ)
      → IsKeyed rows
      → ReadsAs before
          (upsert_all ref until (v ∷ variants) (retire now ref rows))
          ref
          (v ∷ variants)
          until
  ReadsAs-upsert_all before now rows ref v variants until keyed =
      let next : List (VariantRow F) = upsert_all ref until (v ∷ variants) (retire now ref rows) in
      let found =
        λ (id : Bytes). find_variant-read before now rows ref (v ∷ variants) until id keyed in
      let some_row : read before ref next ≢ [] = λ e. last_with-some v.id v variants (
        ap (λ b. last_with v.id (if b then some v else none) variants) (sym (==_refl v.id))
        ∙ sym (found v.id)
        ∙ ap (λ r. find_variant v.id (map variant_of r)) e) in
      let (vs, is_set, same, time) =
        read_set before (read before ref next) ref until
          (read-All before ref until next (
            upsert_all-IsUntil ref until (v ∷ variants) (retire now ref rows)
              (retire-IsUntil now ref until rows)))
          some_row in
      (
        vs,
        get_active_variants_lem before next ref ∙ ap some is_set,
        λ id. ap (find_variant id) same ∙ found id,
        time,
      )

  -- A set of variants that was committed is what is read of its session: for each id the last variant set
  -- with it and no other, until the time given; what is active of other sessions stays. A
  -- transaction that fails at any statement leaves the table as it was. The table has its primary key.
  pub get_active_variants-set_variants :
      (before : Bytes → Bytes → Bool) (now : ℕ) (taken : ℕ → Bool) (rows : List (VariantRow F))
      (ref : SessionRef) (v : Variant F) (variants : List (Variant F)) (until : ℕ)
      → IsKeyed rows
      → ((set_variants now taken rows ref (v ∷ variants) until).0 ≡ true
          → ReadsAs before
              (set_variants now taken rows ref (v ∷ variants) until).1
              ref
              (v ∷ variants)
              until
            × ((other : SessionRef) (id : Bytes)
                → same_ref ref other ≡ false
                → active other id (set_variants now taken rows ref (v ∷ variants) until).1
                  ≡ active other id rows))
        × ((set_variants now taken rows ref (v ∷ variants) until).0 ≡ false
            → (set_variants now taken rows ref (v ∷ variants) until).1 ≡ rows)
  get_active_variants-set_variants before now taken rows ref v variants until keyed = (
    λ e.
        let after = set_variants_ok now taken rows ref (v ∷ variants) until e in
        (
          subst (λ r. ReadsAs before r ref (v ∷ variants) until) (sym after)
              (ReadsAs-upsert_all before now rows ref v variants until keyed),
          λ other id apart.
              ap (active other id) after
              ∙ active-upsert_all ref until (v ∷ variants) (retire now ref rows) other id
              ∙ inserted_other ref other until (v ∷ variants) id _ apart
              ∙ active-retire now ref other id rows
              ∙ rw (same_ref_comm ref other apart) refl,
        ),
    set_variants_failed now taken rows ref (v ∷ variants) until,
  )

  set_variants-IsKeyed :
      (now : ℕ) (taken : ℕ → Bool) (rows : List (VariantRow F)) (ref : SessionRef)
      (variants : List (Variant F)) (until : ℕ)
      → IsKeyed rows
      → IsKeyed (set_variants now taken rows ref variants until).1
  set_variants-IsKeyed now taken rows ref variants until h =
      elim (Bool-cases (set_variants now taken rows ref variants until).0) [
        | inl e ↦ subst IsKeyed (sym (set_variants_ok now taken rows ref variants until e)) (
            upsert_all-IsKeyed ref until variants (retire now ref rows)
              (retire-IsKeyed now ref rows h))
        | inr e ↦ subst IsKeyed (sym (set_variants_failed now taken rows ref variants until e)) h
      ]

  retire_variants-IsKeyed :
      (now : ℕ) (taken : Bool) (rows : List (VariantRow F)) (ref : SessionRef)
      → IsKeyed rows
      → IsKeyed (retire_variants now taken rows ref).1
  unfolding retire_variants
  retire_variants-IsKeyed now true rows ref h = retire-IsKeyed now ref rows h
  retire_variants-IsKeyed now false rows ref h = h
