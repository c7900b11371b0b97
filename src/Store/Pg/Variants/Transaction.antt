-- ===== src/Store/Pg/Variants/Transaction.antt =====
-- What the transaction that sets variants (internal/store/pg/store.go) does to the table of variants.
use prompt_graft.Base.{
  ℕ, Bool, true, false, ◌&&◌, Option, none, some, List, [], ◌∷◌, ◌≡◌, refl, ◌∙◌, sym, ap, subst,
  inl, inr, if◌then◌else◌, Bytes, arith, Bool-cases,
}
use prompt_graft.Store.Types.{Variant, SessionRef}
use prompt_graft.Store.Pg.{same_ref, VariantRow}
use prompt_graft.Store.Pg.Variants.{
  retire_row, retire, has_key, insert_all, committed, set_variants,
}
use prompt_graft.Store.Pg.Variants.Table.{
  find_row, map_row, if_active, active, upsert_all, insert_all_lem, find_row-retire, has_key_iff,
}

module _ {F : Type 0} where
  -- What a transaction that succeeds does to the table.
  pub set_variants_ok :
      (now : ℕ) (taken : ℕ → Bool) (rows : List (VariantRow F)) (ref : SessionRef)
      (variants : List (Variant F)) (until : ℕ)
      → (set_variants now taken rows ref variants until).0 ≡ true
      → (set_variants now taken rows ref variants until).1
        ≡ upsert_all ref until variants (retire now ref rows)
  unfolding set_variants
  set_variants_ok now taken rows ref variants until e = elim (Bool-cases (taken 0 && taken 1)) [
    | inl q ↦ rw q (
        of_inserts (insert_all taken 2 ref until variants (retire now ref rows))
          (λ next k. insert_all_lem taken 2 ref until variants (retire now ref rows) next k)
          (rw q at e))
    | inr q ↦ let bad : false ≡ true = rw q at e in cc
  ]
    where
      of_inserts :
          (o : Option (List (VariantRow F)))
          → ((next : List (VariantRow F))
              → o ≡ some next
              → upsert_all ref until variants (retire now ref rows) ≡ next)
          → (committed rows o).0 ≡ true
          → (committed rows o).1 ≡ upsert_all ref until variants (retire now ref rows)
      of_inserts none f e = cc
      of_inserts (some next) f e = sym (f next refl)

  -- A transaction that fails leaves the table as it was.
  pub set_variants_failed :
      (now : ℕ) (taken : ℕ → Bool) (rows : List (VariantRow F)) (ref : SessionRef)
      (variants : List (Variant F)) (until : ℕ)
      → (set_variants now taken rows ref variants until).0 ≡ false
      → (set_variants now taken rows ref variants until).1 ≡ rows
  unfolding set_variants
  set_variants_failed now taken rows ref variants until e =
      either (taken 0 && taken 1) (insert_all taken 2 ref until variants (retire now ref rows)) e
    where
      either :
          (b : Bool) (o : Option (List (VariantRow F)))
          → (if b then committed rows o else (false, rows)).0 ≡ false
          → (if b then committed rows o else (false, rows)).1 ≡ rows
      either true none e = refl
      either true (some next) e = cc
      either false o e = refl

  find_row_ref :
      (ref : SessionRef) (id : Bytes) (rows : List (VariantRow F)) (row : VariantRow F)
      → find_row ref id rows ≡ some row
      → row.ref ≡ ref
  unfolding find_row
  find_row_ref ref id [] row e = cc
  find_row_ref ref id (r ∷ rows) row e = elim (Bool-cases (has_key ref id r)) [
    | inl q ↦
        let same : r ≡ row = ground arith in
        subst (λ (x : VariantRow F). x.ref ≡ ref) same ((has_key_iff ref id r).0 q).0
    | inr q ↦ find_row_ref ref id rows row (rw q at e)
  ]

  if_active-retire_row :
      (now : ℕ) (by : SessionRef) (row : VariantRow F)
      → if_active (some (retire_row now by row))
        ≡ (if same_ref row.ref by then none else if_active (some row))
  if_active-retire_row now by row = ground arith

  no_row : (b : Bool) → ◌≡◌ {A = Option (VariantRow F)} none (if b then none else none)
  no_row true = refl
  no_row false = refl

  pub active-retire :
      (now : ℕ) (by ref : SessionRef) (id : Bytes) (rows : List (VariantRow F))
      → active ref id (retire now by rows) ≡ (if same_ref ref by then none else active ref id rows)
  active-retire now by ref id rows =
      ap if_active (find_row-retire now by ref id rows)
      ∙ of_row (find_row ref id rows) (λ row e. find_row_ref ref id rows row e)
    where
      of_row :
          (o : Option (VariantRow F))
          → ((row : VariantRow F) → o ≡ some row → row.ref ≡ ref)
          → if_active (map_row (retire_row now by) o)
            ≡ (if same_ref ref by then none else if_active o)
      of_row none f = no_row (same_ref ref by)
      of_row (some row) f =
          if_active-retire_row now by row
          ∙ ap (λ r. if same_ref r by then none else if_active (some row)) (f row refl)
