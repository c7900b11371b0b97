-- ===== src/Store/Pg/Variants/Table.antt =====
-- The table of variants (internal/store/pg/store.go): its key, and what its statements do to a row.
use prompt_graft.Base.{
  ℕ, suc, Bool, true, false, Option, none, some, List, [], ◌∷◌, ◌≡◌, ◌↔◌, refl, ◌∙◌, ap, subst, inl,
  inr, if◌then◌else◌, Bytes, ◌==◌, ==_iff, and-eq-true, arith, All, Bool-cases,
}
use prompt_graft.Store.Types.{Variant, SessionRef}
use prompt_graft.Store.Pg.{same_ref, VariantRow}
use prompt_graft.Store.Pg.Keys.{same_ref_iff}
use prompt_graft.Store.Pg.Variants.{
  is_active, is_active_of, retire_row, retire, new_row, has_key, upsert_row, insert_all,
}

pub has_key_iff :
    {F : Type 0} (ref : SessionRef) (id : Bytes) (row : VariantRow F)
    → (has_key ref id row ≡ true) ↔ ((row.ref ≡ ref) × (row.id ≡ id))
unfolding has_key
has_key_iff ref id row = (
  λ h.
      let both = and-eq-true (same_ref row.ref ref) (row.id == id) h in
      ((same_ref_iff row.ref ref).0 both.0, (==_iff row.id id).0 both.1),
  λ e. rw ((same_ref_iff row.ref ref).1 e.0, (==_iff row.id id).1 e.1) refl,
)

pub has_key_same :
    {F : Type 0} (ref : SessionRef) (id : Bytes) (a b : VariantRow F)
    → a.ref ≡ b.ref
    → a.id ≡ b.id
    → has_key ref id a ≡ has_key ref id b
unfolding has_key
has_key_same ref id a b p q = rw (p, q) refl

module _ {F : Type 0} where
  unfoldable pub find_row : SessionRef → Bytes → List (VariantRow F) → Option (VariantRow F)
  find_row ref id [] = none
  find_row ref id (row ∷ rows) = if has_key ref id row then some row else find_row ref id rows

  find_row_nil : (ref : SessionRef) (id : Bytes) → find_row ref id [] ≡ none
  unfolding find_row
  find_row_nil ref id = refl

  -- PRIMARY KEY (key_hash, session_id, id)
  abbrev pub IsKeyed : List (VariantRow F) → Type 0
  IsKeyed [] = Unit
  IsKeyed (row ∷ rows) = (find_row row.ref row.id rows ≡ none) × IsKeyed rows

  abbrev pub same_key : VariantRow F → SessionRef → Bytes → Bool
  same_key row ref id = has_key ref id row

  pub find_row-upsert_row :
      (new : VariantRow F) (rows : List (VariantRow F)) (ref : SessionRef) (id : Bytes)
      → find_row ref id (upsert_row new rows)
        ≡ (if has_key ref id new then some new else find_row ref id rows)
  unfolding find_row upsert_row
  find_row-upsert_row new [] ref id = refl
  find_row-upsert_row new (row ∷ rows) ref id = ground (
    arith,
    has_key_iff new.ref new.id row,
    has_key_iff ref id new,
    has_key_iff ref id row,
    find_row-upsert_row new rows ref id,
  )

  not_key :
      (new row : VariantRow F)
      → has_key new.ref new.id row ≡ false
      → has_key row.ref row.id new ≡ false
  not_key new row e = ground (arith, has_key_iff new.ref new.id row, has_key_iff row.ref row.id new)

  pub upsert_row-IsKeyed :
      (new : VariantRow F) (rows : List (VariantRow F))
      → IsKeyed rows
      → IsKeyed (upsert_row new rows)
  unfolding upsert_row
  upsert_row-IsKeyed new [] h = (find_row_nil new.ref new.id, tt)
  upsert_row-IsKeyed new (row ∷ rows) h = elim (Bool-cases (has_key new.ref new.id row)) [
    | inl e ↦
        let (p, q) = (has_key_iff new.ref new.id row).0 e in
        rw e (
          subst (λ r. find_row r new.id rows ≡ none) p
              (subst (λ i. find_row row.ref i rows ≡ none) q h.0),
          h.1,
        )
    | inr e ↦ rw e (
      find_row-upsert_row new rows row.ref row.id ∙ rw (not_key new row e) h.0,
      upsert_row-IsKeyed new rows h.1,
    )
  ]

  abbrev pub map_row : (VariantRow F → VariantRow F) → Option (VariantRow F) → Option (VariantRow F)
  map_row f none = none
  map_row f (some row) = some (f row)

  retire_row_key :
      (now : ℕ) (ref : SessionRef) (row : VariantRow F)
      → ((retire_row now ref row).ref ≡ row.ref) × ((retire_row now ref row).id ≡ row.id)
  retire_row_key now ref row = ground arith

  pub find_row-retire :
      (now : ℕ) (by ref : SessionRef) (id : Bytes) (rows : List (VariantRow F))
      → find_row ref id (retire now by rows) ≡ map_row (retire_row now by) (find_row ref id rows)
  unfolding find_row retire
  find_row-retire now by ref id [] = refl
  find_row-retire now by ref id (row ∷ rows) =
      let (p, q) = retire_row_key now by row in
      let same : has_key ref id (retire_row now by row) ≡ has_key ref id row =
        has_key_same ref id (retire_row now by row) row p q in
      rw same (split (has_key ref id row) (find_row-retire now by ref id rows))
    where
      split :
          (b : Bool)
          → find_row ref id (retire now by rows)
            ≡ map_row (retire_row now by) (find_row ref id rows)
          → (if b then some (retire_row now by row) else find_row ref id (retire now by rows))
            ≡ map_row (retire_row now by) (if b then some row else find_row ref id rows)
      split true ih = refl
      split false ih = ih

  pub retire-IsKeyed :
      (now : ℕ) (by : SessionRef) (rows : List (VariantRow F))
      → IsKeyed rows
      → IsKeyed (retire now by rows)
  unfolding retire
  retire-IsKeyed now by [] h = tt
  retire-IsKeyed now by (row ∷ rows) h =
      let (p, q) = retire_row_key now by row in
      (
        rw (p, q) (find_row-retire now by row.ref row.id rows ∙ rw h.0 refl),
        retire-IsKeyed now by rows h.1,
      )

  abbrev pub if_active : Option (VariantRow F) → Option (VariantRow F)
  if_active none = none
  if_active (some row) = if is_active row then some row else none

  -- The active row of a session's variant.
  abbrev pub active : SessionRef → Bytes → List (VariantRow F) → Option (VariantRow F)
  active ref id rows = if_active (find_row ref id rows)

  -- The row that the inserts leave of a variant, from what was active before.
  abbrev pub inserted :
      SessionRef
      → ℕ
      → List (Variant F)
      → SessionRef
      → Bytes
      → Option (VariantRow F)
      → Option (VariantRow F)
  inserted by until [] ref id old = old
  inserted by until (v ∷ variants) ref id old =
      inserted by until variants ref id
        (if has_key ref id (new_row by until v) then some (new_row by until v) else old)

  active-upsert_row :
      (by : SessionRef) (until : ℕ) (v : Variant F) (rows : List (VariantRow F)) (ref : SessionRef)
      (id : Bytes)
      → active ref id (upsert_row (new_row by until v) rows) ≡ (
          if has_key ref id (new_row by until v)
          then some (new_row by until v)
          else active ref id rows)
  active-upsert_row by until v rows ref id =
      ap if_active (find_row-upsert_row (new_row by until v) rows ref id)
      ∙ split (has_key ref id (new_row by until v))
    where
      split :
          (b : Bool)
          → if_active (if b then some (new_row by until v) else find_row ref id rows)
            ≡ (if b then some (new_row by until v) else active ref id rows)
      split true = refl
      split false = refl

  -- The inserts, when none fails.
  unfoldable pub upsert_all :
      SessionRef → ℕ → List (Variant F) → List (VariantRow F) → List (VariantRow F)
  upsert_all by until [] rows = rows
  upsert_all by until (v ∷ variants) rows =
      upsert_all by until variants (upsert_row (new_row by until v) rows)

  pub insert_all_lem :
      (taken : ℕ → Bool) (i : ℕ) (by : SessionRef) (until : ℕ) (variants : List (Variant F))
      (rows rows' : List (VariantRow F))
      → insert_all taken i by until variants rows ≡ some rows'
      → upsert_all by until variants rows ≡ rows'
  unfolding insert_all upsert_all
  insert_all_lem taken i by until [] rows rows' e = elim (Bool-cases (taken i)) [
    | inl q ↦ ground arith
    | inr q ↦ absurd (ground arith)
  ]
  insert_all_lem taken i by until (v ∷ variants) rows rows' e = elim (Bool-cases (taken i)) [
    | inl q ↦
        insert_all_lem taken (suc i) by until variants (upsert_row (new_row by until v) rows) rows'
          (rw q at e)
    | inr q ↦ absurd (ground arith)
  ]

  pub active-upsert_all :
      (by : SessionRef) (until : ℕ) (variants : List (Variant F)) (rows : List (VariantRow F))
      (ref : SessionRef) (id : Bytes)
      → active ref id (upsert_all by until variants rows)
        ≡ inserted by until variants ref id (active ref id rows)
  unfolding upsert_all
  active-upsert_all by until [] rows ref id = refl
  active-upsert_all by until (v ∷ variants) rows ref id =
      active-upsert_all by until variants (upsert_row (new_row by until v) rows) ref id
      ∙ ap (inserted by until variants ref id) (active-upsert_row by until v rows ref id)

  -- What each insert keeps, all keep.
  upsert_all_keeps :
      (P : List (VariantRow F) → Type 0) (by : SessionRef) (until : ℕ) (variants : List (Variant F))
      (rows : List (VariantRow F))
      → ((v : Variant F) (r : List (VariantRow F)) → P r → P (upsert_row (new_row by until v) r))
      → P rows
      → P (upsert_all by until variants rows)
  unfolding upsert_all
  upsert_all_keeps P by until [] rows keeps h = h
  upsert_all_keeps P by until (v ∷ variants) rows keeps h =
      upsert_all_keeps P by until variants (upsert_row (new_row by until v) rows) keeps
        (keeps v rows h)

  pub upsert_all-IsKeyed :
      (by : SessionRef) (until : ℕ) (variants : List (Variant F)) (rows : List (VariantRow F))
      → IsKeyed rows
      → IsKeyed (upsert_all by until variants rows)
  upsert_all-IsKeyed by until variants rows =
      upsert_all_keeps IsKeyed by until variants rows
        (λ v r. upsert_row-IsKeyed (new_row by until v) r)

  -- The rows of the session that are active have its new time.
  abbrev pub IsUntil : SessionRef → ℕ → VariantRow F → Type 0
  IsUntil ref until row = is_active_of ref row ≡ true → row.active_until ≡ until

  upsert_row-IsUntil :
      (by : SessionRef) (until : ℕ) (v : Variant F) (rows : List (VariantRow F))
      → All (IsUntil by until) rows
      → All (IsUntil by until) (upsert_row (new_row by until v) rows)
  unfolding upsert_row
  upsert_row-IsUntil by until v [] h = (λ q. refl, tt)
  upsert_row-IsUntil by until v (row ∷ rows) h = elim (Bool-cases (has_key by v.id row)) [
    | inl e ↦ rw e (λ q. refl, h.1)
    | inr e ↦ rw e (h.0, upsert_row-IsUntil by until v rows h.1)
  ]

  pub upsert_all-IsUntil :
      (by : SessionRef) (until : ℕ) (variants : List (Variant F)) (rows : List (VariantRow F))
      → All (IsUntil by until) rows
      → All (IsUntil by until) (upsert_all by until variants rows)
  upsert_all-IsUntil by until variants rows =
      upsert_all_keeps (All (IsUntil by until)) by until variants rows
        (λ v r. upsert_row-IsUntil by until v r)

  retired_row :
      (now : ℕ) (by : SessionRef) (row : VariantRow F)
      → is_active_of by (retire_row now by row) ≡ false
  retired_row now by row = ground arith

  pub retire-IsUntil :
      (now : ℕ) (by : SessionRef) (until : ℕ) (rows : List (VariantRow F))
      → All (IsUntil by until) (retire now by rows)
  unfolding retire
  retire-IsUntil now by until [] = tt
  retire-IsUntil now by until (row ∷ rows) =
      (λ q. cc (q, retired_row now by row), retire-IsUntil now by until rows)
