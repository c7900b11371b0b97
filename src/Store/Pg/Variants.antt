-- ===== src/Store/Pg/Variants.antt =====
-- The variants of internal/store/pg/store.go.
pub mod Table
pub mod Order
pub mod Transaction
pub mod Laws
use prompt_graft.Base.{
  ℕ, suc, ◌+◌, Bool, true, false, not, ◌&&◌, Option, none, some, List, [], ◌∷◌, map, keep, ltb,
  if◌then◌else◌, Bytes, ◌==◌,
}
use prompt_graft.Store.Types.{Variant, VariantSet, SessionRef}
use prompt_graft.Store.Pg.{same_ref, VariantRow, order_by}

module _ {F : Type 0} where
  abbrev pub is_active : VariantRow F → Bool
  is_active row = elim row.retired_at [ none ↦ true | some time ↦ false ]

  -- WHERE key_hash = $1 AND session_id = $2 AND retired_at IS NULL
  abbrev pub is_active_of : SessionRef → VariantRow F → Bool
  is_active_of ref row = same_ref row.ref ref && is_active row

  abbrev pub retire_row : ℕ → SessionRef → VariantRow F → VariantRow F
  retire_row now ref row =
      if is_active_of ref row then record row { retired_at = some now } else row

  unfoldable pub retire : ℕ → SessionRef → List (VariantRow F) → List (VariantRow F)
  retire now ref rows = map (retire_row now ref) rows

  abbrev pub new_row : SessionRef → ℕ → Variant F → VariantRow F
  new_row ref until v = record {
    ref = ref;
    id = v.id;
    system_prompt = v.system_prompt;
    weight = v.weight;
    active_until = until;
    retired_at = none;
  }

  unfoldable pub has_key : SessionRef → Bytes → VariantRow F → Bool
  has_key ref id row = same_ref row.ref ref && (row.id == id)

  -- INSERT … ON CONFLICT (key_hash, session_id, id) DO UPDATE
  unfoldable pub upsert_row : VariantRow F → List (VariantRow F) → List (VariantRow F)
  upsert_row new [] = new ∷ []
  upsert_row new (row ∷ rows) =
      if has_key new.ref new.id row then new ∷ rows else row ∷ upsert_row new rows

  -- The inserts and the commit of the transaction: `taken i` is whether its statement `i` succeeds.
  unfoldable pub insert_all :
      (ℕ → Bool)
      → ℕ
      → SessionRef
      → ℕ
      → List (Variant F)
      → List (VariantRow F)
      → Option (List (VariantRow F))
  insert_all taken i ref until [] rows = if taken i then some rows else none
  insert_all taken i ref until (v ∷ variants) rows =
      let rest =
        insert_all taken (suc i) ref until variants (upsert_row (new_row ref until v) rows) in
      if taken i then rest else none

  -- A transaction that is not committed is rolled back.
  abbrev pub committed :
      List (VariantRow F) → Option (List (VariantRow F)) → Bool × List (VariantRow F)
  committed rows none = (false, rows)
  committed rows (some next) = (true, next)

  -- The statement 0 begins the transaction, 1 retires.
  unfoldable pub set_variants :
      ℕ
      → (ℕ → Bool)
      → List (VariantRow F)
      → SessionRef
      → List (Variant F)
      → ℕ
      → Bool × List (VariantRow F)
  set_variants now taken rows ref variants until =
      if taken 0 && taken 1
      then committed rows (insert_all taken 2 ref until variants (retire now ref rows))
      else (false, rows)

  abbrev pub variant_of : VariantRow F → Variant F
  variant_of row = record { id = row.id; system_prompt = row.system_prompt; weight = row.weight }

  -- The loop's activeUntil
  unfoldable pub latest : ℕ → List (VariantRow F) → ℕ
  latest time [] = time
  latest time (row ∷ rows) =
      latest (if ltb time row.active_until then row.active_until else time) rows

  abbrev pub set_of : List (VariantRow F) → Option (VariantSet F)
  set_of [] = none
  set_of (row ∷ rows) =
      some (record { variants = map variant_of (row ∷ rows); active_until = latest 0 (row ∷ rows) })

  -- `before` orders the ids as the database does.
  unfoldable pub get_active_variants :
      (Bytes → Bytes → Bool)
      → Bool
      → List (VariantRow F)
      → SessionRef
      → Option (Option (VariantSet F))
  get_active_variants before taken rows ref =
      if taken
      then some (set_of (order_by (λ a b. before a.id b.id) (keep (is_active_of ref) rows)))
      else none

  unfoldable pub retire_variants :
      ℕ → Bool → List (VariantRow F) → SessionRef → Bool × List (VariantRow F)
  retire_variants now taken rows ref = if taken then (true, retire now ref rows) else (false, rows)
