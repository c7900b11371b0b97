-- ===== src/Store/Pg/Rows.antt =====
-- The tables of internal/store/pg/store.go with one row for a session or a conversation.
use prompt_graft.Base.{
  true, Option, none, some, List, [], ◌∷◌, ◌≡◌, ◌↔◌, refl, if◌then◌else◌, Bytes, ◌==◌, ==_iff,
  and-eq-true, arith,
}
use prompt_graft.Store.Types.{SessionRef}
use prompt_graft.Store.Pg.{same_ref, LogRow, upsert, select, is_row, insert_new}
use prompt_graft.Store.Pg.Keys.{same_ref_iff}

module _ {V : Type 0} where
  pub select-upsert :
      (ref : SessionRef) (v : V) (rows : List (SessionRef × V)) (other : SessionRef)
      → select other (upsert ref v rows)
        ≡ (if same_ref ref other then some v else select other rows)
  unfolding select upsert
  select-upsert ref v [] other = refl
  select-upsert ref v ((r, w) ∷ rows) other = ground (
    arith,
    same_ref_iff r ref,
    same_ref_iff r other,
    same_ref_iff ref other,
    select-upsert ref v rows other,
  )

pub is_row_iff :
    (ref : SessionRef) (id : Bytes) (row : LogRow)
    → (is_row ref id row ≡ true) ↔ ((row.ref ≡ ref) × (row.conversation_id ≡ id))
unfolding is_row
is_row_iff ref id row = (
  λ h.
      let both = and-eq-true (same_ref row.ref ref) (row.conversation_id == id) h in
      ((same_ref_iff row.ref ref).0 both.0, (==_iff row.conversation_id id).0 both.1),
  λ e. rw ((same_ref_iff row.ref ref).1 e.0, (==_iff row.conversation_id id).1 e.1) refl,
)

unfoldable pub find_log : SessionRef → Bytes → List LogRow → Option LogRow
find_log ref id [] = none
find_log ref id (row ∷ rows) = if is_row ref id row then some row else find_log ref id rows

abbrev pub first {ℓ} : {A : Type ℓ} → Option A → Option A → Option A
first none o = o
first (some x) o = some x

pub find_log-insert_new :
    (new : LogRow) (rows : List LogRow) (ref : SessionRef) (id : Bytes)
    → find_log ref id (insert_new new rows)
      ≡ first (find_log ref id rows) (if is_row ref id new then some new else none)
unfolding find_log insert_new
find_log-insert_new new [] ref id = refl
find_log-insert_new new (row ∷ rows) ref id = ground (
  arith,
  is_row_iff new.ref new.conversation_id row,
  is_row_iff ref id row,
  is_row_iff ref id new,
  find_log-insert_new new rows ref id,
)
