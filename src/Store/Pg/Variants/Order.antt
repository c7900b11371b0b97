-- ===== src/Store/Pg/Variants/Order.antt =====
-- The rows that `GetActiveVariants` (internal/store/pg/store.go) reads, and their order.
use prompt_graft.Base.{
  ℕ, Bool, true, false, ◌&&◌, Option, none, some, List, [], ◌∷◌, ◌≡◌, ◌≢◌, ◌⊎◌, refl, ◌∙◌, sym, ap,
  subst, inl, inr, keep, ltb, if◌then◌else◌, Bytes, ◌==◌, ==_iff, and-eq-true, arith, All,
  Bool-cases,
}
use prompt_graft.Store.Types.{SessionRef}
use prompt_graft.Store.Pg.{same_ref, VariantRow, insert_by, order_by}
use prompt_graft.Store.Pg.Groups.{order_by-All}
use prompt_graft.Store.Pg.Keys.{same_ref_iff}
use prompt_graft.Store.Pg.Variants.{is_active, is_active_of, has_key, latest}
use prompt_graft.Store.Pg.Variants.Table.{
  find_row, IsKeyed, if_active, active, has_key_iff, IsUntil,
}

module _ {F : Type 0} where
  unfoldable pub find_id : Bytes → List (VariantRow F) → Option (VariantRow F)
  find_id id [] = none
  find_id id (row ∷ rows) = if row.id == id then some row else find_id id rows

  abbrev pub IsDistinct : List (VariantRow F) → Type 0
  IsDistinct [] = Unit
  IsDistinct (row ∷ rows) = (find_id row.id rows ≡ none) × IsDistinct rows

  keyed_out :
      (ref : SessionRef) (id : Bytes) (row : VariantRow F) (rows : List (VariantRow F))
      → find_row row.ref row.id rows ≡ none
      → row.ref ≡ ref
      → row.id ≡ id
      → find_row ref id rows ≡ none
  keyed_out ref id row rows h p q =
      subst (λ r. find_row r id rows ≡ none) p (subst (λ i. find_row row.ref i rows ≡ none) q h)

  find_id_if :
      (id : Bytes) (b : Bool) (row : VariantRow F) (rest : List (VariantRow F))
      → find_id id (if b then row ∷ rest else rest)
        ≡ (if b then (if row.id == id then some row else find_id id rest) else find_id id rest)
  unfolding find_id
  find_id_if id true row rest = refl
  find_id_if id false row rest = refl

  if_active_if :
      (b : Bool) (row : VariantRow F) (o : Option (VariantRow F))
      → if_active (if b then some row else o)
        ≡ (if b then (if is_active row then some row else none) else if_active o)
  if_active_if true row o = refl
  if_active_if false row o = refl

  kept_or_not :
      (s a i : Bool) (row : VariantRow F) (found old : Option (VariantRow F))
      → found ≡ if_active old
      → ((s && i) ≡ true → old ≡ none)
      → (if s && a then (if i then some row else found) else found)
        ≡ (if s && i then (if a then some row else none) else if_active old)
  kept_or_not true true true row found old e h = refl
  kept_or_not true true false row found old e h = e
  kept_or_not true false true row found old e h = e ∙ ap if_active (h refl)
  kept_or_not true false false row found old e h = e
  kept_or_not false true i row found old e h = e
  kept_or_not false false i row found old e h = e

  -- Of the rows of the session, the one with an id is the active row of its key.
  pub find_id-keep :
      (ref : SessionRef) (id : Bytes) (rows : List (VariantRow F))
      → IsKeyed rows
      → find_id id (keep (is_active_of ref) rows) ≡ active ref id rows
  unfolding find_id keep find_row has_key
  find_id-keep ref id [] h = refl
  find_id-keep ref id (row ∷ rows) h =
      find_id_if id (is_active_of ref row) row (keep (is_active_of ref) rows)
      ∙ (kept_or_not (same_ref row.ref ref) (is_active row) (row.id == id) row
            (find_id id (keep (is_active_of ref) rows)) (find_row ref id rows)
            (find_id-keep ref id rows h.1)
            (λ q.
              let same = (has_key_iff ref id row).0 q in
              keyed_out ref id row rows h.0 same.0 same.1)
          ∙ sym (if_active_if (has_key ref id row) row (find_row ref id rows)))

  find_id-insert_by :
      (before : VariantRow F → VariantRow F → Bool) (row : VariantRow F)
      (rows : List (VariantRow F)) (id : Bytes)
      → find_id row.id rows ≡ none
      → find_id id (insert_by before row rows)
        ≡ (if row.id == id then some row else find_id id rows)
  unfolding insert_by find_id
  find_id-insert_by before row [] id h = refl
  find_id-insert_by before row (b ∷ rows) id h = ground (
    arith,
    ==_iff row.id id,
    ==_iff b.id id,
    ==_iff b.id row.id,
    find_id-insert_by before row rows id,
  )

  find_id-cons :
      (id : Bytes) (row : VariantRow F) (rows : List (VariantRow F))
      → find_id id (row ∷ rows) ≡ (if row.id == id then some row else find_id id rows)
  unfolding find_id
  find_id-cons id row rows = refl

  not_found :
      (row b : VariantRow F) (rows : List (VariantRow F))
      → find_id row.id (b ∷ rows) ≡ none
      → ((row.id == b.id) ≡ false) × (find_id row.id rows ≡ none)
  unfolding find_id
  not_found row b rows h = ground (arith, ==_iff b.id row.id, ==_iff row.id b.id)

  insert_by-IsDistinct :
      (before : VariantRow F → VariantRow F → Bool) (row : VariantRow F)
      (rows : List (VariantRow F))
      → find_id row.id rows ≡ none
      → IsDistinct rows
      → IsDistinct (insert_by before row rows)
  unfolding insert_by
  insert_by-IsDistinct before row [] h d = (h, tt)
  insert_by-IsDistinct before row (b ∷ rows) h d = elim (Bool-cases (before b row)) [
    | inl e ↦
        let (apart, rest) = not_found row b rows h in
        rw e (
          find_id-insert_by before row rows b.id rest ∙ rw apart d.0,
          insert_by-IsDistinct before row rows rest d.1,
        )
    | inr e ↦ rw e (h, d)
  ]

  order_by-IsDistinct :
      (before : VariantRow F → VariantRow F → Bool) (rows : List (VariantRow F))
      → IsDistinct rows
      → IsDistinct (order_by before rows)
        × ((id : Bytes) → find_id id (order_by before rows) ≡ find_id id rows)
  unfolding order_by
  order_by-IsDistinct before [] d = (tt, λ id. refl)
  order_by-IsDistinct before (row ∷ rows) d =
      let (rest, same) = order_by-IsDistinct before rows d.1 in
      (
        insert_by-IsDistinct before row (order_by before rows) (same row.id ∙ d.0) rest,
        λ id.
            find_id-insert_by before row (order_by before rows) id (same row.id ∙ d.0)
            ∙ ap (λ o. if row.id == id then some row else o) (same id)
            ∙ sym (find_id-cons id row rows),
      )

  keep-IsDistinct :
      (ref : SessionRef) (rows : List (VariantRow F))
      → IsKeyed rows
      → IsDistinct (keep (is_active_of ref) rows)
  unfolding keep
  keep-IsDistinct ref [] h = tt
  keep-IsDistinct ref (row ∷ rows) h = elim (Bool-cases (is_active_of ref row)) [
    | inl e ↦
        let mine =
          (same_ref_iff row.ref ref).0 (and-eq-true (same_ref row.ref ref) (is_active row) e).0 in
        rw e (
          find_id-keep ref row.id rows h.1
              ∙ ap if_active (keyed_out ref row.id row rows h.0 mine refl),
          keep-IsDistinct ref rows h.1,
        )
    | inr e ↦ rw e (keep-IsDistinct ref rows h.1)
  ]

  -- The rows that are read, in their order.
  abbrev pub read : (Bytes → Bytes → Bool) → SessionRef → List (VariantRow F) → List (VariantRow F)
  read before ref rows = order_by (λ a b. before a.id b.id) (keep (is_active_of ref) rows)

  pub find_id-read :
      (before : Bytes → Bytes → Bool) (ref : SessionRef) (rows : List (VariantRow F)) (id : Bytes)
      → IsKeyed rows
      → find_id id (read before ref rows) ≡ active ref id rows
  find_id-read before ref rows id h =
      (order_by-IsDistinct (λ a b. before a.id b.id) (keep (is_active_of ref) rows)
          (keep-IsDistinct ref rows h)).1
        id
      ∙ find_id-keep ref id rows h

  keep-All :
      (ref : SessionRef) (until : ℕ) (rows : List (VariantRow F))
      → All (IsUntil ref until) rows
      → All (λ row. row.active_until ≡ until) (keep (is_active_of ref) rows)
  unfolding keep
  keep-All ref until [] h = tt
  keep-All ref until (row ∷ rows) h = elim (Bool-cases (is_active_of ref row)) [
    | inl e ↦ rw e (h.0 e, keep-All ref until rows h.1)
    | inr e ↦ rw e (keep-All ref until rows h.1)
  ]

  pub read-All :
      (before : Bytes → Bytes → Bool) (ref : SessionRef) (until : ℕ) (rows : List (VariantRow F))
      → All (IsUntil ref until) rows
      → All (λ row. row.active_until ≡ until) (read before ref rows)
  read-All before ref until rows h =
      order_by-All (λ row. row.active_until ≡ until) (λ a b. before a.id b.id)
        (keep (is_active_of ref) rows) (keep-All ref until rows h)

  pub latest_same :
      (until time : ℕ) (rows : List (VariantRow F))
      → All (λ row. row.active_until ≡ until) rows
      → (time ≡ until) ⊎ ((time ≡ 0) × (rows ≢ []))
      → latest time rows ≡ until
  unfolding latest
  latest_same until time [] h (inl e) = e
  latest_same until time [] h (inr e) = absurd (e.1 refl)
  latest_same until time (row ∷ rows) h e =
      latest_same until (if ltb time row.active_until then row.active_until else time) rows h.1
        (inl (ground (arith, h.0)))
