-- ===== src/Proxy/Headers/Laws.antt =====
-- What the header functions do to the values under each key.
use prompt_graft.Base.{
  ℕ, Bool, true, false, ◌||◌, List, [], ◌∷◌, ◌++◌, ◌≡◌, ◌↔◌, refl, ap, sym, inl, inr, ◌∙◌,
  if◌then◌else◌, Bytes, ==_iff, arith, Bool-cases, append_assoc, append-nil, codes,
}
use prompt_graft.Text.{to_lower, to_upper, upper, lower, equal_fold}
use prompt_graft.Proxy.Headers.{Header, values, del, add, set, add_all, is_withheld, copy_headers}

pub equal_fold_iff : (s t : Bytes) → (equal_fold s t ≡ true) ↔ (to_lower s ≡ to_lower t)
unfolding equal_fold
equal_fold_iff s t = ==_iff (to_lower s) (to_lower t)

pub values-del :
    (h : Header) (k j : Bytes) → values (del h k) j ≡ (if equal_fold k j then [] else values h j)
unfolding values del
values-del [] k j = ground arith
values-del ((i, vs) ∷ h) k j =
    ground (arith, values-del h k j, equal_fold_iff i k, equal_fold_iff i j, equal_fold_iff k j)

pub values-add :
    (h : Header) (k v j : Bytes)
    → values (add h k v) j ≡ (if equal_fold k j then values h j ++ v ∷ [] else values h j)
unfolding values add
values-add [] k v j = ground arith
values-add ((i, vs) ∷ h) k v j =
    ground (arith, values-add h k v j, equal_fold_iff i k, equal_fold_iff i j, equal_fold_iff k j)

pub values-set :
    (h : Header) (k v j : Bytes)
    → values (set h k v) j ≡ (if equal_fold k j then v ∷ [] else values h j)
unfolding values set
values-set h k v j = ground (arith, values-del h k j)

pub values-add_all :
    (h : Header) (k : Bytes) (vs : List Bytes) (j : Bytes)
    → values (add_all h k vs) j ≡ (if equal_fold k j then values h j ++ vs else values h j)
unfolding add_all
values-add_all h k [] j = elim (Bool-cases (equal_fold k j)) [
  | inl e ↦ rw e (sym (append-nil _))
  | inr e ↦ rw e
]
values-add_all h k (v ∷ vs) j = elim (Bool-cases (equal_fold k j)) [
  | inl e ↦
      rw (values-add_all (add h k v) k vs j, e, values-add h k v j, e)
        (append_assoc (values h j) (v ∷ []) vs)
  | inr e ↦ rw (values-add_all (add h k v) k vs j, e, values-add h k v j, e)
]

upper-lower : (c : ℕ) → upper (lower c) ≡ upper c
unfolding upper lower
upper-lower c = ground arith

to_upper-to_lower : (s : Bytes) → to_upper (to_lower s) ≡ to_upper s
unfolding to_upper to_lower
to_upper-to_lower [] = refl
to_upper-to_lower (c ∷ s) = cc (upper-lower c, to_upper-to_lower s)

-- The test on a key does not see its case.
pub is_withheld-fold : (k j : Bytes) → equal_fold k j ≡ true → is_withheld k ≡ is_withheld j
unfolding is_withheld
is_withheld-fold k j e =
    let same = (equal_fold_iff k j).0 e in
    let up : to_upper k ≡ to_upper j =
      sym (to_upper-to_lower k) ∙ ap to_upper same ∙ to_upper-to_lower j in
    rw up (ground (arith, equal_fold_iff k (codes "Host"), equal_fold_iff j (codes "Host")))

abbrev pub has_key : Header → Bytes → Bool
has_key [] k = false
has_key ((j, vs) ∷ h) k = equal_fold j k || has_key h k

abbrev pub HasDistinctKeys : Header → Type 0
HasDistinctKeys [] = Unit
HasDistinctKeys ((k, vs) ∷ h) = (has_key h k ≡ false) × HasDistinctKeys h

-- One round of the copying loop.
abbrev copied : Header → Bytes → List Bytes → Header
copied dst k vals = if is_withheld k then dst else add_all (del dst k) k vals

values-copied_other :
    (dst : Header) (k : Bytes) (vals : List Bytes) (j : Bytes)
    → equal_fold k j ≡ false
    → values (copied dst k vals) j ≡ values dst j
values-copied_other dst k vals j e =
    ground (arith, values-add_all (del dst k) k vals j, values-del dst k j)

values-copied_self :
    (dst : Header) (k : Bytes) (vals : List Bytes) (j : Bytes)
    → equal_fold k j ≡ true
    → is_withheld k ≡ false
    → values (copied dst k vals) j ≡ vals
values-copied_self dst k vals j e kept =
    ground (arith, values-add_all (del dst k) k vals j, values-del dst k j)

values-copied_withheld :
    (dst : Header) (k : Bytes) (vals : List Bytes) (j : Bytes)
    → is_withheld j ≡ true
    → values (copied dst k vals) j ≡ values dst j
values-copied_withheld dst k vals j h = elim (Bool-cases (equal_fold k j)) [
  | inl e ↦ rw (is_withheld-fold k j e, h)
  | inr e ↦ values-copied_other dst k vals j e
]

-- A control header, or Host, is what it was before the copy.
pub values-copy_headers_withheld :
    (dst src : Header) (j : Bytes)
    → is_withheld j ≡ true
    → values (copy_headers dst src) j ≡ values dst j
unfolding copy_headers
values-copy_headers_withheld dst [] j h = refl
values-copy_headers_withheld dst ((k, vals) ∷ src) j h =
    values-copy_headers_withheld (copied dst k vals) src j h ∙ values-copied_withheld dst k vals j h

has_key-fold :
    (h : Header) (k j : Bytes) → equal_fold k j ≡ true → has_key h k ≡ false → has_key h j ≡ false
has_key-fold [] k j e n = refl
has_key-fold ((i, vs) ∷ h) k j e n =
    ground (arith, has_key-fold h k j e, equal_fold_iff i k, equal_fold_iff i j, equal_fold_iff k j)

pub values_absent : (h : Header) (j : Bytes) → has_key h j ≡ false → values h j ≡ []
unfolding values
values_absent [] j n = refl
values_absent ((i, vs) ∷ h) j n = ground (arith, values_absent h j)

-- A header that is copied has the values of the source where the source has the key.
pub values-copy_headers :
    (dst src : Header) (j : Bytes)
    → HasDistinctKeys src
    → is_withheld j ≡ false
    → values (copy_headers dst src) j ≡ (if has_key src j then values src j else values dst j)
unfolding copy_headers values
values-copy_headers dst [] j d n = refl
values-copy_headers dst ((k, vals) ∷ src) j (fresh, d) n =
    let ih = values-copy_headers (copied dst k vals) src j d n in
    elim (Bool-cases (equal_fold k j)) [
      | inl e ↦
          let gone = has_key-fold src k j e fresh in
          let kept = is_withheld-fold k j e ∙ n in
          rw e (ih ∙ rw gone (values-copied_self dst k vals j e kept))
      | inr e ↦ rw (e, ← values-copied_other dst k vals j e) ih
    ]

pub has_key-del : (h : Header) (k j : Bytes) → has_key h j ≡ false → has_key (del h k) j ≡ false
unfolding del
has_key-del [] k j n = refl
has_key-del ((i, vs) ∷ h) k j n = ground (arith, has_key-del h k j)

not_has_key-del_self : (h : Header) (k : Bytes) → has_key (del h k) k ≡ false
unfolding del
not_has_key-del_self [] k = refl
not_has_key-del_self ((i, vs) ∷ h) k = ground (arith, not_has_key-del_self h k)

HasDistinctKeys-del : (h : Header) (k : Bytes) → HasDistinctKeys h → HasDistinctKeys (del h k)
unfolding del
HasDistinctKeys-del [] k d = tt
HasDistinctKeys-del ((i, vs) ∷ h) k (fresh, d) = elim (Bool-cases (equal_fold i k)) [
  | inl e ↦ rw e (HasDistinctKeys-del h k d)
  | inr e ↦ rw e (has_key-del h k i fresh, HasDistinctKeys-del h k d)
]

pub HasDistinctKeys-set :
    (h : Header) (k v : Bytes) → HasDistinctKeys h → HasDistinctKeys (set h k v)
unfolding set
HasDistinctKeys-set h k v d = (not_has_key-del_self h k, HasDistinctKeys-del h k d)
