-- ===== src/Text/Words.antt =====
-- Words and their joins.
use prompt_graft.Base.{
  ℕ, zero, suc, ◌≤◌, List, [], ◌∷◌, ◌++◌, ◌≡◌, ◌≢◌, refl, sym, inl, inr, take, Bytes, arith,
  append_assoc, append-nil, Bool-cases, All,
}
use prompt_graft.Text.{is_space, close_word, fields_from, fields, join}

append-ne-nil : (cur : Bytes) (c : ℕ) → (cur ++ c ∷ []) ≢ []
append-ne-nil [] c h = cc
append-ne-nil (d ∷ cur) c h = cc

close_word-ne-nil :
    (cur : Bytes) (ws : List Bytes) → All (λ w. w ≢ []) ws → All (λ w. w ≢ []) (close_word cur ws)
close_word-ne-nil [] ws h = h
close_word-ne-nil (c ∷ cur) ws h = ((λ e. cc), h)

fields_from-ne-nil : (cur s : Bytes) → All (λ w. w ≢ []) (fields_from cur s)
unfolding fields_from
fields_from-ne-nil cur [] = close_word-ne-nil cur [] tt
fields_from-ne-nil cur (c ∷ s) = elim (Bool-cases (is_space c)) [
  | inl e ↦ rw e (close_word-ne-nil cur (fields_from [] s) (fields_from-ne-nil [] s))
  | inr e ↦ rw e (fields_from-ne-nil (cur ++ c ∷ []) s)
]

-- No word is empty.
pub fields-ne-nil : (s : Bytes) → All (λ w. w ≢ []) (fields s)
unfolding fields
fields-ne-nil s = fields_from-ne-nil [] s

-- A join of more words begins with the join of fewer.
pub join-take :
    (sep : Bytes) (m n : ℕ) (ws : List Bytes)
    → m ≤ n
    → (suf : Bytes) × (join (take n ws) sep ≡ join (take m ws) sep ++ suf)
unfolding join
join-take sep zero n ws h = (join (take n ws) sep, refl)
join-take sep (suc m) zero ws h = absurd (omega arith)
join-take sep (suc m) (suc n) [] h = ([], refl)
join-take sep (suc zero) (suc zero) (w ∷ ws) h = ([], sym (append-nil w))
join-take sep (suc zero) (suc (suc n)) (w ∷ []) h = ([], sym (append-nil w))
join-take sep (suc zero) (suc (suc n)) (w ∷ v ∷ ws) h =
    (sep ++ join (v ∷ take n ws) sep, simp append_assoc)
join-take sep (suc (suc m)) (suc zero) ws h = absurd (omega arith)
join-take sep (suc (suc m)) (suc (suc n)) (w ∷ []) h = ([], sym (append-nil w))
join-take sep (suc (suc m)) (suc (suc n)) (w ∷ v ∷ ws) h =
    let (suf, e) = join-take sep (suc m) (suc n) (v ∷ ws) (omega arith) in
    (suf, rw e (simp append_assoc))

-- A join of words is not empty when its first word is not.
pub join-ne-nil : (sep w : Bytes) (ws : List Bytes) → w ≢ [] → join (w ∷ ws) sep ≢ []
unfolding join
join-ne-nil sep w [] h = h
join-ne-nil sep [] (v ∷ ws) h = absurd (h refl)
join-ne-nil sep (c ∷ w) (v ∷ ws) h = cc
