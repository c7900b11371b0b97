-- ===== src/Proxy/Segment/Longest.antt =====
-- Which segment is taken when several parts of the template stand in the prompt.
use prompt_graft.Base.{
  ℕ, zero, suc, ◌+◌, ◌-◌, ◌≤◌, true, false, List, [], ◌∷◌, ◌≡◌, ◌≢◌, ◌∙◌, refl, inl, inr, length,
  take, eqb, eqb_iff, Bytes, arith, Bool-cases, All,
}
use prompt_graft.Text.{contains, trim_space, join}
use prompt_graft.Text.Words.{fields-ne-nil, join-ne-nil}
use prompt_graft.Proxy.Segment.{blank, longest_prefix, search_words, find_replacement_segment}
use prompt_graft.Proxy.Segment.Laws.{words_of, clash, not-is_empty_of_words, segment-search}

-- The longest prefix of the template that occurs wins: no longer prefix of it stands in the prompt.
longest_prefix-longest :
    (prompt : Bytes) (words : List Bytes) (k n : ℕ)
    → All (λ w. w ≢ []) words
    → 3 ≤ n
    → n ≤ k + 2
    → k + 2 ≤ length words
    → contains prompt (join (take n words) blank) ≡ true
    → (m : ℕ) × (n ≤ m)
      × (m ≤ length words)
      × (longest_prefix prompt words k ≡ join (take m words) blank)
unfolding longest_prefix
longest_prefix-longest prompt words zero n ok h k1 k2 c = absurd (omega arith)
longest_prefix-longest prompt words (suc k) n ok h k1 k2 c =
    elim (Bool-cases (contains prompt (join (take (suc k + 2) words) blank))) [
      | inl e ↦ (suc k + 2, k1, k2, rw e)
      | inr e ↦ rw e (longest_prefix-longest prompt words k n ok h (smaller e) (omega arith) c)
    ]
  where
    smaller : contains prompt (join (take (suc k + 2) words) blank) ≡ false → n ≤ k + 2
    smaller e = elim (Bool-cases (eqb n (suc k + 2))) [
      | inl same ↦ absurd (clash e (let eq = (eqb_iff n (suc k + 2)).0 same in rw eq at c))
      | inr other ↦ ground arith
    ]

join-take-ne-nil :
    (m : ℕ) (words : List Bytes)
    → All (λ w. w ≢ []) words
    → 1 ≤ m
    → 1 ≤ length words
    → join (take m words) blank ≢ []
join-take-ne-nil zero words ok h k = absurd (omega arith)
join-take-ne-nil (suc m) [] ok h k = absurd (omega arith)
join-take-ne-nil (suc m) (w ∷ ws) (here, ok) h k = join-ne-nil blank w (take m ws) here

search_words_of_prefix :
    (prompt : Bytes) (words : List Bytes) (found : Bytes)
    → longest_prefix prompt words (length words - 2) ≡ found
    → found ≢ []
    → search_words prompt words ≡ found
unfolding search_words
search_words_of_prefix prompt words [] e ne = absurd (ne refl)
search_words_of_prefix prompt words (c ∷ cs) e ne = rw e

-- When the first n words of the template, n at least 3, stand in the prompt as they are joined by
-- blanks, the segment is the join of the first m words for some m that is not below n.
pub segment-longest :
    (prompt template : Bytes) (n : ℕ)
    → 3 ≤ n
    → n ≤ length (words_of template)
    → contains prompt (join (take n (words_of template)) blank) ≡ true
    → (m : ℕ) × (n ≤ m)
      × (m ≤ length (words_of template))
      × (find_replacement_segment prompt template ≡ join (take m (words_of template)) blank)
segment-longest prompt template n h k c =
    let ws = words_of template in
    let ok = fields-ne-nil (trim_space template) in
    let (m, above, within, e) =
      longest_prefix-longest prompt ws (length ws - 2) n ok h (omega arith) (omega arith) c in
    let full = not-is_empty_of_words template (omega arith) in
    (
      m,
      above,
      within,
      segment-search prompt template full (omega arith)
          ∙ search_words_of_prefix prompt ws (join (take m ws) blank) e
              (join-take-ne-nil m ws ok (omega arith) (omega arith)),
    )
