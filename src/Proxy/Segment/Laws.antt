-- ===== src/Proxy/Segment/Laws.antt =====
-- What the replaced segment is, and when there is one.
use prompt_graft.Base.{
  Bool, ℕ, zero, suc, ◌+◌, ◌-◌, ◌≤◌, true, false, List, [], ◌∷◌, ◌≡◌, ◌≢◌, ◌⊎◌, ◌↔◌, refl, inl, inr,
  length, take, drop, is_empty, ltb, leb, Bytes, arith, Bool-cases, All,
}
use prompt_graft.Text.{contains, trim_space, fields, join}
use prompt_graft.Text.Search.{contains-part}
use prompt_graft.Text.Words.{fields-ne-nil, join-take, join-ne-nil}
use prompt_graft.Proxy.Segment.{
  blank, longest_prefix, any_window, search_words, find_replacement_segment,
}

abbrev pub words_of : Bytes → List Bytes
words_of template = fields (trim_space template)

-- `seg` is the join of `count` words from place `start` on, at least 3, and the prompt holds it.
pub record IsWindow (prompt : Bytes) (words : List Bytes) (seg : Bytes) : Type 0 where
  pub start : ℕ
  pub count : ℕ
  pub enough : 3 ≤ count
  pub within : start + count ≤ length words
  pub joined : seg ≡ join (take count (drop start words)) blank
  pub occurs : contains prompt seg ≡ true

IsWindow-later :
    {prompt : Bytes} (w : Bytes) {ws : List Bytes} {seg : Bytes}
    → IsWindow prompt ws seg
    → IsWindow prompt (w ∷ ws) seg
IsWindow-later w h = record {
  start = suc h.start;
  count = h.count;
  enough = h.enough;
  within = omega (arith, h.within);
  joined = h.joined;
  occurs = h.occurs;
}

longest_prefix-IsWindow :
    (prompt : Bytes) (words : List Bytes) (k : ℕ)
    → k + 2 ≤ length words
    → longest_prefix prompt words k ≢ []
    → IsWindow prompt words (longest_prefix prompt words k)
unfolding longest_prefix
longest_prefix-IsWindow prompt words zero h ne = absurd (ne refl)
longest_prefix-IsWindow prompt words (suc k) h ne =
    elim (Bool-cases (contains prompt (join (take (suc k + 2) words) blank))) [
      | inl e ↦ rw e (record {
        start = 0;
        count = suc k + 2;
        enough = omega arith;
        within = omega arith;
        joined = refl;
        occurs = e;
      })
      | inr e ↦ rw e (longest_prefix-IsWindow prompt words k (omega arith) (rw e at ne))
    ]

any_window-IsWindow :
    (prompt : Bytes) (words : List Bytes)
    → any_window prompt words ≢ []
    → IsWindow prompt words (any_window prompt words)
unfolding any_window
any_window-IsWindow prompt [] ne = absurd (ne refl)
any_window-IsWindow prompt (w ∷ ws) ne = elim (Bool-cases (leb 3 (length (w ∷ ws)))) [
  | inr short ↦ absurd (ne (rw short))
  | inl long ↦ elim (Bool-cases (contains prompt (join (take 3 (w ∷ ws)) blank))) [
    | inl e ↦
        rw (long, e)
          (record {
            start = 0;
            count = 3;
            enough = omega arith;
            within = ground arith;
            joined = refl;
            occurs = e;
          })
    | inr e ↦ rw (long, e) (IsWindow-later w (any_window-IsWindow prompt ws (rw (long, e) at ne)))
  ]
]

search_words-IsWindow :
    (prompt : Bytes) (words : List Bytes)
    → leb 3 (length words) ≡ true
    → search_words prompt words ≢ []
    → IsWindow prompt words (search_words prompt words)
unfolding search_words
search_words-IsWindow prompt words long ne =
    split_on (longest_prefix prompt words (length words - 2)) refl
  where
    split_on :
        (found : Bytes)
        → longest_prefix prompt words (length words - 2) ≡ found
        → IsWindow prompt words (search_words prompt words)
    split_on [] e = rw e (any_window-IsWindow prompt words (rw e at ne))
    split_on (c ∷ cs) e =
        let ne' : longest_prefix prompt words (length words - 2) ≢ [] = λ z. cc in
        let found : IsWindow prompt words (longest_prefix prompt words (length words - 2)) =
          longest_prefix-IsWindow prompt words (length words - 2) (ground arith) ne' in
        rw e (rw e at found)

-- A segment that is found is a run of at least three words of the template, joined by blanks,
-- and it stands in the prompt.
pub segment-IsWindow :
    (prompt template : Bytes)
    → find_replacement_segment prompt template ≢ []
    → IsWindow prompt (words_of template) (find_replacement_segment prompt template)
unfolding find_replacement_segment
segment-IsWindow prompt template ne = elim (Bool-cases (is_empty (trim_space template))) [
  | inl e ↦ absurd (ne (rw e))
  | inr e ↦ elim (Bool-cases (ltb (length (words_of template)) 3)) [
    | inl short ↦ absurd (ne (rw (e, short)))
    | inr long ↦
        rw (e, long)
          (search_words-IsWindow prompt (words_of template) (ground arith) (rw (e, long) at ne))
  ]
]

-- No window of three words occurs when the second loop ends empty-handed.
any_window_complete :
    (prompt : Bytes) (words : List Bytes) (i : ℕ)
    → All (λ w. w ≢ []) words
    → any_window prompt words ≡ []
    → i + 3 ≤ length words
    → contains prompt (join (take 3 (drop i words)) blank) ≡ false
unfolding any_window
any_window_complete prompt [] i ok e h = absurd (omega arith)
any_window_complete prompt (w ∷ ws) i (here, ok) e h =
    elim (Bool-cases (contains prompt (join (take 3 (w ∷ ws)) blank))) [
      | inl found ↦
          let long : leb 3 (length (w ∷ ws)) ≡ true = ground arith in
          absurd (join-ne-nil blank w (take 2 ws) here (rw (long, found) at e))
      | inr missed ↦
          let long : leb 3 (length (w ∷ ws)) ≡ true = ground arith in
          at_place i h missed (any_window_complete prompt ws) (rw (long, missed) at e)
    ]
  where
    at_place :
        (i : ℕ)
        → i + 3 ≤ length (w ∷ ws)
        → contains prompt (join (take 3 (w ∷ ws)) blank) ≡ false
        → ((j : ℕ)
            → All (λ v. v ≢ []) ws
            → any_window prompt ws ≡ []
            → j + 3 ≤ length ws
            → contains prompt (join (take 3 (drop j ws)) blank) ≡ false)
        → any_window prompt ws ≡ []
        → contains prompt (join (take 3 (drop i (w ∷ ws))) blank) ≡ false
    at_place zero h missed rec e = missed
    at_place (suc j) h missed rec e = rec j ok e (omega arith)

not_contains-longer :
    (prompt : Bytes) (n : ℕ) (ws : List Bytes)
    → 3 ≤ n
    → contains prompt (join (take 3 ws) blank) ≡ false
    → contains prompt (join (take n ws) blank) ≡ false
not_contains-longer prompt n ws h e = elim (Bool-cases (contains prompt (join (take n ws) blank))) [
  | inr absent ↦ absent
  | inl found ↦
      let (suf, parts) = join-take blank 3 n ws h in
      let inner : contains prompt (join (take 3 ws) blank) ≡ true =
        contains-part prompt [] (join (take 3 ws) blank) suf (rw parts at found) in
      cc
]

search_words-eq-nil :
    (prompt : Bytes) (words : List Bytes)
    → search_words prompt words ≡ []
    → any_window prompt words ≡ []
unfolding search_words
search_words-eq-nil prompt words e = ground arith

pub segment-search :
    (prompt template : Bytes)
    → is_empty (trim_space template) ≡ false
    → 3 ≤ length (words_of template)
    → find_replacement_segment prompt template ≡ search_words prompt (words_of template)
unfolding find_replacement_segment
segment-search prompt template e h = ground arith

fields_nil : fields [] ≡ []
unfolding fields
fields_nil = refl

nil-cases : (s : Bytes) → (s ≡ []) ⊎ (s ≢ [])
nil-cases [] = inl refl
nil-cases (c ∷ s) = inr (λ e. cc)

pub not-is_empty_of_words :
    (template : Bytes) → 3 ≤ length (words_of template) → is_empty (trim_space template) ≡ false
not-is_empty_of_words template h = on_trimmed (trim_space template) h
  where
    on_trimmed : (t : Bytes) → 3 ≤ length (fields t) → is_empty t ≡ false
    on_trimmed [] k =
        let k' : 3 ≤ length {A = Bytes} [] = (rw fields_nil at k) in absurd (omega arith)
    on_trimmed (c ∷ t) k = refl

pub clash : {b : Bool} → b ≡ false → b ≡ true → ⊥
clash p q = cc

-- No segment is found exactly when no run of three or more consecutive words of the template,
-- joined by blanks, stands in the prompt.
pub segment-eq-nil_iff :
    (prompt template : Bytes)
    → (find_replacement_segment prompt template ≡ []) ↔ (
        (i n : ℕ)
        → 3 ≤ n
        → i + n ≤ length (words_of template)
        → contains prompt (join (take n (drop i (words_of template))) blank) ≡ false)
segment-eq-nil_iff prompt template = (absent, nothing)
  where
    absent :
        find_replacement_segment prompt template ≡ []
        → (i n : ℕ) → 3 ≤ n
        → i + n ≤ length (words_of template)
        → contains prompt (join (take n (drop i (words_of template))) blank) ≡ false
    absent e i n h k =
        let enough : 3 ≤ length (words_of template) = omega arith in
        let full = not-is_empty_of_words template enough in
        let none_found =
          search_words-eq-nil prompt _ (rw (segment-search prompt template full enough) at e) in
        not_contains-longer prompt n (drop i (words_of template)) h (
          any_window_complete prompt (words_of template) i (fields-ne-nil (trim_space template))
            none_found (omega arith))

    nothing :
        ((i n : ℕ)
          → 3 ≤ n
          → i + n ≤ length (words_of template)
          → contains prompt (join (take n (drop i (words_of template))) blank) ≡ false)
        → find_replacement_segment prompt template ≡ []
    nothing absent_all = elim (nil-cases (find_replacement_segment prompt template)) [
      | inl e ↦ e
      | inr ne ↦
          let w = segment-IsWindow prompt template ne in
          let missed = absent_all w.start w.count w.enough w.within in
          absurd (clash (rw w.joined missed) w.occurs)
    ]
