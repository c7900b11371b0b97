-- ===== src/Proxy/Segment.antt =====
-- `findReplacementSegment` of internal/proxy/handler.go: the part of a prompt that a variant replaces.
pub mod Laws
pub mod Longest
use prompt_graft.Base.{
  ℕ, zero, suc, ◌+◌, ◌-◌, Bool, true, false, Option, none, some, List, [], ◌∷◌, length, take, drop,
  is_empty, ltb, leb, if◌then◌else◌, Bytes, codes,
}
use prompt_graft.Text.{contains, trim_space, fields, join}

abbrev pub blank : Bytes
blank = codes " "

-- for n := len(words); n >= 3; n--: `k` is the number of rounds left, and n is k + 2
unfoldable pub longest_prefix : Bytes → List Bytes → ℕ → Bytes
longest_prefix prompt words zero = []
longest_prefix prompt words (suc k) =
    let candidate = join (take (suc k + 2) words) blank in
    let shorter = longest_prefix prompt words k in
    if contains prompt candidate then candidate else shorter

-- for i := 0; i+3 <= len(words); i++: the list is words[i:]
unfoldable pub any_window : Bytes → List Bytes → Bytes
any_window prompt [] = []
any_window prompt (w ∷ ws) =
    let candidate = join (take 3 (w ∷ ws)) blank in
    let later = any_window prompt ws in
    if leb 3 (length (w ∷ ws)) then (if contains prompt candidate then candidate else later) else []

-- The first loop's result, or else the second's: a candidate of at least 3 words is not empty.
unfoldable pub search_words : Bytes → List Bytes → Bytes
unfolding longest_prefix any_window
search_words prompt words =
    let found = longest_prefix prompt words (length words - 2) in
    if is_empty found then any_window prompt words else found

unfoldable pub find_replacement_segment : Bytes → Bytes → Bytes
unfolding search_words
find_replacement_segment prompt template =
    let trimmed = trim_space template in
    let words = fields trimmed in
    if is_empty trimmed then [] else if ltb (length words) 3 then [] else search_words prompt words
