-- ===== src/Text.antt =====
-- The functions of Go's `strings` package that the program calls, over byte lists. Spaces, letters
-- and cases are those of ASCII: the Unicode spaces and the cases of other letters are left alone.
pub mod Search
pub mod Replace
pub mod Words
use prompt_graft.Base.{
  ℕ, zero, suc, ◌+◌, ◌-◌, Bool, true, false, ◌&&◌, ◌||◌, Option, none, some, List, [], ◌∷◌, ◌++◌,
  map, reverse, length, take, drop, is_empty, eqb, leb, if◌then◌else◌, Bytes, ◌==◌,
}

-- strings.HasPrefix(s, p)
unfoldable pub has_prefix : Bytes → Bytes → Bool
has_prefix s [] = true
has_prefix [] (b ∷ p) = false
has_prefix (a ∷ s) (b ∷ p) = eqb a b && has_prefix s p

-- strings.Contains(s, p)
unfoldable pub contains : Bytes → Bytes → Bool
unfolding has_prefix
contains [] p = has_prefix [] p
contains (a ∷ s) p = has_prefix (a ∷ s) p || contains s p

-- strings.Index(s, p), with `none` for -1
unfoldable pub index : Bytes → Bytes → Option ℕ
unfolding has_prefix
index [] p = if has_prefix [] p then some 0 else none
index (a ∷ s) p =
    let later = index s p in
    if has_prefix (a ∷ s) p then some 0 else elim later [ none ↦ none | some i ↦ some (suc i) ]

-- strings.TrimPrefix(s, p)
unfoldable pub trim_prefix : Bytes → Bytes → Bytes
unfolding has_prefix
trim_prefix s p = if has_prefix s p then drop (length p) s else s

-- strings.Replace(s, old, new, 1)
unfoldable pub replace_first : Bytes → Bytes → Bytes → Bytes
unfolding has_prefix
replace_first [] old new = if has_prefix [] old then new else []
replace_first (a ∷ s) old new =
    let later = replace_first s old new in
    if has_prefix (a ∷ s) old then new ++ drop (length old) (a ∷ s) else a ∷ later

unfoldable pub is_space : ℕ → Bool
is_space c = (leb 9 c && leb c 13) || eqb c 32

unfoldable pub trim_left : Bytes → Bytes
unfolding is_space
trim_left [] = []
trim_left (c ∷ s) = let rest = trim_left s in if is_space c then rest else c ∷ s

-- strings.TrimSpace(s)
unfoldable pub trim_space : Bytes → Bytes
unfolding trim_left
trim_space s = reverse (trim_left (reverse (trim_left s)))

-- The word that is being read is put out when it is not empty.
abbrev pub close_word : Bytes → List Bytes → List Bytes
close_word [] words = words
close_word (c ∷ cur) words = (c ∷ cur) ∷ words

unfoldable pub fields_from : Bytes → Bytes → List Bytes
unfolding is_space
fields_from cur [] = close_word cur []
fields_from cur (c ∷ s) =
    let after = close_word cur (fields_from [] s) in
    let inside = fields_from (cur ++ c ∷ []) s in if is_space c then after else inside

-- strings.Fields(s)
unfoldable pub fields : Bytes → List Bytes
unfolding fields_from
fields s = fields_from [] s

-- strings.Join(words, sep)
unfoldable pub join : List Bytes → Bytes → Bytes
join [] sep = []
join (w ∷ []) sep = w
join (w ∷ v ∷ ws) sep = w ++ sep ++ join (v ∷ ws) sep

-- The bytes before the first separator byte, and the parts after it.
unfoldable pub split_from : ℕ → Bytes → Bytes → List Bytes
split_from sep cur [] = cur ∷ []
split_from sep cur (c ∷ s) =
    let closed = cur ∷ split_from sep [] s in
    let longer = split_from sep (cur ++ c ∷ []) s in if eqb c sep then closed else longer

-- strings.Split(s, sep), with a separator of one byte
unfoldable pub split : Bytes → ℕ → List Bytes
unfolding split_from
split s sep = split_from sep [] s

unfoldable pub lower : ℕ → ℕ
lower c = if leb b'A' c && leb c b'Z' then c + 32 else c

unfoldable pub upper : ℕ → ℕ
upper c = if leb b'a' c && leb c b'z' then c - 32 else c

-- strings.ToLower(s), strings.ToUpper(s)
unfoldable pub to_lower : Bytes → Bytes
unfolding lower
to_lower s = map lower s

unfoldable pub to_upper : Bytes → Bytes
unfolding upper
to_upper s = map upper s

-- strings.EqualFold(s, t)
unfoldable pub equal_fold : Bytes → Bytes → Bool
unfolding to_lower ◌==◌
equal_fold s t = to_lower s == to_lower t

-- strings.Split(s, sep) for a `sep` that is not empty: `k` bytes of a separator are still to skip.
unfoldable pub split_text_from : Bytes → ℕ → Bytes → Bytes → List Bytes
split_text_from sep k part [] = part ∷ []
split_text_from sep (suc k) part (c ∷ s) = split_text_from sep k part s
split_text_from sep zero part (c ∷ s) =
    let cut = split_text_from sep (length sep - 1) [] s in
    let on = split_text_from sep zero (part ++ c ∷ []) s in
    if has_prefix (c ∷ s) sep then part ∷ cut else on

unfoldable pub split_text : Bytes → Bytes → List Bytes
split_text s sep = split_text_from sep 0 [] s
