-- ===== src/Proxy/Headers.antt =====
-- HTTP headers, and the functions of internal/proxy/forwarder.go that copy them. A header is the list
-- of its map's entries in the order of an iteration; its keys are in canonical form, so that two keys
-- are the same name exactly when they agree up to case.
pub mod Laws
use prompt_graft.Base.{
  ℕ, Bool, true, false, ◌||◌, Option, none, some, List, [], ◌∷◌, ◌++◌, is_empty, if◌then◌else◌,
  Bytes, codes,
}
use prompt_graft.Text.{has_prefix, to_upper, equal_fold, trim_space}

abbrev pub Header : Type 0
Header = List (Bytes × List Bytes)

-- The values under a key.
unfoldable pub values : Header → Bytes → List Bytes
values [] k = []
values ((j, vs) ∷ h) k = if equal_fold j k then vs else values h k

abbrev pub first_of_values : List Bytes → Bytes
first_of_values [] = []
first_of_values (v ∷ vs) = v

-- h.Get(k), h.Del(k), h.Add(k, v), h.Set(k, v)
unfoldable pub get : Header → Bytes → Bytes
unfolding values
get h k = first_of_values (values h k)

unfoldable pub del : Header → Bytes → Header
del [] k = []
del ((j, vs) ∷ h) k = let rest = del h k in if equal_fold j k then rest else (j, vs) ∷ rest

unfoldable pub add : Header → Bytes → Bytes → Header
add [] k v = (k, v ∷ []) ∷ []
add ((j, vs) ∷ h) k v =
    let rest = add h k v in if equal_fold j k then (j, vs ++ v ∷ []) ∷ h else (j, vs) ∷ rest

unfoldable pub set : Header → Bytes → Bytes → Header
unfolding del
set h k v = (k, v ∷ []) ∷ del h k

-- for _, v := range vals { dst.Add(k, v) }
unfoldable pub add_all : Header → Bytes → List Bytes → Header
unfolding add
add_all h k [] = h
add_all h k (v ∷ vs) = add_all (add h k v) k vs

abbrev pub control_prefix : Bytes
control_prefix = codes "X-PG-"

abbrev pub authorization : Bytes
authorization = codes "Authorization"

-- The keys that copyHeaders leaves out.
unfoldable pub is_withheld : Bytes → Bool
is_withheld k = equal_fold k (codes "Host") || has_prefix (to_upper k) control_prefix

unfoldable pub copy_headers : Header → Header → Header
unfolding is_withheld del add_all
copy_headers dst [] = dst
copy_headers dst ((k, vals) ∷ src) =
    copy_headers (if is_withheld k then dst else add_all (del dst k) k vals) src

unfoldable pub apply_upstream_auth : Header → Bytes → Header
unfolding del set
apply_upstream_auth dst auth =
    let bare = del dst authorization in
    let trimmed = trim_space auth in
    if is_empty trimmed then bare else set bare authorization trimmed
