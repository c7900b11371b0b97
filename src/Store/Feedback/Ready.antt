-- ===== src/Store/Feedback/Ready.antt =====
-- `ReadySessions` of internal/store/redis/feedback.go. `pages` are the answers of the SCAN calls up to
-- the one whose cursor is 0; `none` is an error.
pub mod Laws
use prompt_graft.Base.{
  ℕ, ◌+◌, Bool, true, false, not, ◌&&◌, Option, none, some, List, [], ◌∷◌, ◌++◌, leb, ◌-◌,
  if◌then◌else◌, Bytes,
}
use prompt_graft.Base.Int.{ℤ, pos, negsuc, is_positive, ltb_ℤ}
use prompt_graft.Base.Decimal.{parse_int}
use prompt_graft.Text.{split}
use prompt_graft.Store.Types.{SessionRef}
use prompt_graft.Store.Keys.{colon}
use prompt_graft.Store.Hashes.{Redis}
use prompt_graft.Store.Feedback.{total_rated, last_optimized}

abbrev pub Pages : Type 0
Pages = List (Option (List Bytes))

abbrev pub add_ℕ : ℤ → ℕ → ℤ
add_ℕ (pos n) m = pos (n + m)
add_ℕ (negsuc n) m = if leb m n then negsuc (n - m) else pos (m - n - 1)

-- time.Since(time.Unix(last, 0)) < every, for a time that is set
unfoldable pub is_recent : ℕ → ℕ → ℤ → Bool
is_recent now every last = is_positive last && ltb_ℤ (pos now) (add_ℕ last every)

unfoldable pub is_ready : ℕ → ℤ → ℕ → (Bytes → Bytes) → Bool
is_ready now min_samples every vals =
    not (ltb_ℤ (parse_int (vals total_rated)) min_samples)
    && not (is_recent now every (parse_int (vals last_optimized)))

-- A key of four parts names a session.
abbrev pub session_of : List Bytes → Option SessionRef
session_of (a ∷ b ∷ key_hash ∷ session ∷ []) =
    some (record { key_hash = key_hash; session_id = session })
session_of _ = none

module _ {S : Type 0} (redis : Redis S) (now : ℕ) (min_samples : ℤ) (every : ℕ) where
  abbrev pub if_ready : SessionRef → Option (Bytes → Bytes) → List SessionRef
  if_ready ref none = []
  if_ready ref (some vals) = if is_ready now min_samples every vals then ref ∷ [] else []

  abbrev pub ready_parts : S → Bytes → Option SessionRef → List SessionRef
  ready_parts s key none = []
  ready_parts s key (some ref) = if_ready ref (redis.hgetall s key)

  unfoldable pub ready_key : S → Bytes → List SessionRef
  ready_key s key = ready_parts s key (session_of (split key colon))

  unfoldable pub ready_keys : S → List Bytes → List SessionRef
  ready_keys s [] = []
  ready_keys s (key ∷ keys) = ready_key s key ++ ready_keys s keys

  -- The sessions found, and whether a SCAN failed.
  unfoldable pub ready_sessions : S → Pages → List SessionRef × Bool
  ready_sessions s [] = ([], false)
  ready_sessions s (none ∷ pages) = ([], true)
  ready_sessions s (some keys ∷ pages) =
      let (refs, failed) = ready_sessions s pages in (ready_keys s keys ++ refs, failed)
