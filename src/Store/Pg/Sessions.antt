-- ===== src/Store/Pg/Sessions.antt =====
-- `FindUnusedVariantSessions` of internal/store/pg/store.go. Groups come in the order of their first row,
-- which SQL leaves open.
pub mod Times
pub mod Join
pub mod Laws
use prompt_graft.Base.{
  ℕ, ◌+◌, Bool, true, false, not, ◌&&◌, Option, none, some, List, [], ◌∷◌, ◌++◌, map, keep, length,
  ltb, if◌then◌else◌,
}
use prompt_graft.Store.Types.{SessionRef}
use prompt_graft.Store.Pg.{same_ref, VariantRow, Event}
use prompt_graft.Store.Pg.Variants.{is_active}

pub record UnusedSession : Type 0 where
  pub ref : SessionRef
  pub active_variants : ℕ
  pub last_feedback_at : Option ℕ

-- GROUP BY key_hash, session_id
unfoldable pub distinct_refs : List SessionRef → List SessionRef
distinct_refs [] = []
distinct_refs (r ∷ refs) = r ∷ keep (λ x. not (same_ref x r)) (distinct_refs refs)

-- MAX of a column, which leaves NULL out
abbrev pub later : Option ℕ → ℕ → Option ℕ
later none n = some n
later (some m) n = some (if ltb m n then n else m)

unfoldable pub max_time : Option ℕ → List (Option Event) → Option ℕ
max_time m [] = m
max_time m (none ∷ es) = max_time m es
max_time m (some e ∷ es) = max_time (later m e.created_at) es

-- NULL, or before the cutoff now - ttl
abbrev pub is_unused : ℕ → ℕ → Option ℕ → Bool
is_unused now ttl none = true
is_unused now ttl (some time) = ltb (time + ttl) now

abbrev pub Joined : Type 0 → Type 0
Joined F = VariantRow F × Option Event

module _ {F : Type 0} where
  -- LEFT JOIN: a row with each event of its session, or once with none
  abbrev pub with_events : VariantRow F → List Event → List (Joined F)
  with_events row [] = (row, none) ∷ []
  with_events row (e ∷ es) = map (λ x. (row, some x)) (e ∷ es)

  unfoldable pub left_join : List (VariantRow F) → List Event → List (Joined F)
  left_join [] events = []
  left_join (row ∷ rows) events =
      with_events row (keep (λ e. same_ref e.ref row.ref) events) ++ left_join rows events

  abbrev pub group : SessionRef → List (Joined F) → List (Joined F)
  group ref joined = keep (λ j. same_ref j.0.ref ref) joined

  unfoldable pub last_feedback : SessionRef → List (Joined F) → Option ℕ
  last_feedback ref joined = max_time none (map (λ j. j.1) (group ref joined))

  -- COUNT(v.id) counts the rows of the join.
  abbrev pub unused_session : List (Joined F) → SessionRef → UnusedSession
  unused_session joined ref = record {
    ref = ref;
    active_variants = length (group ref joined);
    last_feedback_at = last_feedback ref joined;
  }

  unfoldable pub find_unused_variant_sessions :
      ℕ → Bool → List (VariantRow F) → List Event → ℕ → Option (List UnusedSession)
  find_unused_variant_sessions now taken variants events ttl =
      let joined = left_join (keep is_active variants) events in
      if taken
      then some (
          map (unused_session joined) (
            keep (λ ref. is_unused now ttl (last_feedback ref joined))
              (distinct_refs (map (λ j. j.0.ref) joined))))
      else none
