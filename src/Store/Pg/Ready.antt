-- ===== src/Store/Pg/Ready.antt =====
-- `ReadySessions` of internal/store/pg/store.go. Groups come in the order of their first row, which SQL
-- leaves open.
pub mod Laws
use prompt_graft.Base.{
  ℕ, ◌+◌, ◌*◌, Bool, true, false, not, ◌&&◌, ◌||◌, Option, none, some, List, [], ◌∷◌, map, keep,
  length, ltb, if◌then◌else◌, Bytes, ◌==◌,
}
use prompt_graft.Base.Int.{ℤ, pos, ltb_ℤ}
use prompt_graft.Store.Types.{SessionRef}
use prompt_graft.Store.Pg.{same_ref, Event, LogRow, is_row, select}
use prompt_graft.Store.Pg.Sessions.{distinct_refs}

abbrev pub is_set : Option Bytes → Bool
is_set none = false
is_set (some x) = true

abbrev pub is_complete : LogRow → Bool
is_complete row = is_set row.prompt && is_set row.response_text

-- JOIN conversation_logs: whether an event has a row with both texts. A conversation has one row at most.
unfoldable pub has_log : List LogRow → Event → Bool
has_log [] e = false
has_log (row ∷ logs) e = (is_row e.ref e.conversation_id row && is_complete row) || has_log logs e

-- last_optimized IS NULL OR last_optimized < $1, where the cutoff is now - 10 * every
abbrev pub is_due : ℕ → ℕ → Option ℕ → Bool
is_due now every none = true
is_due now every (some time) = ltb (time + every * 10) now

-- COUNT(DISTINCT …)
unfoldable pub distinct : List Bytes → List Bytes
distinct [] = []
distinct (x ∷ xs) = x ∷ keep (λ y. not (y == x)) (distinct xs)

abbrev pub conversations_of : SessionRef → List Event → List Bytes
conversations_of ref events =
    distinct (map (λ (e : Event). e.conversation_id) (keep (λ e. same_ref e.ref ref) events))

unfoldable pub joined_events : ℕ → ℕ → List (SessionRef × ℕ) → List LogRow → List Event → List Event
joined_events now every metadata logs events =
    keep (λ e. has_log logs e && is_due now every (select e.ref metadata)) events

unfoldable pub has_enough : ℤ → List Event → SessionRef → Bool
has_enough min_samples joined ref =
    not (ltb_ℤ (pos (length (conversations_of ref joined))) min_samples)

unfoldable pub ready_sessions :
    ℕ → Bool → List (SessionRef × ℕ) → List LogRow → List Event → ℤ → ℕ → Option (List SessionRef)
ready_sessions now taken metadata logs events min_samples every =
    let joined = joined_events now every metadata logs events in
    if taken
    then some
        (keep (has_enough min_samples joined) (distinct_refs (map (λ (e : Event). e.ref) joined)))
    else none
