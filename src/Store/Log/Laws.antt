-- ===== src/Store/Log/Laws.antt =====
-- What is read back of a log, one conversation at a time.
use prompt_graft.Base.{
  ◌≤◌, Bool, true, false, Option, none, some, List, [], ◌∷◌, ◌≡◌, ◌≢◌, refl, sym, ap, ◌∙◌, inl, inr,
  is_empty, length, length-take, take, if◌then◌else◌, Bytes, ◌==◌, ==_iff, arith, Bool-cases,
}
use prompt_graft.Store.Log.{
  LogEntry, Partial, push, fresh, ListCommands, absorb, Conversations, put, collect_one, collect,
  LogCodec,
}

pub push_lem :
    (redis : ListCommands) (raw : Bytes) (log : List Bytes) → push redis raw log ≡ raw ∷ take 99 log
unfolding push
push_lem redis raw log =
    ap (redis.ltrim 99) (redis.lpush-front raw log) ∙ redis.ltrim-take 99 (raw ∷ log)

-- A log has at most a hundred entries behind a push, and the newest is the first.
pub length-push :
    (redis : ListCommands) (raw : Bytes) (log : List Bytes)
    → (length (push redis raw log) ≤ 100) × (push redis raw log ≡ raw ∷ take 99 log)
length-push redis raw log =
    let e = push_lem redis raw log in (omega (arith, ap length e, length-take 99 log), e)

-- The part of a conversation in a map.
abbrev pub find : Conversations → Bytes → Option Partial
find [] c = none
find ((d, p) ∷ m) c = if d == c then some p else find m c

abbrev pub or_fresh : Option Partial → LogEntry → Partial
or_fresh none e = fresh e
or_fresh (some p) e = p

-- What one entry adds to a conversation: nothing, if it does not decode or is another one's.
abbrev pub gathered_one : Bytes → Option Partial → Option LogEntry → Option Partial
gathered_one c o none = o
gathered_one c o (some e) = if e.conversation_id == c then some (absorb e (or_fresh o e)) else o

-- The entries of one conversation, taken in one after the other.
abbrev pub gathered : LogCodec → Bytes → Option Partial → List Bytes → Option Partial
gathered json c o [] = o
gathered json c o (raw ∷ log) = gathered json c (gathered_one c o (json.decode raw)) log

not_both : {b : Bool} → b ≡ true → b ≡ false → ⊥
not_both e f = cc (e, f)

find-put :
    (m : Conversations) (e : LogEntry) (c : Bytes)
    → find (put m e) c
      ≡ (if e.conversation_id == c then some (absorb e (or_fresh (find m c) e)) else find m c)
unfolding put
find-put [] e c = refl
find-put ((d, p) ∷ m) e c = elim (Bool-cases (d == e.conversation_id)) [
  | inl here ↦
      let same : d ≡ e.conversation_id = (==_iff d e.conversation_id).0 here in
      rw here (at_head (e.conversation_id == c) (ap (λ x. x == c) same))
  | inr other ↦ rw other (behind (d == c) (e.conversation_id == c) other refl refl (find-put m e c))
]
  where
    at_head :
        (b : Bool)
        → (d == c) ≡ b
        → (if d == c then some (absorb e p) else find m c) ≡ (
            if b
            then some (absorb e (or_fresh (if d == c then some p else find m c) e))
            else (if d == c then some p else find m c))
    at_head true h = rw h refl
    at_head false h = rw h refl

    behind :
        (x y : Bool)
        → (d == e.conversation_id) ≡ false
        → (d == c) ≡ x
        → (e.conversation_id == c) ≡ y
        → find (put m e) c
          ≡ (if e.conversation_id == c then some (absorb e (or_fresh (find m c) e)) else find m c)
        → (if d == c then some p else find (put m e) c) ≡ (
            if e.conversation_id == c
            then some (absorb e (or_fresh (if d == c then some p else find m c) e))
            else (if d == c then some p else find m c))
    behind true true other h k ih =
        let same : d ≡ e.conversation_id =
          (==_iff d c).0 h ∙ sym ((==_iff e.conversation_id c).0 k) in
        absurd (not_both ((==_iff d e.conversation_id).1 same) other)
    behind true false other h k ih = rw (h, k) refl
    behind false y other h k ih = rw h ih

unnamed : (a c : Bytes) → is_empty a ≡ true → c ≢ [] → (a == c) ≡ false
unfolding ◌==◌
unnamed [] [] e n = absurd (n refl)
unnamed [] (y ∷ c) e n = refl
unnamed (x ∷ a) c e n = cc

find-collect_one :
    (m : Conversations) (o : Option LogEntry) (c : Bytes)
    → c ≢ []
    → find (collect_one m o) c ≡ gathered_one c (find m c) o
unfolding collect_one
find-collect_one m none c n = refl
find-collect_one m (some e) c n = elim (Bool-cases (is_empty e.conversation_id)) [
  | inl empty ↦ rw (empty, unnamed e.conversation_id c empty n) refl
  | inr full ↦ rw full (find-put m e c)
]

-- What the map has for a conversation with a name is what its entries alone give, in their order:
-- entries of other conversations, without one, and those that do not decode have no part in it.
pub find-collect :
    (json : LogCodec) (log : List Bytes) (m : Conversations) (c : Bytes)
    → c ≢ []
    → find (collect json m log) c ≡ gathered json c (find m c) log
unfolding collect
find-collect json [] m c n = refl
find-collect json (raw ∷ log) m c n =
    find-collect json log (collect_one m (json.decode raw)) c n
    ∙ ap (λ o. gathered json c o log) (find-collect_one m (json.decode raw) c n)
