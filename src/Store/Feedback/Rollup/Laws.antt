-- ===== src/Store/Feedback/Rollup/Laws.antt =====
-- Where the votes of the conversations go in `RollupConversationFeedback`
-- (internal/store/redis/feedback.go).
use prompt_graft.Base.{
  ℕ, zero, suc, ◌+◌, Bool, true, false, ◌&&◌, some, List, [], ◌∷◌, ◌++◌, map, ◌≡◌, ◌⊎◌, inl, inr,
  refl, ◌∙◌, sym, ap, if◌then◌else◌, Bytes, ◌==◌, ==_iff, ==_refl, and-eq-true, arith, All, All-mem,
  Memᴰ, Bool-cases,
}
use prompt_graft.Base.Int.{ℤ, pos, negsuc}
use prompt_graft.Base.Decimal.{parse_int, IsInt64}
use prompt_graft.Store.Types.{SessionRef}
use prompt_graft.Store.Keys.{key_session_feedback}
use prompt_graft.Store.Hashes.{Redis, IsRedis, IsUp}
use prompt_graft.Store.Feedback.{up, down, variant_field}
use prompt_graft.Store.Feedback.Counts.Exec.{counted_at}
use prompt_graft.Store.Feedback.Rollup.{
  target, add_votes, move_votes, move_answer, rollup_key, rollup_keys, rollup,
}
use prompt_graft.Store.Feedback.Rollup.Owed.{
  View, clear, gain, owed, IsRated, IsVote, IsRated-kind, target-kind, target-apart, and_left,
  All-SameAt, owed_same, not_same, emptied, flat,
}

module _ {S : Type 0} (redis : Redis S) (field : S → View) (law : IsRedis redis field)
    (running : IsUp redis) where
  abbrev count : S → Bytes → Bytes → ℤ
  count s k f = parse_int (field s k f)

  add_votes_other :
      (key f : Bytes) (z : ℤ) (s : S) (j g : Bytes)
      → ((key == j) && (f == g)) ≡ false
      → field (add_votes redis key f z s) j g ≡ field s j g
  unfolding add_votes
  add_votes_other key f (pos zero) s j g h = refl
  add_votes_other key f (pos (suc n)) s j g h = law.hincrby_other s key f (suc n) j g h
  add_votes_other key f (negsuc n) s j g h = refl

  add_votes_at :
      (key f : Bytes) (z : ℤ) (s : S) (t g : Bytes) (m : ℕ)
      → key ≡ t
      → f ≡ g
      → count s t g ≡ pos m
      → IsInt64 (m + gain z)
      → count (add_votes redis key f z s) t g ≡ pos (m + gain z)
  unfolding add_votes
  add_votes_at key f (pos zero) s t g m at of e h = e ∙ ap pos (omega arith)
  add_votes_at key f (pos (suc n)) s t g m at of e h =
      counted_at redis field law s key f (suc n) t g m at of (running.takes s _) e h
  add_votes_at key f (negsuc n) s t g m at of e h = e ∙ ap pos (omega arith)

  count-add_votes :
      (key f : Bytes) (z : ℤ) (s : S) (t g : Bytes) (m : ℕ)
      → count s t g ≡ pos m
      → IsInt64 (m + (if (key == t) && (f == g) then gain z else 0))
      → count (add_votes redis key f z s) t g
        ≡ pos (m + (if (key == t) && (f == g) then gain z else 0))
  count-add_votes key f z s t g m e h = elim (Bool-cases ((key == t) && (f == g))) [
    | inl here ↦
        let same = and-eq-true (key == t) (f == g) here in
        rw here (
          add_votes_at key f z s t g m ((==_iff key t).0 same.0) ((==_iff f g).0 same.1) e
            (rw here at h))
    | inr other ↦
        rw other (ap parse_int (add_votes_other key f z s t g other) ∙ (e ∙ ap pos (omega arith)))
  ]

  -- What one conversation gives to a counter that is no conversation's.
  votes_moved :
      (a u d : Bool) (m x y z : ℕ)
      → (u ≡ true) × ((d ≡ false) × (z ≡ x)) ⊎ ((u ≡ false) × ((d ≡ true) × (z ≡ y)))
      → m + (if a && u then x else 0) + (if a && d then y else 0) ≡ m + (if a then z else 0)
  votes_moved a u d m x y z (inl (p, q)) = ground arith
  votes_moved a u d m x y z (inr (p, q)) = ground arith

  which_vote :
      (f : Bytes) (v : Bytes → Bytes)
      → IsVote f
      → ((up == f) ≡ true)
          × (((down == f) ≡ false) × (gain (parse_int (v f)) ≡ gain (parse_int (v up))))
        ⊎ (((up == f) ≡ false)
            × (((down == f) ≡ true) × (gain (parse_int (v f)) ≡ gain (parse_int (v down)))))
  unfolding ◌==◌
  which_vote f v (inl e) = inl (rw e (refl, (refl, refl)))
  which_vote f v (inr e) = inr (rw e (refl, (refl, refl)))

  count-move_votes :
      (ref : SessionRef) (key : Bytes) (vals : Bytes → Bytes) (s : S) (t f : Bytes) (m : ℕ)
      → (key == t) ≡ false
      → IsVote f
      → count s t f ≡ pos m
      → IsInt64
          (m + (if target ref (vals variant_field) == t then gain (parse_int (vals f)) else 0))
      → count (move_votes redis ref key vals s) t f
        ≡ pos (m + (if target ref (vals variant_field) == t then gain (parse_int (vals f)) else 0))
  unfolding move_votes
  count-move_votes ref key vals s t f m apart vote e h =
      let to : Bytes = target ref (vals variant_field) in
      let sum =
        votes_moved (to == t) (up == f) (down == f) m (gain (parse_int (vals up)))
          (gain (parse_int (vals down))) (gain (parse_int (vals f))) (which_vote f vals vote) in
      let middle = count-add_votes to up (parse_int (vals up)) s t f m e (omega arith) in
      let last =
        count-add_votes to down (parse_int (vals down))
          (add_votes redis to up (parse_int (vals up)) s) t f
          (m + (if (to == t) && (up == f) then gain (parse_int (vals up)) else 0)) middle
          (omega arith) in
      ap parse_int (law.get-del _ key t f (running.takes _ _) ∙ rw apart refl) ∙ (last ∙ ap pos sum)

  -- The hash of a conversation afterwards: emptied if its votes were moved, else as it was.
  field-move_votes :
      (ref : SessionRef) (key : Bytes) (vals : Bytes → Bytes) (s : S) (j g : Bytes)
      → IsRated ref j
      → field (move_votes redis ref key vals s) j g ≡ clear key (field s) j g
  unfolding move_votes
  field-move_votes ref key vals s j g h =
      let to : Bytes = target ref (vals variant_field) in
      let apart = target-apart ref (vals variant_field) j h in
      law.get-del _ key j g (running.takes _ _)
      ∙ ap (λ x. if key == j then [] else x)
          (add_votes_other to down (parse_int (vals down)) _ j g (and_left _ _ apart)
            ∙ add_votes_other to up (parse_int (vals up)) s j g (and_left _ _ apart))

  abbrev answer : S → Bytes → Bytes → Bytes
  answer s key = (running.answers s key).0

  rollup_key_lem :
      (ref : SessionRef) (s : S) (key : Bytes)
      → rollup_key redis ref s key ≡ move_votes redis ref key (answer s key) s
  unfolding rollup_key
  rollup_key_lem ref s key = ap (move_answer redis ref key s) (running.answers s key).1

  answer_lem : (s : S) (key f : Bytes) → answer s key f ≡ field s key f
  answer_lem s key f = law.reads s key (answer s key) f (running.answers s key).1

  count-rollup_key :
      (ref : SessionRef) (s : S) (key t f : Bytes) (m : ℕ)
      → (key == t) ≡ false
      → IsVote f
      → count s t f ≡ pos m
      → IsInt64 (
          m
          + (if target ref (field s key variant_field) == t
              then gain (parse_int (field s key f))
              else 0))
      → count (rollup_key redis ref s key) t f
        ≡ pos (
            m
            + (if target ref (field s key variant_field) == t
                then gain (parse_int (field s key f))
                else 0))
  count-rollup_key ref s key t f m apart vote e h =
      rw (rollup_key_lem ref s key, ← answer_lem s key variant_field, ← answer_lem s key f)
        (count-move_votes ref key (answer s key) s t f m apart vote e
          (rw (answer_lem s key variant_field, answer_lem s key f) h))

  field-rollup_key :
      (ref : SessionRef) (s : S) (key j g : Bytes)
      → IsRated ref j
      → field (rollup_key redis ref s key) j g ≡ clear key (field s) j g
  field-rollup_key ref s key j g h =
      rw (rollup_key_lem ref s key) (field-move_votes ref key (answer s key) s j g h)

  pub count-rollup_keys :
      (ref : SessionRef) (ks : List Bytes) (s : S) (t f : Bytes) (m : ℕ)
      → All (IsRated ref) ks
      → ¬ IsRated ref t
      → IsVote f
      → count s t f ≡ pos m
      → IsInt64 (m + owed ref t f (field s) ks)
      → count (rollup_keys redis ref s ks) t f ≡ pos (m + owed ref t f (field s) ks)
  unfolding rollup_keys
  count-rollup_keys ref [] s t f m rated apart vote e h = e ∙ ap pos (omega arith)
  count-rollup_keys ref (k ∷ ks) s t f m rated apart vote e h =
      let next : S = rollup_key redis ref s k in
      let first : ℕ =
        if target ref (field s k variant_field) == t then gain (parse_int (field s k f)) else 0 in
      let same : owed ref t f (field next) ks ≡ owed ref t f (clear k (field s)) ks =
        owed_same ref t f (field next) (clear k (field s)) ks
          (All-SameAt (IsRated ref) ks rated.1 (λ j r g. field-rollup_key ref s k j g r)) in
      count-rollup_keys ref ks next t f (m + first) rated.1 apart vote
        (count-rollup_key ref s k t f m (not_same ref k t rated.0 apart) vote e (omega arith))
        (omega arith)
      ∙ ap pos (omega arith)

  -- Every conversation that was found is emptied.
  field-rollup_keys :
      (ref : SessionRef) (ks : List Bytes) (s : S) (j g : Bytes)
      → IsRated ref j
      → Memᴰ j ks ⊎ (field s j g ≡ [])
      → field (rollup_keys redis ref s ks) j g ≡ []
  unfolding rollup_keys
  field-rollup_keys ref [] s j g rated (inl m) = elim m [ ]
  field-rollup_keys ref [] s j g rated (inr e) = e
  field-rollup_keys ref (k ∷ ks) s j g rated h =
      field-rollup_keys ref ks (rollup_key redis ref s k) j g rated
        (emptied k j g ks (field s) h (field-rollup_key ref s k j g rated))

  rollup_keys-append :
      (ref : SessionRef) (ks ls : List Bytes) (s : S)
      → rollup_keys redis ref s (ks ++ ls) ≡ rollup_keys redis ref (rollup_keys redis ref s ks) ls
  unfolding rollup_keys
  rollup_keys-append ref [] ls s = refl
  rollup_keys-append ref (k ∷ ks) ls s = rollup_keys-append ref ks ls (rollup_key redis ref s k)

  rollup_lem :
      (ref : SessionRef) (lists : List (List Bytes)) (s : S)
      → rollup redis ref s (map some lists) ≡ (true, rollup_keys redis ref s (flat lists))
  unfolding rollup rollup_keys
  rollup_lem ref [] s = refl
  rollup_lem ref (ks ∷ lists) s =
      rollup_lem ref lists (rollup_keys redis ref s ks)
      ∙ ap (λ x. (true, x)) (sym (rollup_keys-append ref ks (flat lists) s))

-- When every SCAN succeeds, a roll-up moves the votes of the conversations that were found: a counter that
-- belongs to no conversation, of up or of down votes, is what it was and what the conversations whose target it is
-- held, each counted once even if SCAN gave its key repeatedly; and each conversation found is left
-- without a field. Redis does as documented, answers and takes every command, and the counter stays
-- an int64.
pub rollup_moves :
    {S : Type 0} (redis : Redis S) (field : S → View)
    → IsRedis redis field
    → IsUp redis
    → (ref : SessionRef) (lists : List (List Bytes)) (s : S) → All (IsRated ref) (flat lists)
    → ((rollup redis ref s (map some lists)).0 ≡ true)
      × ((t f : Bytes) (m : ℕ)
          → ¬ IsRated ref t
          → IsVote f
          → parse_int (field s t f) ≡ pos m
          → IsInt64 (m + owed ref t f (field s) (flat lists))
          → parse_int (field (rollup redis ref s (map some lists)).1 t f)
            ≡ pos (m + owed ref t f (field s) (flat lists)))
      × ((k g : Bytes)
          → Memᴰ k (flat lists)
          → field (rollup redis ref s (map some lists)).1 k g ≡ [])
rollup_moves redis field law running ref lists s rated =
    let e = rollup_lem redis field law running ref lists s in
    (
      ap (λ (x : Bool × _). x.0) e,
      λ t f m apart vote c h.
          ap (λ (x : Bool × _). parse_int (field x.1 t f)) e
          ∙ count-rollup_keys redis field law running ref (flat lists) s t f m rated apart vote c h,
      λ k g m.
          ap (λ (x : Bool × _). field x.1 k g) e
          ∙ field-rollup_keys redis field law running ref (flat lists) s k g
              (All-mem (IsRated ref) rated m) (inl m),
    )

-- The votes of one conversation without a variant, given to the session.
pub owed_session :
    (ref : SessionRef) (k f : Bytes) (v : View) (n : ℕ)
    → v k variant_field ≡ []
    → parse_int (v k f) ≡ pos n
    → owed ref (key_session_feedback ref.key_hash ref.session_id) f v (k ∷ []) ≡ n
owed_session ref k f v n e c =
    rw (e, ==_refl (key_session_feedback ref.key_hash ref.session_id), c) (omega arith)

pub session-not-IsRated :
    (ref : SessionRef) → ¬ IsRated ref (key_session_feedback ref.key_hash ref.session_id)
session-not-IsRated ref h =
    target-kind ref [] (IsRated-kind ref (key_session_feedback ref.key_hash ref.session_id) h)
