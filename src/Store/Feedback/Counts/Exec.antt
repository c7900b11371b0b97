-- ===== src/Store/Feedback/Counts/Exec.antt =====
-- What a list of commands adds to a counter of Redis.
use prompt_graft.Base.{
  ℕ, ◌+◌, Bool, true, false, ◌&&◌, List, [], ◌∷◌, ◌≡◌, inl, inr, refl, ◌∙◌, ap, subst, ==_iff,
  and-eq-true, if◌then◌else◌, Bytes, ◌==◌, arith, All, Bool-cases,
}
use prompt_graft.Base.Int.{ℤ, pos}
use prompt_graft.Base.Decimal.{parse_int, IsInt64}
use prompt_graft.Store.Hashes.{
  Command, hincrby, hset, expire, del, hdel, set, lpush, ltrim, Redis, Ok, after, IsRedis,
}

-- What the commands add to one counter.
abbrev pub added : Bytes → Bytes → List Command → ℕ
added k f [] = 0
added k f (hincrby j g n ∷ cs) = (if (j == k) && (g == f) then n else 0) + added k f cs
added k f (hset j g v ∷ cs) = added k f cs
added k f (expire j age ∷ cs) = added k f cs
added k f (del j ∷ cs) = added k f cs
added k f (hdel j gs ∷ cs) = added k f cs
added k f (set j v ∷ cs) = added k f cs
added k f (lpush j v ∷ cs) = added k f cs
added k f (ltrim j n ∷ cs) = added k f cs

-- A command that does to a counter nothing else than to add to it.
abbrev pub Adds : Bytes → Bytes → Command → Type 0
Adds k f (hincrby j g n) = Unit
Adds k f (hset j g v) = ((j == k) && (g == f)) ≡ false
Adds k f (expire j age) = Unit
Adds k f _ = ⊥

module _ {S : Type 0} (redis : Redis S) (field : S → Bytes → Bytes → Bytes)
    (law : IsRedis redis field) where
  abbrev count : S → Bytes → Bytes → ℤ
  count s k f = parse_int (field s k f)

  abbrev behind : S → Command → S
  behind s c = after redis field s c

  pub counted_at :
      (s : S) (j g : Bytes) (n : ℕ) (k f : Bytes) (m : ℕ)
      → j ≡ k
      → g ≡ f
      → Ok redis field s (hincrby j g n)
      → count s k f ≡ pos m
      → IsInt64 (m + n)
      → count (behind s (hincrby j g n)) k f ≡ pos (m + n)
  counted_at s j g n k f m at of done e h =
      let here : count s j g ≡ pos m = rw (at, of) e in
      subst (λ x. count (behind s (hincrby j g n)) x f ≡ pos (m + n)) at
        (subst (λ y. count (behind s (hincrby j g n)) j y ≡ pos (m + n)) of
          (law.counted s j g m n done here h))

  count-hincrby :
      (s : S) (j g : Bytes) (n : ℕ) (k f : Bytes) (m : ℕ)
      → Ok redis field s (hincrby j g n)
      → count s k f ≡ pos m
      → IsInt64 (m + (if (j == k) && (g == f) then n else 0))
      → count (behind s (hincrby j g n)) k f ≡ pos (m + (if (j == k) && (g == f) then n else 0))
  count-hincrby s j g n k f m done e h = elim (Bool-cases ((j == k) && (g == f))) [
    | inl here ↦
        let same = and-eq-true (j == k) (g == f) here in
        rw here (
          counted_at s j g n k f m ((==_iff j k).0 same.0) ((==_iff g f).0 same.1) done e
            (rw here at h))
    | inr other ↦
        rw other (ap parse_int (law.hincrby_other s j g n k f other) ∙ (e ∙ ap pos (omega arith)))
  ]

  -- From the state behind the first command to the state behind all.
  count-cons :
      (c : Command) (cs : List Command) (s : S) (k f : Bytes) (m n : ℕ)
      → (redis.exec s (c ∷ cs)).0 ≡ true
      → m ≡ n
      → count (redis.exec (behind s c) cs).1 k f ≡ pos m
      → count (redis.exec s (c ∷ cs)).1 k f ≡ pos n
  count-cons c cs s k f m n done e rest =
      rw (← e) (ap (λ t. count t k f) (law.in_turn s c cs done).2 ∙ rest)

  pub count-exec :
      (cs : List Command) (s : S) (k f : Bytes) (m : ℕ)
      → (redis.exec s cs).0 ≡ true
      → All (Adds k f) cs
      → count s k f ≡ pos m
      → IsInt64 (m + added k f cs)
      → count (redis.exec s cs).1 k f ≡ pos (m + added k f cs)
  count-exec [] s k f m done safe e h =
      ap (λ (st : Bool × S). count st.1 k f) (law.nothing s) ∙ (e ∙ ap pos (omega arith))
  count-exec (hincrby j g n ∷ cs) s k f m done safe e h =
      let more : ℕ = if (j == k) && (g == f) then n else 0 in
      let run = law.in_turn s (hincrby j g n) cs done in
      count-cons (hincrby j g n) cs s k f (m + more + added k f cs)
        (m + added k f (hincrby j g n ∷ cs)) done (omega arith)
        (count-exec cs (behind s (hincrby j g n)) k f (m + more) run.1 safe.1
          (count-hincrby s j g n k f m run.0 e (omega arith)) (omega arith))
  count-exec (hset j g v ∷ cs) s k f m done safe e h =
      let run = law.in_turn s (hset j g v) cs done in
      let kept : field (behind s (hset j g v)) k f ≡ field s k f =
        law.get-hset s j g v k f run.0 ∙ rw safe.0 refl in
      count-cons (hset j g v) cs s k f (m + added k f cs) (m + added k f cs) done refl
        (count-exec cs (behind s (hset j g v)) k f m run.1 safe.1 (ap parse_int kept ∙ e) h)
  count-exec (expire j age ∷ cs) s k f m done safe e h =
      let run = law.in_turn s (expire j age) cs done in
      count-cons (expire j age) cs s k f (m + added k f cs) (m + added k f cs) done refl (
        count-exec cs (behind s (expire j age)) k f m run.1 safe.1
          (ap parse_int (law.expire_lem s j age k f) ∙ e) h)
  count-exec (del j ∷ cs) s k f m done safe e h = absurd safe.0
  count-exec (hdel j gs ∷ cs) s k f m done safe e h = absurd safe.0
  count-exec (set j v ∷ cs) s k f m done safe e h = absurd safe.0
  count-exec (lpush j v ∷ cs) s k f m done safe e h = absurd safe.0
  count-exec (ltrim j n ∷ cs) s k f m done safe e h = absurd safe.0
