-- ===== src/Store/Feedback/Counts/Kept.antt =====
-- What a list of commands leaves in a field of Redis.
use prompt_graft.Base.{
  Bool, true, false, ◌&&◌, List, [], ◌∷◌, ◌≡◌, ◌⊎◌, inl, inr, ◌∙◌, ap, if◌then◌else◌, Bytes, ◌==◌,
  arith, All,
}
use prompt_graft.Store.Hashes.{
  Command, hincrby, hset, expire, del, hdel, set, lpush, ltrim, Redis, Ok, after, IsRedis,
}

-- A command that writes to a field, if at all, the value `v`.
abbrev pub Writes : Bytes → Bytes → Bytes → Command → Type 0
Writes k f v (hincrby j g n) = ((j == k) && (g == f)) ≡ false
Writes k f v (hset j g w) = (((j == k) && (g == f)) ≡ false) ⊎ (w ≡ v)
Writes k f v (expire j age) = Unit
Writes k f v _ = ⊥

either_way : (b : Bool) (w v x : Bytes) → (b ≡ false) ⊎ (w ≡ v) → x ≡ v → (if b then w else x) ≡ v
either_way b w v x (inl e) h = ground arith
either_way b w v x (inr e) h = ground arith

module _ {S : Type 0} (redis : Redis S) (field : S → Bytes → Bytes → Bytes)
    (law : IsRedis redis field) where
  step-Writes :
      (c : Command) (s : S) (k f v : Bytes)
      → Ok redis field s c
      → Writes k f v c
      → field s k f ≡ v
      → field (after redis field s c) k f ≡ v
  step-Writes (hincrby j g n) s k f v done w e = law.hincrby_other s j g n k f w ∙ e
  step-Writes (hset j g x) s k f v done w e =
      law.get-hset s j g x k f done ∙ either_way ((j == k) && (g == f)) x v (field s k f) w e
  step-Writes (expire j age) s k f v done w e = law.expire_lem s j age k f ∙ e
  step-Writes (del j) s k f v done w e = absurd w
  step-Writes (hdel j gs) s k f v done w e = absurd w
  step-Writes (set j x) s k f v done w e = absurd w
  step-Writes (lpush j x) s k f v done w e = absurd w
  step-Writes (ltrim j n) s k f v done w e = absurd w

  -- A field keeps its value through such commands.
  pub exec-Writes :
      (cs : List Command) (s : S) (k f v : Bytes)
      → (redis.exec s cs).0 ≡ true
      → All (Writes k f v) cs
      → field s k f ≡ v
      → field (redis.exec s cs).1 k f ≡ v
  exec-Writes [] s k f v done w e = ap (λ (st : Bool × S). field st.1 k f) (law.nothing s) ∙ e
  exec-Writes (c ∷ cs) s k f v done w e =
      let run = law.in_turn s c cs done in
      ap (λ t. field t k f) run.2
      ∙ exec-Writes cs (after redis field s c) k f v run.1 w.1 (step-Writes c s k f v run.0 w.0 e)
