-- ===== src/Store/Hashes.antt =====
-- The Redis commands that internal/store/redis/feedback.go sends: hashes, a pipeline of commands, and
-- what is read of keys. Redis is an interface on a state `S`, with what it documents as laws.
use prompt_graft.Base.{
  ℕ, ◌+◌, Bool, true, false, ◌&&◌, Option, some, List, [], ◌∷◌, ◌≡◌, if◌then◌else◌, Bytes, ◌==◌,
}
use prompt_graft.Base.Int.{pos}
use prompt_graft.Base.Decimal.{parse_int, IsInt64}
use prompt_graft.Store.Log.{LogEntry}

-- HINCRBY key field n, HSET key field value, EXPIRE key, DEL key, HDEL key fields, SET key value, and
-- LPUSH key value with LTRIM key 0 stop
pub data Command : Type 0 where
  hincrby : Bytes → Bytes → ℕ → Command
  hset : Bytes → Bytes → Bytes → Command
  expire : Bytes → ℕ → Command
  del : Bytes → Command
  hdel : Bytes → List Bytes → Command
  set : Bytes → Bytes → Command
  lpush : Bytes → Bytes → Command
  ltrim : Bytes → ℕ → Command

-- HGETALL, a map in which a missing field reads as the empty string; GET; LRANGE from 0, on the log of
-- a session with the entries that do not decode left out, and on a plain list.
pub record Redis (S : Type 0) : Type 0 where
  pub exec : S → List Command → Bool × S
  pub hgetall : S → Bytes → Option (Bytes → Bytes)
  pub get : S → Bytes → Option Bytes
  pub lrange : S → Bytes → ℕ → Option (List Bytes)
  pub log_range : S → Bytes → ℕ → Option (List LogEntry)

module _ {S : Type 0} (redis : Redis S) (field : S → Bytes → Bytes → Bytes) where
  abbrev pub Ok : S → Command → Type 0
  Ok s c = (redis.exec s (c ∷ [])).0 ≡ true

  -- The state behind one command.
  abbrev pub after : S → Command → S
  after s c = (redis.exec s (c ∷ [])).1

  -- `field` is what a state holds, and HGETALL reads it. A pipeline without an error has run each of its
  -- commands without one, in their order.
  pub record IsRedis : Type 0 where
    pub reads :
        (s : S) (k : Bytes) (vals : Bytes → Bytes) (f : Bytes)
        → redis.hgetall s k ≡ some vals
        → vals f ≡ field s k f
    pub nothing : (s : S) → redis.exec s [] ≡ (true, s)
    pub in_turn :
        (s : S) (c : Command) (cs : List Command)
        → (redis.exec s (c ∷ cs)).0 ≡ true
        → Ok s c
          × ((redis.exec (after s c) cs).0 ≡ true)
          × ((redis.exec s (c ∷ cs)).1 ≡ (redis.exec (after s c) cs).1)
    pub get-hset :
        (s : S) (k f v j g : Bytes)
        → Ok s (hset k f v)
        → field (after s (hset k f v)) j g ≡ (if (k == j) && (f == g) then v else field s j g)
    pub counted :
        (s : S) (k f : Bytes) (m n : ℕ)
        → Ok s (hincrby k f n)
        → parse_int (field s k f) ≡ pos m
        → IsInt64 (m + n)
        → parse_int (field (after s (hincrby k f n)) k f) ≡ pos (m + n)
    pub hincrby_other :
        (s : S) (k f : Bytes) (n : ℕ) (j g : Bytes)
        → ((k == j) && (f == g)) ≡ false
        → field (after s (hincrby k f n)) j g ≡ field s j g
    pub expire_lem :
        (s : S) (k : Bytes) (age : ℕ) (j g : Bytes)
        → field (after s (expire k age)) j g ≡ field s j g
    pub get-del :
        (s : S) (k j g : Bytes)
        → Ok s (del k)
        → field (after s (del k)) j g ≡ (if k == j then [] else field s j g)

-- Redis answers, and takes what it is sent.
pub record IsUp {S : Type 0} (redis : Redis S) : Type 0 where
  pub takes : (s : S) (cs : List Command) → (redis.exec s cs).0 ≡ true
  pub answers : (s : S) (k : Bytes) → (vals : Bytes → Bytes) × (redis.hgetall s k ≡ some vals)
