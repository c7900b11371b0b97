-- ===== src/Store/MiniRedis.antt =====
-- A small Redis, as an instance of the commands that internal/store/redis/feedback.go relies on.
use prompt_graft.Base.{
  ℕ, suc, ◌+◌, true, ◌&&◌, none, some, List, [], ◌∷◌, ◌≡◌, refl, ap, take, if◌then◌else◌, Bytes,
  ◌==◌, ==_refl,
}
use prompt_graft.Base.Int.{ℤ, pos}
use prompt_graft.Base.Decimal.{parse_int, int_to_string, parse_int-int_to_string, IsInt64}
use prompt_graft.Store.Log.{LogEntry}
use prompt_graft.Store.Hashes.{
  Command, hincrby, hset, expire, del, hdel, set, lpush, ltrim, Redis, IsRedis, IsUp,
}
use prompt_graft.Store.Feedback.Ready.{add_ℕ}

-- The writes, the last one first.
pub data Write : Type 0 where
  put : Bytes → Bytes → Bytes → Write
  drop : Bytes → Write

pub record Mini : Type 0 where
  pub writes : List Write
  pub log : List LogEntry

unfoldable pub held : List Write → Bytes → Bytes → Bytes
held [] k f = []
held (put j g v ∷ ws) k f = if (j == k) && (g == f) then v else held ws k f
held (drop j ∷ ws) k f = if j == k then [] else held ws k f

abbrev pub field_of : Mini → Bytes → Bytes → Bytes
field_of s = held s.writes

unfoldable pub run_command : Command → List Write → List Write
run_command (hincrby k f n) ws = put k f (int_to_string (add_ℕ (parse_int (held ws k f)) n)) ∷ ws
run_command (hset k f v) ws = put k f v ∷ ws
run_command (expire k age) ws = ws
run_command (del k) ws = drop k ∷ ws
run_command (hdel k fs) ws = ws
run_command (set k v) ws = ws
run_command (lpush k v) ws = ws
run_command (ltrim k n) ws = ws

unfoldable pub run_commands : List Command → List Write → List Write
run_commands [] ws = ws
run_commands (c ∷ cs) ws = run_commands cs (run_command c ws)

abbrev pub mini : Redis Mini
mini = record {
  exec = λ s cs. (true, record { writes = run_commands cs s.writes; log = s.log });
  hgetall = λ s k. some (held s.writes k);
  get = λ s k. none;
  lrange = λ s k n. some [];
  log_range = λ s k n. some (take (suc n) s.log);
}

held-put :
    (ws : List Write) (k f : Bytes) (z : ℤ) (m n : ℕ)
    → z ≡ pos m
    → IsInt64 (m + n)
    → parse_int (held (put k f (int_to_string (add_ℕ z n)) ∷ ws) k f) ≡ pos (m + n)
unfolding held
held-put ws k f z m n e h = rw (e, ==_refl k, ==_refl f) (parse_int-int_to_string (m + n) h)

pub mini-IsRedis : IsRedis mini field_of
unfolding run_commands run_command held
mini-IsRedis = record {
  reads = λ s k vals f e.
      let same : vals ≡ held s.writes k = cc in ap (λ (g : Bytes → Bytes). g f) same;
  nothing = λ s. refl;
  in_turn = λ s c cs e. (refl, refl, refl);
  get-hset = λ s k f v j g e. refl;
  counted = λ s k f m n done e h. held-put s.writes k f (parse_int (held s.writes k f)) m n e h;
  hincrby_other = λ s k f n j g e. rw e refl;
  expire_lem = λ s k age j g. refl;
  get-del = λ s k j g e. refl;
}

pub mini-IsUp : IsUp mini
mini-IsUp = record { takes = λ s cs. refl; answers = λ s k. (held s.writes k, refl) }
