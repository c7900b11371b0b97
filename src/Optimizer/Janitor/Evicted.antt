-- ===== src/Optimizer/Janitor/Evicted.antt =====
-- The sessions whose variants the janitor (internal/optimizer/janitor/janitor.go) takes out of Redis.
use prompt_graft.Base.{
  ℕ, Bool, true, false, ◌||◌, Option, none, some, List, [], ◌∷◌, map, ◌≡◌, refl, ◌∙◌, sym, ap,
  subst, if◌then◌else◌, Bytes, ◌==◌, ==_refl, arith, Memᴰ,
}
use prompt_graft.Store.Types.{SessionRef}
use prompt_graft.Store.Variants
use prompt_graft.Store.Variants.{Kv, IsKv, SetCodec, key_of, decoded, get_variant}
use prompt_graft.Store.Pg.{Tables}
use prompt_graft.Store.Pg.Sessions.{UnusedSession, find_unused_variant_sessions}
use prompt_graft.Store.Pg.Sessions.Laws.{find_unused_variant_sessions_iff}
use prompt_graft.Store.Pg.Sessions.Join.{HasActive}
use prompt_graft.Store.Pg.Sessions.Times.{AllOld}
use prompt_graft.Optimizer.Janitor.{JanitorRedis, evict, evict_found, retire_unused}

module _ {V S : Type 0} (kv : Kv S) (codec : SetCodec V) (redis : JanitorRedis S) where
  -- The janitor's Redis deletes as the store does.
  abbrev pub Deletes : Type 0
  Deletes =
      (s : S) (ref : SessionRef)
      → redis.delete_variants s ref ≡ Variants.delete_variants kv codec s ref

  abbrev pub is_evicted : List UnusedSession → Bytes → Bool
  is_evicted [] k = false
  is_evicted (u ∷ us) k = (key_of kv codec u.ref == k) || is_evicted us k

  delete_lem :
      (s : S) (ref : SessionRef)
      → Variants.delete_variants kv codec s ref ≡ kv.del s (key_of kv codec ref)
  unfolding Variants.delete_variants
  delete_lem s ref = refl

  get-evict :
      (later : ℕ) (us : List UnusedSession) (s : S) (k : Bytes)
      → IsKv kv
      → Deletes
      → ((t : S) (j : Bytes) → (kv.del t j).0 ≡ true)
      → kv.get later (evict redis us s) k ≡ (if is_evicted us k then none else kv.get later s k)
  unfolding evict
  get-evict later [] s k law same up = refl
  get-evict later (u ∷ us) s k law same up =
      let key : Bytes = key_of kv codec u.ref in
      get-evict later us (redis.delete_variants s u.ref).1 k law same up
      ∙ ap (λ o. if is_evicted us k then none else o)
          (ap (λ (x : Bool × S). kv.get later x.1 k) (same s u.ref ∙ delete_lem s u.ref)
            ∙ law.get-del later s key k (up s key))
      ∙ either (is_evicted us k) (key == k) (kv.get later s k)
    where
      either :
          (a b : Bool) (o : Option Bytes)
          → (if a then none else if b then none else o) ≡ (if b || a then none else o)
      either true true o = refl
      either true false o = refl
      either false true o = refl
      either false false o = refl

  evicted_mem :
      (us : List UnusedSession) (ref : SessionRef)
      → Memᴰ ref (map (λ (u : UnusedSession). u.ref) us)
      → is_evicted us (key_of kv codec ref) ≡ true
  evicted_mem [] ref m = elim m [ ]
  evicted_mem (u ∷ us) ref (Memᴰ.head e) = rw (← e) (rw (==_refl (key_of kv codec ref)) refl)
  evicted_mem (u ∷ us) ref (Memᴰ.tail m) =
      or_true (key_of kv codec u.ref == key_of kv codec ref) _ (evicted_mem us ref m)
    where
      or_true : (a b : Bool) → b ≡ true → (a || b) ≡ true
      or_true a b h = ground arith

  read_nothing :
      (now : ℕ) (s : S) (ref : SessionRef)
      → kv.get now s (key_of kv codec ref) ≡ none
      → get_variant kv codec now s ref ≡ none
  unfolding get_variant decoded
  read_nothing now s ref e = rw e refl

  retire_unused-evict :
      {F : Type 0} (now ttl : ℕ) (t : Tables F) (s : S) (us : List UnusedSession)
      → find_unused_variant_sessions now true t.variants t.feedback_events ttl ≡ some us
      → retire_unused redis now true ttl t s ≡ evict redis us s
  unfolding retire_unused
  retire_unused-evict now ttl t s us e = ap (λ o. evict_found redis o s) e

  found :
      {F : Type 0} (now ttl : ℕ) (t : Tables F)
      → (us : List UnusedSession) × (find_unused_variant_sessions now true t.variants
            t.feedback_events ttl
          ≡ some us)
  unfolding find_unused_variant_sessions
  found now ttl t = (_, refl)

  -- After a sweep for which Postgres answers, Redis has no variants of any session that has an active
  -- variant in Postgres and no rating inside the window. Redis does as documented and takes each deletion.
  pub retire_unused_lem :
      {F : Type 0}
      → IsKv kv
      → Deletes
      → ((t : S) (j : Bytes) → (kv.del t j).0 ≡ true)
      → (now ttl later : ℕ) (t : Tables F) (s : S) (ref : SessionRef) → HasActive t.variants ref
      → AllOld now ttl ref t.feedback_events
      → get_variant kv codec later (retire_unused redis now true ttl t s) ref ≡ none
  retire_unused_lem law same up now ttl later t s ref active old =
      let (us, e) = found now ttl t in
      let listed =
        (find_unused_variant_sessions_iff now ttl t.variants t.feedback_events us e ref).1
          (active, old) in
      subst (λ r. get_variant kv codec later r ref ≡ none)
        (sym (retire_unused-evict now ttl t s us e))
        (read_nothing later (evict redis us s) ref (
          get-evict later us s (key_of kv codec ref) law same up
          ∙ rw (evicted_mem us ref listed) refl))
