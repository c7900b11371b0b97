-- ===== src/Store/Pg/Sessions/Times.antt =====
-- The latest of the times of feedback events in `FindUnusedVariantSessions`
-- (internal/store/pg/store.go).
use prompt_graft.Base.{
  ℕ, ◌+◌, ◌<◌, true, Option, none, some, List, [], ◌∷◌, ◌≡◌, ◌↔◌, refl, subst, Memᴰ, arith,
}
use prompt_graft.Store.Types.{SessionRef}
use prompt_graft.Store.Pg.{Event}
use prompt_graft.Store.Pg.Sessions.{later, max_time, is_unused}

-- The event is older than the window.
abbrev pub IsOld : ℕ → ℕ → Event → Type 0
IsOld now ttl e = e.created_at + ttl < now

abbrev pub AllOld : ℕ → ℕ → SessionRef → List Event → Type 0
AllOld now ttl ref events = (e : Event) → Memᴰ e events → e.ref ≡ ref → IsOld now ttl e

later_iff :
    (now ttl : ℕ) (m : Option ℕ) (n : ℕ)
    → (is_unused now ttl (later m n) ≡ true) ↔ ((is_unused now ttl m ≡ true) × (n + ttl < now))
later_iff now ttl none n = (λ h. (refl, ground arith), λ h. ground arith)
later_iff now ttl (some m) n = (λ h. ground arith, λ h. ground arith)

pub max_time_iff :
    (now ttl : ℕ) (es : List (Option Event)) (m : Option ℕ)
    → (is_unused now ttl (max_time m es) ≡ true)
      ↔ ((is_unused now ttl m ≡ true) × ((e : Event) → Memᴰ (some e) es → IsOld now ttl e))
unfolding max_time
max_time_iff now ttl [] m = (λ h. (h, λ e k. elim k [ ]), λ h. h.0)
max_time_iff now ttl (none ∷ es) m =
    let ih = max_time_iff now ttl es m in
    (λ h. ((ih.0 h).0, skip (ih.0 h).1), λ h. ih.1 (h.0, λ e k. h.1 e (Memᴰ.tail k)))
  where
    skip :
        ((e : Event) → Memᴰ (some e) es → IsOld now ttl e)
        → (e : Event) → Memᴰ (some e) (none ∷ es)
        → IsOld now ttl e
    skip f e (Memᴰ.head same) = cc
    skip f e (Memᴰ.tail k) = f e k
max_time_iff now ttl (some x ∷ es) m =
    let ih = max_time_iff now ttl es (later m x.created_at) in
    let step = later_iff now ttl m x.created_at in
    (
      λ h. ((step.0 (ih.0 h).0).0, both (step.0 (ih.0 h).0).1 (ih.0 h).1),
      λ h. ih.1 (step.1 (h.0, h.1 x (Memᴰ.head refl)), λ e k. h.1 e (Memᴰ.tail k)),
    )
  where
    both :
        IsOld now ttl x
        → ((e : Event) → Memᴰ (some e) es → IsOld now ttl e)
        → (e : Event) → Memᴰ (some e) (some x ∷ es)
        → IsOld now ttl e
    both p f e (Memᴰ.head same) = let eq : x ≡ e = cc in subst (IsOld now ttl) eq p
    both p f e (Memᴰ.tail k) = f e k
