-- ===== src/Store/Pg/Keys.antt =====
-- The columns that name a session in the tables of internal/store/pg/store.go, compared.
use prompt_graft.Base.{true, ◌≡◌, ◌↔◌, refl, ◌==◌, ==_iff, ==_refl, and-eq-true}
use prompt_graft.Store.Types.{SessionRef}
use prompt_graft.Store.Pg.{same_ref}

refs_eq : (a b : SessionRef) → a.key_hash ≡ b.key_hash → a.session_id ≡ b.session_id → a ≡ b
refs_eq a b p q = cc

pub same_ref_iff : (a b : SessionRef) → (same_ref a b ≡ true) ↔ (a ≡ b)
unfolding same_ref
same_ref_iff a b = (
  λ h.
      let both = and-eq-true (a.key_hash == b.key_hash) (a.session_id == b.session_id) h in
      refs_eq a b ((==_iff a.key_hash b.key_hash).0 both.0)
        ((==_iff a.session_id b.session_id).0 both.1),
  λ e. rw e (rw (==_refl b.key_hash, ==_refl b.session_id) refl),
)
