-- ===== src/Gepa/Llm/Number.antt =====
-- The names of statuses that are numbers (`statusString` in internal/optimizer/gepa/llm.go).
use prompt_graft.Base.{
  ℕ, Bool, true, false, ◌≡◌, refl, ap, if◌then◌else◌, Bytes, codes, ◌==◌, arith,
}
use prompt_graft.Base.Int.{ℤ, pos, negsuc, eqb_ℤ}
use prompt_graft.Gepa.Llm.{succeeded, failed_status, number_status}

-- A text that is not `t` is not the one that was picked.
not_picked :
    (b : Bool) (x y t : Bytes)
    → (x == t) ≡ false
    → ((if b then x else y) == t) ≡ true
    → (y == t) ≡ true
not_picked b x y t n e = ground arith

eqb_ℤ-pos : (z : ℤ) (n : ℕ) → eqb_ℤ z (pos n) ≡ true → z ≡ pos n
eqb_ℤ-pos (pos m) n e = let same : m ≡ n = ground arith in ap pos same
eqb_ℤ-pos (negsuc m) n e = cc

picked :
    (b : Bool) (x y t : Bytes) → (y == t) ≡ false → ((if b then x else y) == t) ≡ true → b ≡ true
picked b x y t n e = ground arith

neither :
    (b : Bool) (x y t : Bytes)
    → (x == t) ≡ false
    → (y == t) ≡ false
    → ((if b then x else y) == t) ≡ false
neither b x y t m n = ground arith

pub number_status-succeeded : (z : ℤ) → (number_status z == succeeded) ≡ true → z ≡ pos 3
unfolding number_status ◌==◌
number_status-succeeded z e = eqb_ℤ-pos z 3 (
    picked (eqb_ℤ z (pos 3)) succeeded _ succeeded
      (neither (eqb_ℤ z (pos 4)) failed_status _ succeeded refl
        (neither (eqb_ℤ z (pos 5)) (codes "canceled") _ succeeded refl refl))
      (not_picked (eqb_ℤ z (pos 2)) (codes "processing") _ succeeded refl
        (not_picked (eqb_ℤ z (pos 1)) (codes "starting") _ succeeded refl e)))

pub number_status-failed : (z : ℤ) → (number_status z == failed_status) ≡ true → z ≡ pos 4
unfolding number_status ◌==◌
number_status-failed z e = eqb_ℤ-pos z 4 (
    picked (eqb_ℤ z (pos 4)) failed_status _ failed_status
      (neither (eqb_ℤ z (pos 5)) (codes "canceled") _ failed_status refl refl)
      (not_picked (eqb_ℤ z (pos 3)) succeeded _ failed_status refl (
        not_picked (eqb_ℤ z (pos 2)) (codes "processing") _ failed_status refl
          (not_picked (eqb_ℤ z (pos 1)) (codes "starting") _ failed_status refl e))))
