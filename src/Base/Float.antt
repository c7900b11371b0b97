-- ===== src/Base/Float.antt =====
-- Go's float64 as an interface: the operations that the program uses, and the laws of IEEE 754
-- comparisons that its properties need. `Num` are the values that are not NaN.
use Prim.Native.Nat.{ℕ, ◌+◌, ◌*◌, ◌/◌}
use mathlib.Core.Path.{◌≡◌, refl}
use mathlib.Core.Bool.{Bool, true, false}
use native.Mathlib.Omega.{arith}
use prompt_graft.Base.Tests.{ltb, leb}

pub record Floats : Type 1 where
  pub F : Type 0
  pub add : F → F → F
  pub mul : F → F → F
  pub div : F → F → F
  -- float64(n), and int64(x) for an x that is not negative
  pub of_nat : ℕ → F
  pub trunc : F → ℕ
  pub neg_inf : F
  pub neg_one : F
  -- a < b, a <= b
  pub lt : F → F → Bool
  pub le : F → F → Bool
  pub IsNum : F → Type 0
  pub lt_irrefl : (a : F) → lt a a ≡ false
  pub lt_trans : (a b c : F) → lt a b ≡ true → lt b c ≡ true → lt a c ≡ true
  -- On numbers `<` is a linear order: what does not lie below goes on not lying below.
  pub not_lt_trans :
      (a b c : F) → IsNum a → IsNum b → IsNum c → lt a b ≡ false → lt b c ≡ false → lt a c ≡ false

-- An instance with no fractions, in which NaN and the negative infinity stand beside the numbers.
pub data Value : Type 0 where
  nan : Value
  below : Value
  num : ℕ → Value

abbrev value_lt : Value → Value → Bool
value_lt below (num n) = true
value_lt (num m) (num n) = ltb m n
value_lt _ _ = false

abbrev value_le : Value → Value → Bool
value_le below below = true
value_le below (num n) = true
value_le (num m) (num n) = leb m n
value_le _ _ = false

abbrev lift₂ : (ℕ → ℕ → ℕ) → Value → Value → Value
lift₂ f (num m) (num n) = num (f m n)
lift₂ f below (num n) = below
lift₂ f _ _ = nan

abbrev value_trunc : Value → ℕ
value_trunc (num n) = n
value_trunc _ = 0

abbrev IsNumber : Value → Type 0
IsNumber nan = ⊥
IsNumber _ = Unit

pub value_lt_irrefl : (a : Value) → value_lt a a ≡ false
value_lt_irrefl nan = refl
value_lt_irrefl below = refl
value_lt_irrefl (num n) = ground arith

pub value_lt_trans :
    (a b c : Value) → value_lt a b ≡ true → value_lt b c ≡ true → value_lt a c ≡ true
value_lt_trans a b c h k = ground arith

pub value_not_lt_trans :
    (a b c : Value)
    → IsNumber a
    → IsNumber b
    → IsNumber c
    → value_lt a b ≡ false
    → value_lt b c ≡ false
    → value_lt a c ≡ false
value_not_lt_trans a b c x y z h k = ground arith

abbrev pub whole : Floats
whole = record {
  F = Value;
  add = lift₂ ◌+◌;
  mul = lift₂ ◌*◌;
  div = lift₂ ◌/◌;
  of_nat = num;
  trunc = value_trunc;
  neg_inf = below;
  neg_one = below;
  lt = value_lt;
  le = value_le;
  IsNum = IsNumber;
  lt_irrefl = value_lt_irrefl;
  lt_trans = value_lt_trans;
  not_lt_trans = value_not_lt_trans;
}
