-- ===== src/Base/Decimal.antt =====
-- Numbers in decimal, as Go's strconv writes and reads them.
use Prim.Native.Nat.{ℕ, zero, suc, ◌+◌, ◌-◌, ◌*◌, ◌/◌, ◌%◌, ◌^◌, ◌≤◌, ◌<◌}
use mathlib.Core.Path.{◌≡◌, refl, sym, ap, subst, ◌∙◌}
use mathlib.Core.Logic.{inl, inr}
use mathlib.Core.Bool.{Bool, true, false, ◌&&◌}
use mathlib.Core.Option.{Option, none, some}
use mathlib.Core.List.{[], ◌∷◌, ◌++◌, append_assoc, append-nil}
use native.Mathlib.Omega.{arith}
use prompt_graft.Base.Tests.{ltb, leb, eqb, if◌then◌else◌, Bool-cases}
use prompt_graft.Base.Strings.{Bytes}
use prompt_graft.Base.Int.{ℤ, pos, negsuc}

-- The decimal digits of a number, on fuel that is above it.
unfoldable pub digits : ℕ → ℕ → Bytes
digits zero n = []
digits (suc k) n =
    let front = digits k (n / 10) in if ltb n 10 then (48 + n) ∷ [] else front ++ (48 + n % 10) ∷ []

-- strconv.Itoa, strconv.FormatInt(n, 10)
unfoldable pub int_to_string : ℤ → Bytes
int_to_string (pos n) = digits (suc n) n
int_to_string (negsuc n) = 45 ∷ digits (suc (suc n)) (suc n)

unfoldable pub is_digit : ℕ → Bool
is_digit c = leb 48 c && leb c 57

-- The loop of strconv.ParseUint in base 10: `none` is a syntax error. A value that 64 bits do not hold
-- ends the loop with the largest, which `ParseInt` goes on with.
unfoldable pub parse_digits : ℕ → Bytes → Option ℕ
parse_digits n [] = some n
parse_digits n (c ∷ s) =
    let rest = parse_digits (n * 10 + (c - 48)) s in
    let in_range = if leb (2 ^ 64) (n * 10 + (c - 48)) then some (2 ^ 64 - 1) else rest in
    if is_digit c then in_range else none

unfoldable pub parse_uint : Bytes → Option ℕ
parse_uint [] = none
parse_uint (c ∷ s) = parse_digits 0 (c ∷ s)

abbrev pub signed : Bool → Option ℕ → ℤ
signed negative none = pos 0
signed true (some zero) = pos 0
signed true (some (suc n)) = if leb (2 ^ 63) n then negsuc (2 ^ 63 - 1) else negsuc n
signed false (some n) = if leb (2 ^ 63) n then pos (2 ^ 63 - 1) else pos n

-- The value of strconv.ParseInt(s, 10, 64), its error dropped
unfoldable pub parse_int : Bytes → ℤ
parse_int [] = pos 0
parse_int (c ∷ s) =
    if eqb c b'-'
    then signed true (parse_uint s)
    else if eqb c b'+'
    then signed false (parse_uint s)
    else signed false (parse_uint (c ∷ s))

parse_digits-step :
    (n d m : ℕ) (s : Bytes)
    → d < 10
    → n * 10 + d ≡ m
    → m < 2 ^ 64
    → parse_digits n ((48 + d) ∷ s) ≡ parse_digits m s
unfolding parse_digits is_digit
parse_digits-step n d m s p e q =
    let next : n * 10 + (48 + d - 48) ≡ m = omega arith in rw next (ground arith)

-- Reading the digits of a number and what follows them is reading on from the number.
parse_digits-digits :
    (k n : ℕ) (s : Bytes) → n < k → n < 2 ^ 64 → parse_digits 0 (digits k n ++ s) ≡ parse_digits n s
unfolding digits
parse_digits-digits zero n s h q = absurd (omega arith)
parse_digits-digits (suc k) n s h q = elim (Bool-cases (ltb n 10)) [
  | inl small ↦ rw small (parse_digits-step 0 n n s (ground arith) (omega arith) q)
  | inr large ↦ rw large (
      rw (append_assoc (digits k (n / 10)) ((48 + n % 10) ∷ []) s) (
        parse_digits-digits k (n / 10) ((48 + n % 10) ∷ s) (ground arith) (omega arith)
        ∙ parse_digits-step (n / 10) (n % 10) n s (omega arith) (omega arith) q))
]

abbrev StartsWithDigit : Bytes → Type 0
StartsWithDigit s = (c : ℕ) × (rest : Bytes) × (s ≡ c ∷ rest) × (48 ≤ c)

digits-StartsWithDigit : (k n : ℕ) (s : Bytes) → n < k → StartsWithDigit (digits k n ++ s)
unfolding digits
digits-StartsWithDigit zero n s h = absurd (omega arith)
digits-StartsWithDigit (suc k) n s h = elim (Bool-cases (ltb n 10)) [
  | inl small ↦ rw small (48 + n, s, refl, omega arith)
  | inr large ↦ rw large (
      rw (append_assoc (digits k (n / 10)) ((48 + n % 10) ∷ []) s)
        (digits-StartsWithDigit k (n / 10) ((48 + n % 10) ∷ s) (ground arith)))
]

unsigned : (c : ℕ) (s : Bytes) → 48 ≤ c → parse_int (c ∷ s) ≡ signed false (parse_digits 0 (c ∷ s))
unfolding parse_int parse_uint
unsigned c s h = ground arith

abbrev pub IsInt64 : ℕ → Type 0
IsInt64 n = n < 2 ^ 63

parse_digits-nil : (n : ℕ) → parse_digits n [] ≡ some n
unfolding parse_digits
parse_digits-nil n = refl

parse_int_of_digits :
    (s : Bytes) (n : ℕ)
    → StartsWithDigit s
    → parse_digits 0 s ≡ some n
    → IsInt64 n
    → parse_int s ≡ pos n
parse_int_of_digits s n (c, rest, e, le) read h =
    rw e (unsigned c rest le ∙ (rw (← e) (rw read (ground arith))))

-- A number that an int64 holds is read back from its digits.
pub parse_int-int_to_string : (n : ℕ) → IsInt64 n → parse_int (int_to_string (pos n)) ≡ pos n
unfolding int_to_string
parse_int-int_to_string n h =
    parse_int_of_digits (digits (suc n) n) n
      (subst StartsWithDigit (append-nil (digits (suc n) n))
        (digits-StartsWithDigit (suc n) n [] (omega arith)))
      (ap (parse_digits 0) (sym (append-nil (digits (suc n) n)))
        ∙ parse_digits-digits (suc n) n [] (omega arith) (omega arith)
        ∙ parse_digits-nil n)
      h
