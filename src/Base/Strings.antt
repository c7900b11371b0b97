-- ===== src/Base/Strings.antt =====
-- A Go string or byte slice is the list of its bytes. `codes` gives the bytes of an ASCII literal.
use Prim.Native.Nat.{ℕ}
use Prim.Native.Char.{code}
use Prim.Native.String.{String}
use mathlib.Core.Path.{◌≡◌, refl}
use mathlib.Core.Logic.{◌↔◌}
use mathlib.Core.Bool.{Bool, true, false, ◌&&◌}
use mathlib.Core.List.{List, [], ◌∷◌}
use native.Mathlib.Omega.{arith}
use prompt_graft.Base.Tests.{eqb}

abbrev pub Bytes : Type 0
Bytes = List ℕ

abbrev pub codes : String → Bytes
codes String.[] = []
codes (String.◌∷◌ c s) = code c ∷ codes s

infix 50 ◌==◌
unfoldable pub ◌==◌ : Bytes → Bytes → Bool
[] == [] = true
[] == (_ ∷ _) = false
(_ ∷ _) == [] = false
(a ∷ s) == (b ∷ t) = eqb a b && (s == t)

pub ==_iff : (s t : Bytes) → ((s == t) ≡ true) ↔ (s ≡ t)
unfolding ◌==◌
==_iff [] [] = (λ _. refl, λ _. refl)
==_iff [] (b ∷ t) = (λ h. cc, λ h. cc)
==_iff (a ∷ s) [] = (λ h. cc, λ h. cc)
==_iff (a ∷ s) (b ∷ t) = (λ h. ground (arith, ==_iff s t), λ h. ground (arith, ==_iff s t))

pub ==_refl : (s : Bytes) → (s == s) ≡ true
==_refl s = (==_iff s s).1 refl
