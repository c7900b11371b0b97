-- ===== src/Provider.antt =====
-- The interface of the upstream providers and their registries (internal/provider).
pub mod Generic
pub mod Replicate
pub mod OpenAiChat
pub mod RoundTrip
mod Tests
use prompt_graft.Base.{
  Bool, true, false, Option, none, some, List, [], ◌∷◌, ◌≡◌, refl, if◌then◌else◌, Bytes, ◌==◌,
  ==_iff, arith,
}

-- A pair (text, err) of Go: both parts are there, whether or not the error is nil.
pub record Answer : Type 0 where
  pub text : Bytes
  pub failed : Bool

abbrev pub answer : Bytes → Answer
answer s = record { text = s; failed = false }

abbrev pub failing : Bytes → Answer
failing s = record { text = s; failed = true }

-- `if s, ok := …; ok { return s, nil }; return "", nil`
abbrev pub text_or_empty : Option Bytes → Answer
text_or_empty none = answer []
text_or_empty (some s) = answer s

-- `none` is a run-time panic.
pub record Provider : Type 0 where
  pub name : Bytes
  pub hosts : List Bytes
  pub extract_system_prompt : Bytes → Bytes → Answer
  pub inject_system_prompt : Bytes → Bytes → Bytes → Option Answer
  pub extract_output_text : Bytes → Bytes → Answer

-- Registry and StyleRegistry are the same code; their mutexes make each call atomic.
pub record Registry : Type 0 where
  pub providers : List (Bytes × Provider)
  pub fallback : Provider

unfoldable pub new_registry : Provider → Registry
new_registry fallback = record { providers = []; fallback = fallback }

unfoldable pub find : List (Bytes × Provider) → Bytes → Provider → Provider
find [] host fallback = fallback
find ((h, p) ∷ ps) host fallback = if h == host then p else find ps host fallback

unfoldable pub register : Bytes → Provider → Registry → Registry
register host p r = record r { providers = (host, p) ∷ r.providers }

unfoldable pub lookup : Registry → Bytes → Provider
unfolding find
lookup r host = find r.providers host r.fallback

-- A lookup after a registration finds the new provider under its own host and is unchanged under
-- every other; with nothing registered it is the fallback.
pub lookup-register :
    (r : Registry) (host : Bytes) (p : Provider) (other : Bytes)
    → (lookup (register host p r) other ≡ (if host == other then p else lookup r other))
      × (lookup (new_registry p) other ≡ p)
unfolding lookup register new_registry
lookup-register r host p other = (refl, refl)
