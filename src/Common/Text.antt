-- ===== src/Common/Text.antt =====
-- Equality of Go strings, and membership of a string in a set of strings that is kept as a list.
use mathlib.Core.Path.{◌≡◌, refl}
use mathlib.Core.Logic.{◌↔◌}
use mathlib.Core.Bool.{Bool, true, false, ◌&&◌, ◌||◌}
use mathlib.Core.List.{List, [], ◌∷◌, ◌++◌}
use native.Mathlib.Omega.{arith}
use Prim.Native.Nat.{◌+◌}
use ome_kafka_bridge.Common.Tests.{leb, ◌==◌, if◌then◌else◌}
use ome_kafka_bridge.Common.Lists.{Bytes}

unfoldable pub str_eq : Bytes → Bytes → Bool
str_eq [] [] = true
str_eq [] (y ∷ t) = false
str_eq (x ∷ s) [] = false
str_eq (x ∷ s) (y ∷ t) = x == y && str_eq s t

pub str_eq_iff : (s t : Bytes) → (str_eq s t ≡ true) ↔ (s ≡ t)
unfolding str_eq
str_eq_iff [] [] = (λ _. refl, λ _. refl)
str_eq_iff [] (y ∷ t) = (λ e. cc, λ e. cc)
str_eq_iff (x ∷ s) [] = (λ e. cc, λ e. cc)
str_eq_iff (x ∷ s) (y ∷ t) =
    (λ e. ground (arith, (str_eq_iff s t).0), λ e. ground (arith, (str_eq_iff s t).1))

pub str_eq_refl : (s : Bytes) → str_eq s s ≡ true
str_eq_refl s = (str_eq_iff s s).1 refl

-- `m[k]` for a map[string]bool all of whose values are true
unfoldable pub contains : List Bytes → Bytes → Bool
contains [] k = false
contains (j ∷ m) k = str_eq j k || contains m k

pub contains-append :
    (xs ys : List Bytes) (k : Bytes) → contains (xs ++ ys) k ≡ (contains xs k || contains ys k)
unfolding contains
contains-append [] ys k = refl
contains-append (j ∷ xs) ys k = ground (arith, contains-append xs ys k)

-- strings.ToLower of an ASCII string
unfoldable pub to_lower : Bytes → Bytes
to_lower [] = []
to_lower (c ∷ s) = (if leb b'A' c && leb c b'Z' then c + 32 else c) ∷ to_lower s
